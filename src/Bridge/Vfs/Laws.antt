-- ===== src/Bridge/Vfs/Laws.antt =====
-- What reads and writes leave in the virtual file system, and what its changes are.
use wordpress.Common.{
  Bool-cases, Option, Option-cases, Post, Post-bind, Post-lift, Post-map, Post-throw_if,
  Result-cases, String, eq_iff, inl, inr, lift, lookup, lookup-insert, modify, not, ok, refl, some,
  str_eq_refl, throw_if, ◌==◌, ◌>>=◌, ◌>>◌, ◌≡◌,
}
use wordpress.Bridge.Vfs.{
  ChangeVfs, Original, VfsConfig, keep_original, load_new, load_original, read, read_at, root_of,
  stage, too_large, vfs_key, write, write_at,
}
use wordpress.Bridge.Errors.{bridge, operation_not_allowed}
use wordpress.Bridge.Files.{Buffer, Root}

-- Every staged key has an original.
pub record Backed (v : ChangeVfs) : Type 0 where
  pub original :
      (k : String) (new : Option Buffer)
      → lookup k v.staged ≡ some new
      → (o : Original) × (lookup k v.originals ≡ some o)

-- What a load of the key leaves: an original of the key, what was staged, and every other original.
record Loaded (key : String) (v w : ChangeVfs) : Type 0 where
  original : (o : Original) × (lookup key w.originals ≡ some o)
  staged : w.staged ≡ v.staged
  others :
      (k : String) (o : Original)
      → lookup k v.originals ≡ some o
      → (o' : Original) × (lookup k w.originals ≡ some o')

Loaded-keep_original :
    (key : String) (o : Original) (v : ChangeVfs) → Loaded key v (keep_original key o v)
unfolding keep_original
Loaded-keep_original key o v = record {
  original = (o, rw lookup-insert (rw (str_eq_refl key) refl));
  staged = refl;
  others = λ k p found. elim (Bool-cases (key == k)) [
    | inl here ↦ (o, rw lookup-insert (rw here refl))
    | inr other ↦ (p, rw lookup-insert (rw other found))
  ];
}

Backed-Loaded : (key : String) (v w : ChangeVfs) → Backed v → Loaded key v w → Backed w
Backed-Loaded key v w b l = record {
  original =
      λ k new found. let (o, was) = b.original k new (rw l.staged at found) in l.others k o was;
}

Backed-stage :
    (key : String) (new : Option Buffer) (v w : ChangeVfs)
    → Backed v
    → Loaded key v w
    → Backed (stage key new w)
unfolding stage
Backed-stage key new v w b l = record {
  original = λ k last found. elim (Bool-cases (key == k)) [
    | inl here ↦ rw (← (eq_iff key k).0 here) l.original
    | inr other ↦
        (Backed-Loaded key v w b l).original k last (rw other at rw lookup-insert at found)
  ];
}

module _ (cfg : VfsConfig) where
  load_new-Loaded :
      (root : Root) (rel : String) (v : ChangeVfs)
      → Post (λ _ w. Loaded (vfs_key root.id rel) v w) (λ _ w. w ≡ v) (load_new cfg root rel v)
  unfolding load_new
  load_new-Loaded root rel v = elim (Result-cases (cfg.resolve_in_root root rel)) [
    | inr (e, bad) ↦ rw bad refl
    | inl (abs, good) ↦ rw good (elim (Result-cases (cfg.disk_content abs)) [
      | inr (e, bad) ↦ rw bad refl
      | inl (before, loaded) ↦ rw loaded (
          Loaded-keep_original (vfs_key root.id rel)
            (record { root = root.id; path = rel; before = before }) v)
    ])
  ]

  load_original-Loaded :
      (root : Root) (rel : String) (v : ChangeVfs)
      → Post (λ _ w. Loaded (vfs_key root.id rel) v w) (λ _ w. w ≡ v) (load_original cfg root rel v)
  unfolding load_original
  load_original-Loaded root rel v = elim (Option-cases (lookup (vfs_key root.id rel) v.originals)) [
    | inl absent ↦ rw (absent, load_original) (load_new-Loaded root rel v)
    | inr (o, found) ↦
        rw (found, load_original)
          (record { original = (o, found); staged = refl; others = λ k p was. (p, was) })
  ]

  staged_at :
      (root : Root) (rel : String) (new : Option Buffer) (v w : ChangeVfs)
      → Backed v
      → Loaded (vfs_key root.id rel) v w
      → Post
          (λ _ x. Backed x × (lookup (vfs_key root.id rel) x.staged ≡ some new))
          (λ _ x. Backed x × (x.staged ≡ v.staged))
          ((do
            abs ← lift (cfg.resolve_in_root root rel)
            throw_if (cfg.is_symlink abs) (bridge operation_not_allowed)
            modify (stage (vfs_key root.id rel) new))
            w)
  staged_at root rel new v w b l =
      let key = vfs_key root.id rel in
      Post-lift _ _ (cfg.resolve_in_root root rel) _ w (λ e. (Backed-Loaded key v w b l, l.staged))
        (λ abs _.
          Post-throw_if _ _ (cfg.is_symlink abs) _ _ w (Backed-Loaded key v w b l, l.staged)
            (λ _. (
              Backed-stage key new v w b l,
              unfold stage in rw lookup-insert (rw (str_eq_refl key) refl),
            )))

  -- A write stages the content, or throws with what is staged unchanged; in both cases every staged
  -- key still has an original.
  write_at-Backed :
      (root : Root) (rel : String) (new : Option Buffer) (v : ChangeVfs)
      → Backed v
      → Post
          (λ _ w. Backed w × (lookup (vfs_key root.id rel) w.staged ≡ some new))
          (λ _ w. Backed w × (w.staged ≡ v.staged))
          (write_at cfg root rel new v)
  unfolding write_at
  write_at-Backed root rel new v b =
      Post-bind (λ _ w. Loaded (vfs_key root.id rel) v w) _ _ (load_original cfg root rel v) _
        (Post-map _ _ _ _ (load_original cfg root rel v) (load_original-Loaded root rel v)
          (λ _ w l. l) (λ _ w same_state. rw same_state (b, refl)))
        (λ _ w l. staged_at root rel new v w b l)

  read_staged :
      (root_id rel_path rel : String) (root : Root) (new : Option Buffer) (w : ChangeVfs)
      → root_of cfg.roots root_id ≡ ok root
      → cfg.validate_rel_path rel_path ≡ ok rel
      → lookup (vfs_key root.id rel) w.staged ≡ some new
      → read cfg root_id rel_path w ≡ (ok new, w)
  unfolding read read_at
  read_staged root_id rel_path rel root new w known valid found =
      rw known (rw valid (rw (found, read_at) refl))

  -- Where every staged key has an original, a write leaves that so. If it returns, a read of the same
  -- path then gives what was written; if it throws, what is staged is unchanged.
  pub read-write :
      (root_id rel_path : String) (new : Option Buffer) (v : ChangeVfs)
      → Backed v
      → Post
          (λ _ w. Backed w × (read cfg root_id rel_path w ≡ (ok new, w)))
          (λ _ w. Backed w × (w.staged ≡ v.staged))
          (write cfg root_id rel_path new v)
  unfolding write
  read-write root_id rel_path new v b =
      Post-lift _ _ (root_of cfg.roots root_id) _ v (λ e. (b, refl))
        (λ root known.
          Post-throw_if _ _ (not root.writable) _ _ v (b, refl)
            (λ _.
              Post-lift _ _ (cfg.validate_rel_path rel_path) _ v (λ e. (b, refl))
                (λ rel valid.
                  Post-throw_if _ _ (too_large cfg.size cfg.max_file_bytes new) _ _ v (b, refl)
                    (λ _.
                      Post-map _ _ _ _ (write_at cfg root rel new v)
                        (write_at-Backed root rel new v b)
                        (λ _ w h.
                          (h.0, read_staged root_id rel_path rel root new w known valid h.1))
                        (λ _ w h. h)))))

  read_at-Backed :
      (root : Root) (rel : String) (v : ChangeVfs)
      → Backed v
      → Post (λ _ w. Backed w) (λ _ w. Backed w) (read_at cfg root rel v)
  unfolding read_at
  read_at-Backed root rel v b = elim (Option-cases (lookup (vfs_key root.id rel) v.staged)) [
    | inr (new, found) ↦ rw (found, read_at) b
    | inl absent ↦
        rw (absent, read_at)
          (Post-map _ _ _ _ (load_original cfg root rel v) (load_original-Loaded root rel v)
            (λ _ w l. Backed-Loaded (vfs_key root.id rel) v w b l)
            (λ _ w same_state. rw same_state b))
  ]

  -- A read, whether it returns or throws, leaves an original for every staged key.
  pub read-Backed :
      (root_id rel_path : String) (v : ChangeVfs)
      → Backed v
      → Post (λ _ w. Backed w) (λ _ w. Backed w) (read cfg root_id rel_path v)
  unfolding read
  read-Backed root_id rel_path v b =
      Post-lift _ _ (root_of cfg.roots root_id) _ v (λ e. b)
        (λ root _.
          Post-lift _ _ (cfg.validate_rel_path rel_path) _ v (λ e. b)
            (λ rel _. read_at-Backed root rel v b))
