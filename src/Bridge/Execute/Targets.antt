-- ===== src/Bridge/Execute/Targets.antt =====
-- Resolving the targets of an apply reads the disk and changes nothing; each target that it returns
-- has the file that the change set expects, as a snapshot entry saves it.
use wordpress.Common.{
  All, Bool, Bool-cases, List, Option, Option-cases, Post, Post-bind, Result, String, [], arith,
  continue, eq_iff, err, false, inl, inr, lift, map, none, not, ok, refl, some, throw_if, true,
  ◌>>=◌, ◌>>◌, ◌∷◌, ◌≡◌,
}
use wordpress.Bridge.Errors.{Thrown, Try, bridge, operation_not_allowed}
use wordpress.Bridge.Execute.Restore.{SavedFile, Saves}
use wordpress.Bridge.Files.{
  Buffer, Disk, File, FileChange, Root, current_mode, read_file, root_by_id, same_content,
}
use wordpress.Bridge.World.{World}
use wordpress.Bridge.Writes.{
  Look, Site, Target, at_check, at_mode, check_target, mode_or_null, read_or_null, resolve_target,
  resolve_targets, snapshot_item,
}
use mathlib.Core.Path.{subst}

-- No look at a file fails.
unfoldable pub Readable : Site → Type 0
Readable site = (k : Look) (p : String) → site.look_fails k p ≡ false

module _ (site : Site) where
  pub read_or_null-Readable :
      Readable site → (k : Look) (d : Disk) (p : String) → read_or_null site k d p ≡ read_file d p
  unfolding Readable read_or_null
  read_or_null-Readable r k d p = rw (r k p) refl

  mode_or_null-Readable :
      Readable site → (d : Disk) (p : String) → mode_or_null site d p ≡ current_mode d p
  unfolding Readable mode_or_null
  mode_or_null-Readable r d p = rw (r at_mode p) refl

  -- A target's snapshot entry saves the file at the target's path.
  abbrev pub IsTarget : Disk → Target → Type 0
  IsTarget was t = (s : Saves site was (snapshot_item t)) × (s.abs ≡ t.abs)

  saved_of_same :
      (c : FileChange) (abs : String) (was : Disk) (o : Option File) (b : Option Buffer)
      → was abs ≡ o
      → c.before ≡ b
      → same_content (read_file was abs) c.before ≡ true
      → SavedFile site
          (snapshot_item (record { change = c; abs = abs; mode = current_mode was abs }))
          (was abs)
  unfolding snapshot_item current_mode same_content
  saved_of_same c abs was none none e f h = rw (e, f) refl
  saved_of_same c abs was none (some b) e f h = ground (arith, e, f)
  saved_of_same c abs was (some file) none e f h = ground (arith, e, f)
  saved_of_same c abs was (some file) (some b) e f h =
      rw (e, f) (refl, ground (arith, e, f, eq_iff file.content b), ground (arith, e))

  abbrev pub Unmoved : Disk → World → Type 0
  Unmoved d v = v.disk ≡ d

  abbrev TargetPost : Disk → FileChange → Result Thrown Target × World → Type 0
  TargetPost d c = Post (λ t v. IsTarget d t × (t.change ≡ c) × Unmoved d v) (λ _ v. Unmoved d v)

  check_target-IsTarget :
      Readable site
      → (c : FileChange) (root : Root) (abs : String) (w : World)
      → root_by_id site.roots c.root ≡ some root
      → site.resolve_in_root root c.path ≡ ok abs
      → TargetPost w.disk c (check_target site c abs w)
  unfolding check_target snapshot_item
  check_target-IsTarget r c root abs w known resolved = elim (Bool-cases (site.is_symlink abs)) [
    | inl link ↦ rw (link, check_target) refl
    | inr plain ↦
        rw
          (
            plain,
            check_target,
            read_or_null-Readable r at_check w.disk abs,
            mode_or_null-Readable r w.disk abs,
          )
          (elim (Bool-cases (same_content (read_file w.disk abs) c.before)) [
            | inr differs ↦ rw differs refl
            | inl same ↦ rw same (
              (
                record {
                  root = root;
                  abs = abs;
                  known = known;
                  resolved = resolved;
                  file = saved_of_same c abs w.disk (w.disk abs) c.before refl refl same;
                },
                refl,
              ),
              refl,
              refl,
            )
          ])
  ]

  resolve_target-IsTarget :
      Readable site → (c : FileChange) (w : World) → TargetPost w.disk c (resolve_target site c w)
  unfolding resolve_target
  resolve_target-IsTarget readable c w = elim (Option-cases (root_by_id site.roots c.root)) [
    | inl e ↦ rw (e, resolve_target) refl
    | inr (root, e) ↦ rw (e, resolve_target) (permitted root e root.writable)
  ]
    where
      found :
          (root : Root)
          → root_by_id site.roots c.root ≡ some root
          → (r : Try String) → site.resolve_in_root root c.path ≡ r
          → TargetPost w.disk c (continue (check_target site c) (r, w))
      found root e (ok abs) f = check_target-IsTarget readable c root abs w e f
      found root e (err x) f = refl

      permitted :
          (root : Root)
          → root_by_id site.roots c.root ≡ some root
          → (b : Bool)
          → TargetPost w.disk c (
              (throw_if (not b) (bridge operation_not_allowed)
                  >> (lift (site.resolve_in_root root c.path) >>= check_target site c))
                w)
      permitted root e true = found root e (site.resolve_in_root root c.path) refl
      permitted root e false = refl

  abbrev pub TargetsPost : Disk → List FileChange → Result Thrown (List Target) × World → Type 0
  TargetsPost d cs =
      Post (λ ts v. All (IsTarget d) ts × (map (λ t. t.change) ts ≡ cs) × Unmoved d v)
        (λ _ v. Unmoved d v)

  -- The targets are those of the changes, in order, and nothing has been written.
  pub resolve_targets-IsTarget :
      Readable site
      → (cs : List FileChange) (w : World) → TargetsPost w.disk cs (resolve_targets site cs w)
  unfolding resolve_targets
  resolve_targets-IsTarget r [] w = (tt, refl, refl)
  resolve_targets-IsTarget r (c ∷ cs) w =
      Post-bind _ _ _ (resolve_target site c w) _ (resolve_target-IsTarget r c w) (λ t v h.
        Post-bind _ _ _ (resolve_targets site cs v) _
          (subst (λ d. TargetsPost d cs (resolve_targets site cs v)) h.2
            (resolve_targets-IsTarget r cs v))
          (λ ts u k. ((h.0, k.0), cc (h.1, k.1), k.2)))
