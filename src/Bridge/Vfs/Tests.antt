-- ===== src/Bridge/Vfs/Tests.antt =====
-- Runs of the virtual file system.
use wordpress.Common.{
  List, Post, [], err, if◌then◌else◌, insert, lookup, none, ok, refl, some, true, ◌==◌, ◌∷◌, ◌≡◌,
}
use wordpress.Bridge.Vfs.{
  ChangeVfs, VfsConfig, changes, keep_original, load_new, load_original, read, root_of, stage,
  too_large, vfs_key, write, write_at,
}
use wordpress.Bridge.Errors.{bridge, path_invalid}
use wordpress.Bridge.Files.{FileChange, Root, code, root_by_id}
use wordpress.Bridge.Vfs.Changes.{Net, changes-Net}
use wordpress.Bridge.Vfs.Laws.{Backed, read-write}

abbrev code_root : Root
code_root = record { id = "code"; kind = code; writable = true }

abbrev pub demo_vfs : VfsConfig
demo_vfs = record {
  roots = code_root ∷ [];
  validate_rel_path = λ p. if p == "" then err (bridge path_invalid) else ok p;
  resolve_in_root = λ root p. ok p;
  is_symlink = λ p. p == "link";
  disk_content = λ p. ok (if p == "a" then some "one" else none);
  size = λ b. 3;
  max_file_bytes = 10;
}

abbrev no_files : ChangeVfs
no_files = record { originals = []; staged = [] }

abbrev edited : ChangeVfs
edited = record {
  originals =
      ("code\0a", record { root = "code"; path = "a"; before = some "one" })
      ∷ ("code\0b", record { root = "code"; path = "b"; before = none })
      ∷ [];
  staged = ("code\0a", some "two") ∷ ("code\0b", none) ∷ [];
}

edited_by_writes :
    (write demo_vfs "code" "b" none (write demo_vfs "code" "a" (some "two") no_files).1)
    ≡ (ok tt, edited)
unfolding write root_of root_by_id too_large write_at load_original load_new keep_original stage
    vfs_key lookup insert
edited_by_writes = refl

no_files-Backed : Backed no_files
unfolding lookup
no_files-Backed = record { original = λ k new found. cc }

read-write_example :
    Post
      (λ _ w. Backed w × (read demo_vfs "code" "a" w ≡ (ok (some "two"), w)))
      (λ _ w. Backed w × (w.staged ≡ []))
      (write demo_vfs "code" "a" (some "two") no_files)
read-write_example = read-write demo_vfs "code" "a" (some "two") no_files no_files-Backed

edited-Backed : Backed edited
unfolding write root_of root_by_id too_large write_at load_original load_new keep_original stage
    vfs_key lookup insert
edited-Backed =
    let first = write demo_vfs "code" "a" (some "two") no_files in
    (read-write demo_vfs "code" "b" none first.1
      (read-write demo_vfs "code" "a" (some "two") no_files no_files-Backed).0).0

changes-Net_example :
    (cs : List FileChange) × (changes edited ≡ ok cs) × Net edited.originals edited.staged cs
changes-Net_example = changes-Net edited edited-Backed
