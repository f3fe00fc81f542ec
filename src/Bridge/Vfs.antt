-- ===== src/Bridge/Vfs.antt =====
-- The virtual file system of planning: automation-bridge/src/core/vfs.ts, `ChangeVfs`.
pub mod Laws
pub mod Changes
pub mod Tests
use wordpress.Common.{
  Bool, Exec, List, Map, Option, String, [], err, false, if◌then◌else◌, insert, lift, lookup, ltb,
  modify, none, not, ok, pure, some, throw_if, ℕ, ◌>>=◌, ◌>>◌, ◌∷◌,
}
use wordpress.Bridge.Errors.{
  Thrown, Try, bridge, foreign, not_found, operation_not_allowed, validation_failed,
}
use wordpress.Bridge.Files.{Buffer, FileChange, Root, root_by_id, same_content}
use Prim.Native.String

pub record Original : Type 0 where
  pub root : String
  pub path : String
  pub before : Option Buffer

pub record ChangeVfs : Type 0 where
  pub originals : Map Original
  pub staged : Map (Option Buffer)

-- What the virtual file system is given: the roots, the checks of paths.ts, what the disk holds at an
-- absolute path (an exception for a directory), the length of a buffer, and the largest one allowed.
pub record VfsConfig : Type 0 where
  pub roots : List Root
  pub validate_rel_path : String → Try String
  pub resolve_in_root : Root → String → Try String
  pub is_symlink : String → Bool
  pub disk_content : String → Try (Option Buffer)
  pub size : Buffer → ℕ
  pub max_file_bytes : ℕ

abbrev pub Planning : Type 0 → Type 0
Planning A = Exec Thrown ChangeVfs A

unfoldable pub vfs_key : String → String → String
vfs_key root rel = String.◌++◌ root (String.◌++◌ "\0" rel)

-- `content && content.length > this.maxFileBytes`
unfoldable pub too_large : (Buffer → ℕ) → ℕ → Option Buffer → Bool
too_large size max none = false
too_large size max (some b) = ltb max (size b)

-- `this.originals.set(k, …)`, `this.staged.set(k, content)`
unfoldable pub keep_original : String → Original → ChangeVfs → ChangeVfs
keep_original k o v = record v { originals = insert k o v.originals }

unfoldable pub stage : String → Option Buffer → ChangeVfs → ChangeVfs
stage k new v = record v { staged = insert k new v.staged }

-- The root that has the id, or an exception.
unfoldable pub root_of : List Root → String → Try Root
unfolding root_by_id
root_of roots id = elim (root_by_id roots id) [
  | none ↦ err (bridge not_found)
  | some root ↦ ok root
]

-- `changes`: the staged files that differ from what was there; a staged key with no original would
-- throw.
unfoldable pub changes_from : Map Original → Map (Option Buffer) → Try (List FileChange)
unfolding same_content
changes_from originals [] = ok []
changes_from originals ((k, after) ∷ staged) =
    let rest = changes_from originals staged in
    elim (lookup k originals) [
      | none ↦ err foreign
      | some o ↦ if same_content o.before after then rest else elim rest [
        | err e ↦ err e
        | ok cs ↦
            ok (record { root = o.root; path = o.path; before = o.before; after = after } ∷ cs)
      ]
    ]

unfoldable pub changes : ChangeVfs → Try (List FileChange)
unfolding changes_from
changes v = changes_from v.originals v.staged

module _ (cfg : VfsConfig) where
  open cfg use {
    roots, validate_rel_path, resolve_in_root, is_symlink, disk_content, size, max_file_bytes,
  }

  -- A path that was not read before.
  unfoldable pub load_new : Root → String → Planning (Option Buffer)
  unfolding vfs_key keep_original
  load_new root rel = do
    abs ← lift (resolve_in_root root rel)
    before ← lift (disk_content abs)
    modify (
        keep_original (vfs_key root.id rel)
          (record { root = root.id; path = rel; before = before }))
    pure before

  unfoldable pub load_original : Root → String → Planning (Option Buffer)
  unfolding load_new
  load_original root rel v = elim (lookup (vfs_key root.id rel) v.originals) [
    | some o ↦ (ok o.before, v)
    | none ↦ load_new root rel v
  ]

  -- What is staged under the key, or the original.
  unfoldable pub read_at : Root → String → Planning (Option Buffer)
  unfolding load_original
  read_at root rel v = elim (lookup (vfs_key root.id rel) v.staged) [
    | some new ↦ (ok new, v)
    | none ↦ load_original root rel v
  ]

  unfoldable pub read : String → String → Planning (Option Buffer)
  unfolding root_of read_at
  read root_id rel_path = do
    root ← lift (root_of roots root_id)
    rel ← lift (validate_rel_path rel_path)
    read_at root rel

  unfoldable pub write_at : Root → String → Option Buffer → Planning (Unit {0})
  unfolding load_original stage
  write_at root rel new = do
    load_original root rel
    abs ← lift (resolve_in_root root rel)
    throw_if (is_symlink abs) (bridge operation_not_allowed)
    modify (stage (vfs_key root.id rel) new)

  unfoldable pub write : String → String → Option Buffer → Planning (Unit {0})
  unfolding root_of write_at too_large
  write root_id rel_path new = do
    root ← lift (root_of roots root_id)
    throw_if (not root.writable) (bridge operation_not_allowed)
    rel ← lift (validate_rel_path rel_path)
    throw_if (too_large size max_file_bytes new) (bridge validation_failed)
    write_at root rel new
