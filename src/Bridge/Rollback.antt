-- ===== src/Bridge/Rollback.antt =====
-- Rolling a revision back: automation-bridge/src/core/engine.ts, `rollbackRevision`, which runs under
-- the site's lock, and `get` of automation-bridge/src/core/revisions.ts. Of the response, whether the
-- rollback was forced is kept. An id that no folder can have has no record.
pub mod Scan
pub mod Restored
pub mod Tests
use wordpress.Common.{
  Bool, List, Option, String, [], err, false, find?, gets, if◌then◌else◌, lift, lookup, none, not,
  ok, pure, some, throw_if, true, ℕ, ◌&&◌, ◌==◌, ◌>>=◌, ◌>>◌, ◌∷◌,
}
use wordpress.Bridge.Errors.{Try, bridge, conflict_revision, not_found, operation_not_allowed}
use wordpress.Bridge.Execute.{execute_changes}
use wordpress.Bridge.Files.{Buffer, Disk, FileChange, root_by_id, same_content}
use wordpress.Bridge.Revisions.{RevisionStatus, applied, find_revision, reverted, rollback}
use wordpress.Bridge.World.{Act, RevisionRecord, SnapshotItem, World, read_snapshot, set_status}
use wordpress.Bridge.Writes.{ExecuteInput, Site, at_rollback, read_or_null, require}
use Prim.Native.String

abbrev pub is_applied_status : RevisionStatus → Bool
is_applied_status applied = true
is_applied_status _ = false

-- `get`: the record with the status that the index gives.
unfoldable pub get_revision : World → String → Option (RevisionRecord × RevisionStatus)
unfolding find_revision
get_revision w id = elim (lookup id w.records) [
  | none ↦ none
  | some rec ↦ elim (find_revision w.events id) [ none ↦ none | some s ↦ some (rec, s.status) ]
]

-- The planned change of the file of an entry.
unfoldable pub planned_change : List FileChange → SnapshotItem → Option FileChange
planned_change changes i = find? (λ f. f.root == i.root && f.path == i.path) changes

-- The changes and the conflicts of the loop.
pub record Found : Type 0 where
  pub changes : List FileChange
  pub conflicts : List (String × String)

abbrev pub hash_eq : Option String → Option String → Bool
hash_eq none none = true
hash_eq (some a) (some b) = a == b
hash_eq _ _ = false

abbrev pub is_nonempty {ℓ} : {A : Type ℓ} → List A → Bool
is_nonempty [] = false
is_nonempty (x ∷ xs) = true

module _ (site : Site) where
  open site use {roots, resolve_in_root, sha256}

  abbrev pub hash_of : Option Buffer → Option String
  hash_of none = none
  hash_of (some b) = some (sha256 b)

  abbrev pub after_hash : Option FileChange → Option String
  after_hash none = none
  after_hash (some f) = hash_of f.after

  -- A round of the loop, with what the disk has at the entry's path.
  unfoldable pub add_found : List FileChange → SnapshotItem → Option Buffer → Found → Found
  unfolding planned_change same_content
  add_found recorded i disk found = record {
    changes =
        if same_content disk i.content
        then found.changes
        else record { root = i.root; path = i.path; before = disk; after = i.content }
          ∷ found.changes;
    conflicts =
        if hash_eq (hash_of disk) (after_hash (planned_change recorded i))
        then found.conflicts
        else (i.root, i.path) ∷ found.conflicts;
  }

  -- The root of an entry, and its absolute path.
  unfoldable pub locate : SnapshotItem → Try String
  unfolding root_by_id
  locate i = elim (root_by_id roots i.root) [
    | none ↦ err (bridge operation_not_allowed)
    | some root ↦ resolve_in_root root i.path
  ]

  unfoldable pub add_round :
      List FileChange → Disk → SnapshotItem → Try String → Try Found → Try Found
  unfolding add_found read_or_null
  add_round recorded disk i (err e) rest = err e
  add_round recorded disk i (ok abs) (err e) = err e
  add_round recorded disk i (ok abs) (ok found) =
      ok (add_found recorded i (read_or_null site at_rollback disk abs) found)

  unfoldable pub scan : List FileChange → Disk → List SnapshotItem → Try Found
  unfolding locate add_round
  scan recorded disk [] = ok (record { changes = []; conflicts = [] })
  scan recorded disk (i ∷ is) = add_round recorded disk i (locate i) (scan recorded disk is)

  -- What `executeChanges` is given, with the new revision's id and the time.
  unfoldable pub rollback_input :
      RevisionRecord → Found → String → String → String → ℕ → ExecuteInput
  rollback_input rec found id reason new_id time = record {
    kind = rollback;
    change_id = String.◌++◌ "rollback-" id;
    changes = found.changes;
    impacted_routes = rec.impacted_routes;
    reason = if reason == "" then none else some reason;
    reverts = some id;
    revision_id = new_id;
    now = time;
  }

  -- `executeChanges` on what the scan found, then the status of the old revision.
  unfoldable pub apply_found :
      String → String → Bool → String → ℕ → RevisionRecord → Found → Act Bool
  unfolding rollback_input execute_changes set_status
  apply_found id reason force new_id time rec found = do
    throw_if (is_nonempty found.conflicts && not force) (bridge conflict_revision)
    execute_changes site (rollback_input rec found id reason new_id time)
    set_status id reverted none
    pure (is_nonempty found.conflicts)

  -- `rollbackRevision`; the result says whether it was forced.
  unfoldable pub rollback_revision : String → String → Bool → String → ℕ → Act Bool
  unfolding get_revision scan read_snapshot apply_found
  rollback_revision id reason force new_id time = do
    known ← gets (λ w. get_revision w id)
    (rec, state) ← require known (bridge not_found)
    throw_if (not (is_applied_status state)) (bridge conflict_revision)
    snap ← gets (read_snapshot id)
    items ← require snap (bridge operation_not_allowed)
    disk ← gets (λ w. w.disk)
    found ← lift (scan rec.file_changes disk items)
    apply_found id reason force new_id time rec found
