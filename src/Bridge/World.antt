-- ===== src/Bridge/World.antt =====
-- The state that a change set acts on: the site's disk, the revision store under the bridge's state
-- directory (automation-bridge/src/core/revisions.ts: `writeSnapshot`, `readSnapshot`, `writeRecord`,
-- `setStatus`), and what the environment does: the faults of the calls that change something, in
-- order, and the answers of the site. The disk has regular files only: that a directory cannot be
-- made, or stands where a file is to be written or deleted, is a fault before the effect. Reads of the
-- state directory do not fail; for those of the site see Bridge/Writes.
use wordpress.Common.{
  Bool, Exec, List, Map, Option, Result, String, [], err, false, if◌then◌else◌, insert, length,
  lookup, none, ok, some, true, ℕ, ◌++◌, ◌==◌, ◌>>◌, ◌∷◌,
}
use wordpress.Bridge.Errors.{Thrown, foreign}
use wordpress.Bridge.Files.{
  Buffer, Disk, Fault, FileChange, after_effect, before_effect, later_faults, new_mode, next_fault,
  passes, put_file,
}
use wordpress.Bridge.Revisions.{IndexEvent, RevisionKind, RevisionStatus, created, status}

-- An entry of a snapshot with its content; `content` is `none` exactly when the blob is `null`.
pub record SnapshotItem : Type 0 where
  pub root : String
  pub path : String
  pub absent : Bool
  pub mode : Option ℕ
  pub content : Option Buffer

pub record RevisionRecord : Type 0 where
  pub revision_id : String
  pub change_id : String
  pub kind : RevisionKind
  pub reverts : Option String
  pub parent_revision : Option String
  pub file_changes : List FileChange
  pub impacted_routes : List String
  pub created_at : ℕ
  pub reason : Option String

-- The local variables of `executeChanges` that its `catch` reads.
pub record Locals : Type 0 where
  pub step : String
  pub revalidated : List String
  pub routes : List (String × ℕ)

pub record World : Type 0 where
  pub disk : Disk
  pub snapshots : Map (List SnapshotItem)
  pub records : Map RevisionRecord
  pub events : List IndexEvent
  pub in_progress : String → Bool
  pub locals : Locals
  pub faults : List Fault
  pub answers : List (Option ℕ)

abbrev pub Act : Type 0 → Type 0
Act A = Exec Thrown World A

abbrev pub faulty : Fault → (World → World) → World → Result Thrown (Unit {0}) × World
faulty passes f w = (ok tt, f w)
faulty before_effect f w = (err foreign, w)
faulty after_effect f w = (err foreign, f w)

-- A call that may throw before its effect or after it.
abbrev pub call : (World → World) → Act (Unit {0})
call f w = faulty (next_fault w.faults) f (record w { faults = later_faults w.faults })

-- `atomicWrite`: `hook` is `beforeRename`. Where mkdir, the temporary file or the rename fails, as onto
-- a directory, nothing has changed; the rename takes effect before the directory's fsync.
unfoldable pub atomic_write : String → Buffer → Option ℕ → Act (Unit {0}) → Act (Unit {0})
unfolding new_mode
atomic_write p content mode hook w =
    (do
      hook
      call λ v. record v {
        disk =
            put_file v.disk p (some (record { content = content; mode = new_mode w.disk p mode }));
      })
      w

-- `durableDelete`: a file that is not there is no error, but a directory there is.
unfoldable pub durable_delete : String → Act (Unit {0})
durable_delete p w = elim (w.disk p) [
  | none ↦ call (λ v. v) w
  | some f ↦ call (λ v. record v { disk = put_file v.disk p none }) w
]

-- `writeSnapshot`: the manifest is written last, and there is no snapshot without it.
unfoldable pub write_snapshot : String → List SnapshotItem → Act (Unit {0})
write_snapshot id items = call λ v. record v { snapshots = insert id items v.snapshots }

unfoldable pub read_snapshot : String → World → Option (List SnapshotItem)
read_snapshot id w = lookup id w.snapshots

-- `writeRecord`: the record, then its `created` event.
unfoldable pub write_record : RevisionRecord → Act (Unit {0})
write_record r = do
  call λ v. record v { records = insert r.revision_id r v.records }
  call λ v. record v {
    events =
        v.events
        ++ created (record {
          revision_id = r.revision_id;
          change_id = r.change_id;
          parent_revision = r.parent_revision;
          files = length r.file_changes;
          created_at = r.created_at;
        })
          ∷ [];
  }

unfoldable pub set_status : String → RevisionStatus → Option String → Act (Unit {0})
set_status id s e = call λ v. record v { events = v.events ++ status id s e ∷ [] }

-- `fsp.writeFile(marker, "")` and `fsp.rm(marker, { force: true })`; the second has no effect when
-- it throws.
unfoldable pub set_marker : String → Act (Unit {0})
set_marker id = call λ v. record v { in_progress = λ j. if id == j then true else v.in_progress j }

unfoldable pub clear_marker : String → Act (Unit {0})
clear_marker id w = elim (next_fault w.faults) [
  | before_effect ↦ (err foreign, record w { faults = later_faults w.faults })
  | _ ↦ (
    ok tt,
    record w {
      in_progress = λ j. if id == j then false else w.in_progress j;
      faults = later_faults w.faults;
    },
  )
]

abbrev pub next_answer : List (Option ℕ) → Option ℕ
next_answer [] = none
next_answer (a ∷ as') = a

abbrev pub later_answers : List (Option ℕ) → List (Option ℕ)
later_answers [] = []
later_answers (a ∷ as') = as'

-- `ctx.siteStatus`: the next answer of the site; it never throws.
unfoldable pub site_status : String → Act (Option ℕ)
site_status route w = (ok (next_answer w.answers), record w { answers = later_answers w.answers })

-- `ctx.revalidator.run`: it changes nothing here, and may throw.
unfoldable pub run_revalidator : List String → Act (Unit {0})
run_revalidator routes = call λ v. v
