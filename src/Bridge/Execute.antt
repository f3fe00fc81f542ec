-- ===== src/Bridge/Execute.antt =====
-- Applying file changes: automation-bridge/src/core/engine.ts, `executeChanges` around its `try`,
-- `restoreSnapshot` and `recoverInterrupted`.
pub mod Restore
pub mod Targets
pub mod Body
pub mod Prepare
pub mod Undo
pub mod Atomic
pub mod Recovery
pub mod Tests
use wordpress.Common.{
  List, Option, String, [], catch, gets, if◌then◌else◌, lift, map, modify, none, pure, raise, some,
  take, ℕ, ◌>>=◌, ◌>>◌, ◌∷◌,
}
use wordpress.Bridge.Errors.{bridge, foreign, verify_failed}
use wordpress.Bridge.Files.{Buffer, root_by_id}
use wordpress.Bridge.Revisions.{RevisionSummary, current, list, rolled_back}
use wordpress.Bridge.World.{
  Act, SnapshotItem, atomic_write, clear_marker, durable_delete, read_snapshot, run_revalidator,
  set_marker, set_status, write_record, write_snapshot,
}
use wordpress.Bridge.Writes.{
  ExecuteInput, ExecuteResult, Site, Target, live_routes, require, resolve_targets, snapshot_item,
  try_body,
}
use Prim.Native.String

module _ (site : Site) where
  open site use {roots, resolve_in_root, revalidator_enabled, has_internal_url}

  unfoldable pub put_content : String → Option ℕ → Option Buffer → Act (Unit {0})
  unfolding atomic_write durable_delete
  put_content abs mode none = durable_delete abs
  put_content abs mode (some buffer) = atomic_write abs buffer mode (pure tt)

  -- `if (entry.absent || content === null) … else …`
  unfoldable pub restore_file : SnapshotItem → String → Act (Unit {0})
  unfolding put_content
  restore_file i abs = put_content abs i.mode (if i.absent then none else i.content)

  -- One round of the loop of `restoreSnapshot`; an entry whose root is gone is skipped.
  unfoldable pub restore_item : SnapshotItem → Act (Unit {0})
  unfolding root_by_id restore_file
  restore_item i = elim (root_by_id roots i.root) [
    | none ↦ pure tt
    | some root ↦ (do abs ← lift (resolve_in_root root i.path); restore_file i abs)
  ]

  unfoldable pub restore_items : List SnapshotItem → Act (Unit {0})
  restore_items [] = pure tt
  restore_items (i ∷ is) = do restore_item i; restore_items is

  unfoldable pub restore_snapshot : String → Act (Unit {0})
  unfolding restore_items read_snapshot
  restore_snapshot id = do
    snap ← gets (read_snapshot id)
    items ← require snap foreign
    restore_items items

  -- `if (enabled && revalidated.length) await run(revalidated).catch(() => {})`
  unfoldable pub revalidate_again : List String → Act (Unit {0})
  unfolding run_revalidator
  revalidate_again [] = pure tt
  revalidate_again (r ∷ rs) =
      if revalidator_enabled then catch (run_revalidator (r ∷ rs)) (λ _. pure tt) else pure tt

  -- The handler of the `catch`, after the restore.
  unfoldable pub after_restore : String → Act (Unit {0})
  unfolding set_status clear_marker revalidate_again
  after_restore id = do
    step ← gets (λ w. w.locals.step)
    set_status id rolled_back (some (String.◌++◌ "failed at " step))
    clear_marker id
    revalidated ← gets (λ w. w.locals.revalidated)
    revalidate_again revalidated
    raise (bridge verify_failed)

  -- The handler of the `catch`.
  unfoldable pub undo : String → Act (Unit {0})
  unfolding restore_snapshot after_restore
  undo id = do restore_snapshot id; after_restore id

  -- The routes to check after the apply.
  unfoldable pub live_before : ExecuteInput → Act (List String)
  unfolding live_routes
  live_before input =
      if has_internal_url then live_routes site (take 20 input.impacted_routes) else pure []

  -- The snapshot, the record and the marker; then the local variables of the `try`.
  unfoldable pub record_start : ExecuteInput → Option String → List Target → Act (Unit {0})
  unfolding write_snapshot write_record set_marker
  record_start input parent targets = do
    write_snapshot input.revision_id (map snapshot_item targets)
    write_record (record {
      revision_id = input.revision_id;
      change_id = input.change_id;
      kind = input.kind;
      reverts = input.reverts;
      parent_revision = parent;
      file_changes = input.changes;
      impacted_routes = input.impacted_routes;
      created_at = input.now;
      reason = input.reason;
    })
    set_marker input.revision_id
    modify (λ w. record w { locals = record { step = "write"; revalidated = []; routes = [] } })

  -- What precedes the `try`: nothing of the site is touched.
  unfoldable pub prepare : ExecuteInput → Act (List Target × List String)
  unfolding resolve_targets live_before record_start
  prepare input = do
    parent ← gets (λ w. current w.events)
    targets ← resolve_targets site input.changes
    routes ← live_before input
    record_start input parent targets
    pure (targets, routes)

  -- `executeChanges`; the caller holds the site lock.
  unfoldable pub execute_changes : ExecuteInput → Act ExecuteResult
  unfolding prepare try_body undo
  execute_changes input = do
    (targets, routes) ← prepare input
    catch (try_body site targets input.impacted_routes routes) (λ _. undo input.revision_id)
    clear_marker input.revision_id
    gets λ w. record {
      revision_id = input.revision_id;
      revalidated = w.locals.revalidated;
      routes = w.locals.routes;
    }

  unfoldable pub recover_marked : String → Act (Unit {0})
  unfolding restore_snapshot set_status clear_marker
  recover_marked id = do
    restore_snapshot id
    set_status id rolled_back (some "interrupted; restored on startup")
    clear_marker id

  -- One round of the loop of `recoverInterrupted`; a failure is logged and the marker stays.
  unfoldable pub recover_revision : String → Act (Unit {0})
  unfolding recover_marked
  recover_revision id = do
    marked ← gets (λ w. w.in_progress id)
    if marked then catch (recover_marked id) (λ _. pure tt) else pure tt

  unfoldable pub recover_revisions : List RevisionSummary → Act (Unit {0})
  unfolding recover_revision
  recover_revisions [] = pure tt
  recover_revisions (r ∷ rs) = do recover_revision r.revision_id; recover_revisions rs

  unfoldable pub recover_interrupted : Act (Unit {0})
  unfolding recover_revisions list
  recover_interrupted = do revisions ← gets (λ w. list w.events); recover_revisions revisions
