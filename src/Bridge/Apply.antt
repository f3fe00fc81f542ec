-- ===== src/Bridge/Apply.antt =====
-- Applying an approved change set: automation-bridge/src/core/engine.ts, `applyChangeSet`, which runs
-- under the site's lock. The outcome of `planChangeSet` is an argument; the response is left out.
pub mod Approved
pub mod Tests
use wordpress.Common.{
  Bool, List, Option, String, false, none, not, some, throw_if, ℕ, ◌&&◌, ◌==◌, ◌>>=◌, ◌>>◌,
}
use wordpress.Bridge.Errors.{ErrorCode, bridge, conflict_revision}
use wordpress.Bridge.Execute.{execute_changes}
use wordpress.Bridge.Files.{Buffer, FileChange}
use wordpress.Bridge.Revisions.{changeset}
use wordpress.Bridge.World.{Act}
use wordpress.Bridge.Writes.{ExecuteInput, ExecuteResult, Site}

pub record ApplyRequest : Type 0 where
  pub change_id : String
  pub base_revision : Option String
  pub expected_plan_sha256 : String

-- `PlanOutcome`, with the code of the first error.
pub record PlanOutcome : Type 0 where
  pub valid : Bool
  pub first_error : ErrorCode
  pub diff : Buffer
  pub impacted_routes : List String
  pub current_revision : Option String
  pub changes : List FileChange

-- `req.base_revision && p.current_revision !== req.base_revision`
unfoldable pub base_moved : Option String → Option String → Bool
base_moved none cur = false
base_moved (some base) none = not (base == "")
base_moved (some base) (some cur) = not (base == "") && not (cur == base)

-- What `executeChanges` is given, with the new revision's id and the time.
unfoldable pub apply_input : ApplyRequest → PlanOutcome → String → ℕ → ExecuteInput
apply_input req plan id time = record {
  kind = changeset;
  change_id = req.change_id;
  changes = plan.changes;
  impacted_routes = plan.impacted_routes;
  reason = none;
  reverts = none;
  revision_id = id;
  now = time;
}

unfoldable pub apply_change_set : Site → ApplyRequest → PlanOutcome → String → ℕ → Act ExecuteResult
unfolding base_moved apply_input
apply_change_set site req plan id time = do
  throw_if (base_moved req.base_revision plan.current_revision) (bridge conflict_revision)
  throw_if (not plan.valid) (bridge plan.first_error)
  throw_if (not (site.sha256 plan.diff == req.expected_plan_sha256)) (bridge conflict_revision)
  execute_changes site (apply_input req plan id time)
