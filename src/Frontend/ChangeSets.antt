-- ===== src/Frontend/ChangeSets.antt =====
-- The actions that the interface offers on a change set: frontend/src/lib/changesets.js. A change set
-- that is not loaded is `none`.
pub mod Actions
pub mod Tests
use wordpress.Common.{Bool, Option, String, false, none, not, some, true, ◌&&◌, ◌==◌, ◌||◌}

pub data ChangeSetStatus : Type 0 where
  draft planned plan_failed validating validated validation_failed : ChangeSetStatus
  pending_approval approved rejected applying applied apply_failed : ChangeSetStatus
  rolled_back cancelled : ChangeSetStatus

-- `STATUS_LABELS`
unfoldable pub status_label : ChangeSetStatus → String
status_label draft = "Draft"
status_label planned = "Planned"
status_label plan_failed = "Plan failed"
status_label validating = "Validating"
status_label validated = "Validated"
status_label validation_failed = "Validation failed"
status_label pending_approval = "Pending approval"
status_label approved = "Approved"
status_label rejected = "Rejected"
status_label applying = "Applying"
status_label applied = "Applied"
status_label apply_failed = "Apply failed"
status_label rolled_back = "Rolled back"
status_label cancelled = "Cancelled"

pub record ChangeSet : Type 0 where
  pub status : ChangeSetStatus
  -- `plan?.valid` and `apply?.revision_id`
  pub plan_valid : Option Bool
  pub revision_id : Option String

-- `EDITABLE.includes(status)`, `PRE_APPLY.includes(status)`
unfoldable pub editable : ChangeSetStatus → Bool
editable draft = true
editable planned = true
editable plan_failed = true
editable validation_failed = true
editable rejected = true
editable _ = false

unfoldable pub pre_apply : ChangeSetStatus → Bool
pre_apply draft = true
pre_apply planned = true
pre_apply plan_failed = true
pre_apply validating = true
pre_apply validated = true
pre_apply validation_failed = true
pre_apply pending_approval = true
pre_apply approved = true
pre_apply rejected = true
pre_apply _ = false

-- `["validated", "approved", "apply_failed"].includes(status)`, and the other lists.
unfoldable pub replans : ChangeSetStatus → Bool
replans validated = true
replans approved = true
replans apply_failed = true
replans _ = false

unfoldable pub submits : ChangeSetStatus → Bool
submits planned = true
submits validated = true
submits _ = false

unfoldable pub validates : ChangeSetStatus → Bool
validates planned = true
validates validated = true
validates validation_failed = true
validates pending_approval = true
validates _ = false

unfoldable pub is_pending : ChangeSetStatus → Bool
is_pending pending_approval = true
is_pending _ = false

unfoldable pub is_approved : ChangeSetStatus → Bool
is_approved approved = true
is_approved _ = false

unfoldable pub is_applied : ChangeSetStatus → Bool
is_applied applied = true
is_applied _ = false

unfoldable pub is_rejected : ChangeSetStatus → Bool
is_rejected rejected = true
is_rejected _ = false

-- `valid !== false`
unfoldable pub not_invalid : Option Bool → Bool
not_invalid none = true
not_invalid (some b) = b

-- `!!revision_id`
unfoldable pub is_given : Option String → Bool
is_given none = false
is_given (some s) = not (s == "")

-- `p(cs?.status)`: a missing status is in no list.
unfoldable pub of_status : (ChangeSetStatus → Bool) → Option ChangeSet → Bool
of_status p none = false
of_status p (some cs) = p cs.status

unfoldable pub plan_ok : Option ChangeSet → Bool
unfolding not_invalid
plan_ok none = true
plan_ok (some cs) = not_invalid cs.plan_valid

unfoldable pub has_revision : Option ChangeSet → Bool
unfolding is_given
has_revision none = false
has_revision (some cs) = is_given cs.revision_id

unfoldable pub is_editable : Option ChangeSet → Bool
unfolding of_status editable
is_editable cs = of_status editable cs

unfoldable pub can_replan : Option ChangeSet → Bool
unfolding is_editable replans
can_replan cs = is_editable cs || of_status replans cs

unfoldable pub can_submit : Option ChangeSet → Bool
unfolding of_status submits plan_ok
can_submit cs = of_status submits cs && plan_ok cs

unfoldable pub can_decide : Option ChangeSet → Bool
unfolding of_status is_pending
can_decide cs = of_status is_pending cs

unfoldable pub can_apply : Option ChangeSet → Bool
unfolding of_status is_approved
can_apply cs = of_status is_approved cs

unfoldable pub can_rollback : Option ChangeSet → Bool
unfolding of_status is_applied has_revision
can_rollback cs = of_status is_applied cs && has_revision cs

unfoldable pub can_cancel : Option ChangeSet → Bool
unfolding of_status pre_apply is_rejected
can_cancel cs = of_status pre_apply cs && not (of_status is_rejected cs)

unfoldable pub can_validate : Option ChangeSet → Bool
unfolding of_status validates plan_ok
can_validate cs = of_status validates cs && plan_ok cs
