-- ===== src/Frontend/ChangeSets/Actions.antt =====
-- Which actions exclude each other, and which change sets have none.
use wordpress.Common.{
  Bool, List, Option, String, [], any, arith, false, none, not, refl, some, true, ◌&&◌, ◌||◌, ◌∷◌,
  ◌≡◌,
}
use wordpress.Frontend.ChangeSets.{
  planned, ChangeSet, ChangeSetStatus, applied, apply_failed, applying, approved, can_apply,
  can_cancel, can_decide, can_replan, can_rollback, can_submit, can_validate, cancelled, draft,
  editable, has_revision, is_applied, is_approved, is_editable, is_given, is_pending, is_rejected,
  of_status, pending_approval, plan_failed, plan_ok, pre_apply, rejected, replans, rolled_back,
  submits, validated, validates, validating, validation_failed,
}

abbrev pub offered : Option ChangeSet → List Bool
offered cs =
    can_replan cs
    ∷ can_submit cs
    ∷ can_decide cs
    ∷ can_apply cs
    ∷ can_rollback cs
    ∷ can_cancel cs
    ∷ can_validate cs
    ∷ []

-- The end of a change set's life, or a run in progress that cannot be stopped.
abbrev pub is_settled : ChangeSetStatus → Bool
is_settled applying = true
is_settled rolled_back = true
is_settled cancelled = true
is_settled _ = false

-- The same for a status, with what is known of the plan and of the revision.
offered_by_status :
    (s : ChangeSetStatus) (v : Option Bool) (r : Option String)
    → any (λ b. b) (offered (some (record { status = s; plan_valid = v; revision_id = r })))
      ≡ not (is_settled s || is_applied s && not (is_given r))
unfolding can_replan can_submit can_decide can_apply can_rollback can_cancel can_validate
    is_editable of_status editable replans submits is_pending is_approved is_applied has_revision
    pre_apply is_rejected validates plan_ok
offered_by_status draft v r = ground arith
offered_by_status planned v r = ground arith
offered_by_status plan_failed v r = ground arith
offered_by_status validating v r = ground arith
offered_by_status validated v r = ground arith
offered_by_status validation_failed v r = ground arith
offered_by_status pending_approval v r = ground arith
offered_by_status approved v r = ground arith
offered_by_status rejected v r = ground arith
offered_by_status applying v r = ground arith
offered_by_status applied v r = ground arith
offered_by_status apply_failed v r = ground arith
offered_by_status rolled_back v r = ground arith
offered_by_status cancelled v r = ground arith

-- A loaded change set has no action at all exactly when it is being applied, rolled back or cancelled,
-- or is applied with no revision to roll back to.
offered-any :
    (cs : ChangeSet)
    → any (λ b. b) (offered (some cs))
      ≡ not (is_settled cs.status || is_applied cs.status && not (is_given cs.revision_id))
unfolding can_replan can_submit can_decide can_apply can_rollback can_cancel can_validate
    is_editable of_status editable replans submits is_pending is_approved is_applied has_revision
    pre_apply is_rejected validates plan_ok
offered-any cs = offered_by_status cs.status cs.plan_valid cs.revision_id

-- Deciding, applying and rolling back are each offered at one status only.
exclusive_by_status :
    (s : ChangeSetStatus)
    → ((submits s && (is_pending s || is_approved s || is_applied s)) ≡ false)
      × ((is_pending s && (is_approved s || is_applied s)) ≡ false)
      × ((is_approved s && is_applied s) ≡ false)
      × ((editable s && (is_pending s || is_approved s || is_applied s)) ≡ false)
unfolding submits is_pending is_approved is_applied editable
exclusive_by_status draft = (refl, refl, refl, refl)
exclusive_by_status planned = (refl, refl, refl, refl)
exclusive_by_status plan_failed = (refl, refl, refl, refl)
exclusive_by_status validating = (refl, refl, refl, refl)
exclusive_by_status validated = (refl, refl, refl, refl)
exclusive_by_status validation_failed = (refl, refl, refl, refl)
exclusive_by_status pending_approval = (refl, refl, refl, refl)
exclusive_by_status approved = (refl, refl, refl, refl)
exclusive_by_status rejected = (refl, refl, refl, refl)
exclusive_by_status applying = (refl, refl, refl, refl)
exclusive_by_status applied = (refl, refl, refl, refl)
exclusive_by_status apply_failed = (refl, refl, refl, refl)
exclusive_by_status rolled_back = (refl, refl, refl, refl)
exclusive_by_status cancelled = (refl, refl, refl, refl)

-- Submitting, deciding, applying and rolling back are never offered together, and an edit is never
-- offered with deciding, applying or rolling back.
pub actions_exclusive :
    (cs : Option ChangeSet)
    → ((can_submit cs && (can_decide cs || can_apply cs || can_rollback cs)) ≡ false)
      × ((can_decide cs && (can_apply cs || can_rollback cs)) ≡ false)
      × ((can_apply cs && can_rollback cs) ≡ false)
      × ((is_editable cs && (can_decide cs || can_apply cs || can_rollback cs)) ≡ false)
unfolding can_submit can_decide can_apply can_rollback is_editable of_status
actions_exclusive none = (refl, refl, refl, refl)
actions_exclusive (some cs) = ground (arith, exclusive_by_status cs.status)
