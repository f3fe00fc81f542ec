-- ===== src/Frontend/ChangeSets/Tests.antt =====
-- Runs of the predicates on change sets.
use wordpress.Common.{false, some, true, ◌&&◌, ◌||◌, ◌≡◌}
use wordpress.Frontend.ChangeSets.{
  planned, ChangeSet, ChangeSetStatus, can_apply, can_decide, can_rollback, can_submit, is_editable,
}
use wordpress.Frontend.ChangeSets.Actions.{actions_exclusive}

abbrev in_state : ChangeSetStatus → ChangeSet
in_state s = record { status = s; plan_valid = some true; revision_id = some "r_1" }

actions_exclusive_example :
    ((can_submit (some (in_state planned))
        && (can_decide (some (in_state planned))
            || can_apply (some (in_state planned))
            || can_rollback (some (in_state planned))))
      ≡ false)
    × ((can_decide (some (in_state planned))
          && (can_apply (some (in_state planned)) || can_rollback (some (in_state planned))))
        ≡ false)
    × ((can_apply (some (in_state planned)) && can_rollback (some (in_state planned))) ≡ false)
    × ((is_editable (some (in_state planned))
          && (can_decide (some (in_state planned))
              || can_apply (some (in_state planned))
              || can_rollback (some (in_state planned))))
        ≡ false)
actions_exclusive_example = actions_exclusive (some (in_state planned))
