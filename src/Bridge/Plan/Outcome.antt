-- ===== src/Bridge/Plan/Outcome.antt =====
-- The whole of `planChangeSet`: automation-bridge/src/core/engine.ts. The text of the diff and the
-- hashes of the files are left out of the response; `json_bytes` is the length of the operations as
-- JSON, and `text_before` the order of texts.
use wordpress.Common.{
  Bool, List, Option, String, [], any, gets, if◌then◌else◌, keep, length, lift, ltb, none, not,
  pure, throw_if, ℕ, ◌*◌, ◌>>=◌, ◌>>◌, ◌∷◌,
}
use wordpress.Bridge.Plan.{
  Capability, Operation, Plan, PlanState, RiskFlag, RiskLevel, code_change, deletes_content,
  flag_eq, high, low, medium, plan_ops, push_error, redirect_flag, robots_noindex,
}
use wordpress.Bridge.Apply.{base_moved}
use wordpress.Bridge.Errors.{
  ErrorCode, bridge, conflict_revision, payload_too_large, validation_failed,
}
use wordpress.Bridge.Files.{FileChange}
use wordpress.Bridge.Plan.Operations.{plan_one}
use wordpress.Bridge.Plan.Steps.{PlanConfig, when_true}
use wordpress.Bridge.Rollback.{is_nonempty}
use wordpress.Bridge.Vfs.{changes}

pub record PlanRequest : Type 0 where
  pub change_id : String
  pub operations : List Operation
  pub base_revision : Option String

pub record PlanLimits : Type 0 where
  pub max_operations : ℕ
  pub has_capability : Capability → Bool
  pub json_bytes : List Operation → ℕ
  pub text_before : String → String → Bool

abbrev pub max_changeset_bytes : ℕ
max_changeset_bytes = 2 * 1024 * 1024

pub record PlanResult : Type 0 where
  pub valid : Bool
  pub errors : List (Option ℕ × ErrorCode)
  pub warnings : List (ℕ × String)
  pub impacted_routes : List String
  pub level : RiskLevel
  pub flags : List RiskFlag
  pub current_revision : Option String
  pub file_changes : List FileChange
  pub effective : List Bool

-- `[...flags].sort()`: the flags in the order of their names.
abbrev pub has_flag : RiskFlag → List RiskFlag → Bool
has_flag f fs = any (flag_eq f) fs

unfoldable pub sort_flags : List RiskFlag → List RiskFlag
sort_flags fs =
    keep (λ f. has_flag f fs) (code_change ∷ deletes_content ∷ redirect_flag ∷ robots_noindex ∷ [])

unfoldable pub risk_level : List RiskFlag → RiskLevel
risk_level fs = if has_flag code_change fs then high else if is_nonempty fs then medium else low

-- `[...impacted].sort()`
unfoldable pub sort_text_in : (String → String → Bool) → String → List String → List String
sort_text_in less t [] = t ∷ []
sort_text_in less t (u ∷ us) =
    let rest = sort_text_in less t us in if less u t then u ∷ rest else t ∷ u ∷ us

unfoldable pub sort_texts : (String → String → Bool) → List String → List String
unfolding sort_text_in
sort_texts less [] = []
sort_texts less (t ∷ ts) = sort_text_in less t (sort_texts less ts)

unfoldable pub plan_result : PlanLimits → Option String → List FileChange → PlanState → PlanResult
unfolding sort_flags risk_level sort_texts
plan_result limits current cs s = record {
  valid = not (is_nonempty s.errors);
  errors = s.errors;
  warnings = s.warnings;
  impacted_routes = sort_texts limits.text_before s.impacted;
  level = risk_level (sort_flags s.flags);
  flags = sort_flags s.flags;
  current_revision = current;
  file_changes = cs;
  effective = s.effective;
}

module _ (cfg : PlanConfig) (limits : PlanLimits) where
  -- What follows the loop, with the current revision.
  unfoldable pub finish_plan : PlanRequest → Option String → Plan PlanResult
  unfolding base_moved push_error plan_result changes
  finish_plan req current = do
    when_true (base_moved req.base_revision current) (push_error none conflict_revision)
    s ← gets (λ t. t)
    cs ← lift (changes s.vfs)
    pure (plan_result limits current cs s)

  unfoldable pub plan_change_set : PlanRequest → Option String → Plan PlanResult
  unfolding plan_ops plan_one finish_plan
  plan_change_set req current = do
    throw_if (ltb max_changeset_bytes (limits.json_bytes req.operations)) (bridge payload_too_large)
    throw_if (ltb limits.max_operations (length req.operations)) (bridge validation_failed)
    plan_ops limits.has_capability (plan_one cfg req.change_id) req.operations 0
    finish_plan req current

-- `planError`: the code of the first error, by which an apply is refused. Every error of a plan here
-- has a code of `ERROR_STATUS`.
unfoldable pub plan_error : List (Option ℕ × ErrorCode) → ErrorCode
plan_error [] = validation_failed
plan_error ((index, c) ∷ es) = c
