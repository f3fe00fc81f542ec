-- ===== src/Bridge/Plan/Tests.antt =====
-- A plan with a file that is written, a redirect and an operation that is refused.
use wordpress.Common.{
  List, [], codes, false, if◌then◌else◌, insert, lookup, none, ok, refl, some, true, ◌==◌, ◌∷◌, ◌≡◌,
}
use wordpress.Bridge.Plan.{
  add_flag, add_route, block_clear, code_change, content_upsert, file_write, high,
  is_dynamic_pattern, note_error, op_capability, plan_op, plan_ops, push_error, redirect_flag,
  redirect_upsert, set_at, set_effective, start_state, warn,
}
use wordpress.Bridge.Apply.{base_moved}
use wordpress.Bridge.Errors.{unregistered_block}
use wordpress.Bridge.Files.{Root, code, overrides, root_by_id, same_content}
use wordpress.Bridge.Plan.Operations.{
  adapter_plan, add_flags, add_routes, base_differs, file_target, needed_operation, plan_content,
  plan_file_write, plan_one, run_script, warn_all, write_conflicts,
}
use wordpress.Bridge.Plan.Outcome.{
  PlanLimits, PlanRequest, PlanResult, finish_plan, plan_change_set, plan_result, risk_level,
  sort_flags, sort_text_in, sort_texts,
}
use wordpress.Bridge.Plan.Steps.{
  Adapter, PlanConfig, plan_block_clear, plan_redirect_upsert, reads, returns, warn_chain,
  write_redirects, writes,
}
use wordpress.Bridge.Redirects.{
  has_source, put_entry, sort_in, sort_redirects, turns_back, upsert_redirect,
}
use wordpress.Bridge.Vfs.{
  changes, changes_from, keep_original, load_new, load_original, read, read_at, root_of, stage,
  too_large, vfs_key, write, write_at,
}
use wordpress.Bridge.Vfs.Tests.{demo_vfs}

abbrev roots_with_overrides : List Root
roots_with_overrides =
    record { id = "code"; kind = code; writable = true }
    ∷ record { id = "o"; kind = overrides; writable = true }
    ∷ []

-- An adapter that reads one file of the site and writes another.
abbrev posts : Adapter
posts = record {
  operations = "create" ∷ [];
  plan_upsert = some (λ op. reads "code" "a" (λ old. writes "code" "b" (some "post") (λ done.
      returns (record { impacted_routes = "/b" ∷ []; warning_codes = []; risk_flags = [] }))));
  plan_delete = none;
}

abbrev plan_config : PlanConfig
plan_config = record {
  vfs_config = record demo_vfs { roots = roots_with_overrides };
  overrides_id = "o";
  blocks = [];
  adapters = λ c. if c == "posts" then some posts else none;
  parse_store = λ kind raw. [];
  print_store = λ kind m. "store";
  parse_redirects = λ raw. [];
  print_redirects = λ rs. "redirects";
  before = λ a b. false;
  entry_json = λ vs. "entry";
  sanitize_rich_text = λ s. s;
  normalize_plain_text = λ s. s;
  opted_in = λ r. true;
  max_content_bytes = 10;
  check_file_op_path = λ root p. ok p;
  sha256_hex = λ b. b;
}

abbrev plan_limits : PlanLimits
plan_limits = record {
  max_operations = 5;
  has_capability = λ c. true;
  json_bytes = λ ops. 100;
  text_before = λ a b. false;
}

abbrev plan_request : PlanRequest
plan_request = record {
  change_id = "cs_1";
  operations =
      file_write "code" "a" "two" (some "one")
      ∷ redirect_upsert "/x" "/y" true
      ∷ block_clear "hero"
      ∷ content_upsert "posts" none "{}"
      ∷ [];
  base_revision = none;
}

abbrev planned_result : PlanResult
planned_result = record {
  valid = false;
  errors = (some 2, unregistered_block) ∷ [];
  warnings = [];
  impacted_routes = "/x" ∷ "/b" ∷ [];
  level = high;
  flags = code_change ∷ redirect_flag ∷ [];
  current_revision = none;
  file_changes =
      record { root = "code"; path = "a"; before = some "one"; after = some "two" }
      ∷ record { root = "o"; path = "redirects.json"; before = none; after = some "redirects" }
      ∷ record { root = "code"; path = "b"; before = none; after = some "post" }
      ∷ [];
  effective = true ∷ true ∷ false ∷ true ∷ [];
}

-- What the result of a call is, without the state.
plan_runs :
    (plan_change_set plan_config plan_limits plan_request none
      (start_state plan_request.operations)).0
    ≡ ok planned_result
unfolding plan_change_set plan_ops plan_op op_capability plan_one plan_file_write file_target
    root_by_id root_of read read_at load_original load_new keep_original vfs_key write write_at
    too_large stage write_conflicts base_differs add_flag plan_redirect_upsert warn_chain turns_back
    has_source upsert_redirect put_entry sort_redirects sort_in write_redirects add_route
    is_dynamic_pattern codes plan_block_clear note_error set_effective set_at push_error finish_plan
    base_moved changes changes_from same_content plan_result sort_flags risk_level sort_texts
    sort_text_in lookup insert warn plan_content needed_operation adapter_plan run_script add_routes
    warn_all add_flags
plan_runs = refl
