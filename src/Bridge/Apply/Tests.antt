-- ===== src/Bridge/Apply/Tests.antt =====
-- Runs of an apply.
use wordpress.Common.{Post, [], false, none, ok, refl, some, true, ◌∷◌, ◌≡◌, ◌⊎◌}
use wordpress.Bridge.Apply.{ApplyRequest, PlanOutcome, apply_change_set, apply_input}
use wordpress.Bridge.Apply.Approved.{IsApproved, apply_change_set-IsApproved}
use wordpress.Bridge.Errors.{internal}
use wordpress.Bridge.Execute.Atomic.{Applied, Safe}
use wordpress.Bridge.Execute.Targets.{Readable}
use wordpress.Bridge.Files.{code}
use wordpress.Bridge.World.{World}
use wordpress.Bridge.Writes.{Site}

abbrev code_only : Site
code_only = record {
  roots = record { id = "code"; kind = code; writable = true } ∷ [];
  resolve_in_root = λ r p. ok p;
  look_fails = λ k p. false;
  is_symlink = λ p. false;
  sha256 = λ b. b;
  has_internal_url = false;
  revalidator_enabled = false;
}

abbrev empty_world : World
empty_world = record {
  disk = λ p. none;
  snapshots = [];
  records = [];
  events = [];
  in_progress = λ id. false;
  locals = record { step = ""; revalidated = []; routes = [] };
  faults = [];
  answers = [];
}

abbrev asked : ApplyRequest
asked = record { change_id = "c"; base_revision = none; expected_plan_sha256 = "+x" }

abbrev new_file : PlanOutcome
new_file = record {
  valid = true;
  first_error = internal;
  diff = "+x";
  impacted_routes = [];
  current_revision = none;
  changes = record { root = "code"; path = "a"; before = none; after = some "x" } ∷ [];
}

apply_change_set-IsApproved_example :
    Post
      (λ _ v.
        IsApproved code_only asked new_file
        × Applied code_only (λ p. none) (apply_input asked new_file "r_1" 5) v)
      (λ _ v.
        (v ≡ empty_world)
        ⊎ (IsApproved code_only asked new_file × Safe code_only (λ p. none) "r_1" v))
      (apply_change_set code_only asked new_file "r_1" 5 empty_world)
unfolding Readable
apply_change_set-IsApproved_example =
    apply_change_set-IsApproved code_only (λ k p. refl) asked new_file "r_1" 5 empty_world
