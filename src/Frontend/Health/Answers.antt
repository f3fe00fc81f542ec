-- ===== src/Frontend/Health/Answers.antt =====
-- What the endpoints answer, over any history of hooks.
use wordpress.Common.{
  All, Bool-cases, List, [], arith, inl, inr, length, ltb, map, refl, true, ℕ, ◌↔◌, ◌∷◌, ◌≡◌, ◌≤◌,
}
use wordpress.Frontend.Health.{
  CompileState, HealthStatus, Hook, Reported, Stats, compile_hook, compiling, done_hook, failed,
  failed_hook, get_simple_status, get_status, health_after, idle, invalid_hook, on_compile, on_done,
  on_errors, on_failed, on_hook, on_invalid, on_warnings, problem_error, success,
}
use wordpress.Frontend.Health.Endpoints.{health_errors, health_ready, health_simple}
use mathlib.Core.Path.{subst}

-- The documented behaviour of webpack's Stats: there are errors, or warnings, exactly when it says so.
unfoldable pub IsDocumented : Hook → Type 0
IsDocumented (compile_hook now) = Unit
IsDocumented (done_hook r now later) = r.has_errors ≡ ltb 0 (length r.errors)
IsDocumented (failed_hook e now) = Unit
IsDocumented invalid_hook = Unit

-- A success has no errors and came from a build; a failure has errors; at the start there is neither.
unfoldable pub Settled : CompileState → HealthStatus → Type 0
Settled idle s = (s.errors ≡ []) × (s.warnings ≡ []) × (s.total_compiles ≡ 0)
Settled compiling s = Unit
Settled success s = (s.errors ≡ []) × (1 ≤ s.total_compiles)
Settled failed s = 1 ≤ length s.errors

length-map_problems : (es : List Reported) → length (map problem_error es) ≡ length es
length-map_problems [] = refl
length-map_problems (e ∷ es) = omega (arith, length-map_problems es)

Settled-done :
    (s : HealthStatus) (r : Stats) (now later : ℕ)
    → r.has_errors ≡ ltb 0 (length r.errors)
    → Settled (on_done s r now later).state (on_done s r now later)
unfolding on_done on_errors on_warnings Settled
Settled-done s r now later documented = elim (Bool-cases r.has_errors) [
  | inr good ↦ rw good (refl, omega arith)
  | inl bad ↦ rw bad (ground (arith, bad, documented, length-map_problems r.errors))
]

Settled-health_after :
    (hs : List Hook) → All IsDocumented hs → Settled (health_after hs).state (health_after hs)
unfolding health_after on_hook IsDocumented
Settled-health_after [] d = unfold Settled in (refl, refl, refl)
Settled-health_after (compile_hook now ∷ hs) (d, ds) = unfold on_compile Settled in tt
Settled-health_after (done_hook r now later ∷ hs) (d, ds) =
    Settled-done (health_after hs) r now later d
Settled-health_after (failed_hook e now ∷ hs) (d, ds) = unfold on_failed Settled in omega arith
Settled-health_after (invalid_hook ∷ hs) (d, ds) = unfold on_invalid Settled in tt

-- What the three checks of one status say together.
pub record Agree (s : HealthStatus) : Type 0 where
  pub error_iff : ((health_simple s).0 ≡ 503) ↔ (s.state ≡ failed)
  pub ready_iff : ((health_ready s).code_sent ≡ 200) ↔ ((health_ready s).ready ≡ true)
  pub ready_clean : (health_ready s).ready ≡ true → (health_errors s).error_count ≡ 0
  pub ready_built : (health_ready s).ready ≡ true → (get_status s).has_compiled ≡ true
  pub error_listed : (health_simple s).0 ≡ 503 → 1 ≤ (health_errors s).error_count

Settled-success :
    (s : HealthStatus)
    → s.state ≡ success
    → Settled s.state s
    → (s.errors ≡ []) × (1 ≤ s.total_compiles)
Settled-success s e h = unfold Settled in subst (λ c. Settled c s) e h

Settled-failed : (s : HealthStatus) → s.state ≡ failed → Settled s.state s → 1 ≤ length s.errors
Settled-failed s e h = unfold Settled in subst (λ c. Settled c s) e h

simple_error :
    (c : CompileState) (s : HealthStatus) → s.state ≡ c → ((health_simple s).0 ≡ 503) ↔ (c ≡ failed)
unfolding health_simple get_simple_status
simple_error idle s e = rw e (ground arith)
simple_error compiling s e = rw e (ground arith)
simple_error success s e = rw e (ground arith)
simple_error failed s e = rw e (ground arith)

ready_success : (s : HealthStatus) → (health_ready s).ready ≡ true → s.state ≡ success
unfolding health_ready get_simple_status
ready_success s =
    elim s.state as (λ c. (health_ready (record s { state = c })).ready ≡ true → c ≡ success) [
      | idle ↦ ground arith
      | compiling ↦ ground arith
      | success ↦ ground arith
      | failed ↦ ground arith
    ]

ready_sent :
    (s : HealthStatus) → ((health_ready s).code_sent ≡ 200) ↔ ((health_ready s).ready ≡ true)
unfolding health_ready get_simple_status
ready_sent s = ground arith

-- After any history of hooks, if webpack reports errors exactly when it says that there are some, the
-- endpoints agree: `/health/simple` answers 503 exactly in the state failed, `/health/ready` answers
-- 200 exactly when ready, a ready server has compiled and `/health/errors` counts no errors, and
-- after a failure it counts some.
pub health_after-Agree : (hs : List Hook) → All IsDocumented hs → Agree (health_after hs)
unfolding health_errors get_status
health_after-Agree hs d =
    let s = health_after hs in
    let h = Settled-health_after hs d in
    record {
      error_iff = simple_error s.state s refl;
      ready_iff = ready_sent s;
      ready_clean = λ r. rw (Settled-success s (ready_success s r) h).0 refl;
      ready_built = λ r. ground (arith, (Settled-success s (ready_success s r) h).1);
      error_listed = λ e. Settled-failed s ((simple_error s.state s refl).0 e) h;
    }
