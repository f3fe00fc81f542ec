-- ===== src/Frontend/Health/History.antt =====
-- What the status is after a history of hooks, read off the history itself.
use wordpress.Common.{
  Bool-cases, List, Option, [], ap, if◌then◌else◌, inl, inr, none, refl, some, suc, ℕ, ◌∷◌, ◌≡◌,
}
use wordpress.Frontend.Health.{
  CompileState, HealthStatus, Hook, compile_hook, compiling, done_hook, failed, failed_hook,
  health_after, idle, invalid_hook, is_unset, on_compile, on_done, on_errors, on_failed, on_hook,
  on_invalid, on_warnings, success,
}

-- The state that the latest hook leaves.
unfoldable pub state_told : List Hook → CompileState
state_told [] = idle
state_told (compile_hook now ∷ hs) = compiling
state_told (done_hook r now later ∷ hs) = if r.has_errors then failed else success
state_told (failed_hook e now ∷ hs) = failed
state_told (invalid_hook ∷ hs) = compiling

-- The times of the builds' ends without errors, and of their beginnings, the latest first.
unfoldable pub success_times : List Hook → List ℕ
success_times [] = []
success_times (compile_hook now ∷ hs) = success_times hs
success_times (done_hook r now later ∷ hs) =
    let rest = success_times hs in if r.has_errors then rest else later ∷ rest
success_times (failed_hook e now ∷ hs) = success_times hs
success_times (invalid_hook ∷ hs) = success_times hs

unfoldable pub compile_times : List Hook → List ℕ
compile_times [] = []
compile_times (compile_hook now ∷ hs) = now ∷ compile_times hs
compile_times (done_hook r now later ∷ hs) = compile_times hs
compile_times (failed_hook e now ∷ hs) = compile_times hs
compile_times (invalid_hook ∷ hs) = compile_times hs

unfoldable pub ended : List Hook → ℕ
ended [] = 0
ended (compile_hook now ∷ hs) = ended hs
ended (done_hook r now later ∷ hs) = suc (ended hs)
ended (failed_hook e now ∷ hs) = ended hs
ended (invalid_hook ∷ hs) = ended hs

abbrev pub latest : List ℕ → Option ℕ
latest [] = none
latest (t ∷ ts) = some t

-- The first time that is not 0, or else the latest there is.
unfoldable pub earliest : List ℕ → Option ℕ
earliest [] = none
earliest (t ∷ ts) = if is_unset (earliest ts) then some t else earliest ts

pub record Told (hs : List Hook) (s : HealthStatus) : Type 0 where
  pub same_state : s.state ≡ state_told hs
  pub same_success : s.last_success_time ≡ latest (success_times hs)
  pub same_compile : s.last_compile_time ≡ latest (compile_times hs)
  pub same_first : s.first_compile_time ≡ earliest (compile_times hs)
  pub same_total : s.total_compiles ≡ ended hs

-- The status after any history is the one that the history tells: the state is what the latest hook
-- leaves, the times of the last success and the last compile are the latest ones, the first compile
-- is the earliest one, and the compiles counted are the builds that are done.
pub health_after-Told : (hs : List Hook) → Told hs (health_after hs)
unfolding health_after on_hook on_compile on_done on_failed on_invalid on_errors on_warnings
    state_told success_times compile_times ended earliest
health_after-Told [] = record {
  same_state = refl;
  same_success = refl;
  same_compile = refl;
  same_first = refl;
  same_total = refl;
}
health_after-Told (compile_hook now ∷ hs) =
    let t = health_after-Told hs in
    record {
      same_state = refl;
      same_success = t.same_success;
      same_compile = refl;
      same_first = rw t.same_first refl;
      same_total = t.same_total;
    }
health_after-Told (done_hook r now later ∷ hs) =
    let t = health_after-Told hs in
    elim (Bool-cases r.has_errors) [
      | inl bad ↦ rw bad (record {
        same_state = refl;
        same_success = t.same_success;
        same_compile = t.same_compile;
        same_first = t.same_first;
        same_total = ap suc t.same_total;
      })
      | inr good ↦ rw good (record {
        same_state = refl;
        same_success = refl;
        same_compile = t.same_compile;
        same_first = t.same_first;
        same_total = ap suc t.same_total;
      })
    ]
health_after-Told (failed_hook e now ∷ hs) =
    let t = health_after-Told hs in
    record {
      same_state = refl;
      same_success = t.same_success;
      same_compile = t.same_compile;
      same_first = t.same_first;
      same_total = t.same_total;
    }
health_after-Told (invalid_hook ∷ hs) =
    let t = health_after-Told hs in
    record {
      same_state = refl;
      same_success = t.same_success;
      same_compile = t.same_compile;
      same_first = t.same_first;
      same_total = t.same_total;
    }
