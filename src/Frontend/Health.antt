-- ===== src/Frontend/Health.antt =====
-- The health-check plugin of the development server:
-- frontend/plugins/health-check/webpack-health-plugin.js, `WebpackHealthPlugin`, with the hooks of
-- webpack as events. Times are milliseconds of a clock that does not go back.
pub mod Endpoints
pub mod Duration
pub mod History
pub mod Answers
pub mod Tests
use wordpress.Common.{
  Bool, List, Option, String, [], false, if◌then◌else◌, length, ltb, map, nat_eq, none, or_else,
  some, suc, true, ℕ, ◌-◌, ◌==◌, ◌∷◌,
}

pub data CompileState : Type 0 where
  idle compiling success failed : CompileState

-- An error or a warning that webpack reports, and what `String(…)` makes of it.
pub record Reported : Type 0 where
  pub message : String
  pub as_text : String
  pub stack : Option String
  pub module_name : Option String
  pub loc : Option String

-- What is kept of one; a warning has no stack.
pub record Problem : Type 0 where
  pub message : String
  pub stack : Option String
  pub module_name : Option String
  pub loc : Option String

-- `this.status`
pub record HealthStatus : Type 0 where
  pub state : CompileState
  pub errors : List Problem
  pub warnings : List Problem
  pub last_compile_time : Option ℕ
  pub last_success_time : Option ℕ
  pub compile_duration : ℕ
  pub total_compiles : ℕ
  pub first_compile_time : Option ℕ

-- What webpack's `Stats` answers.
pub record Stats : Type 0 where
  pub has_errors : Bool
  pub errors : List Reported
  pub has_warnings : Bool
  pub warnings : List Reported

-- A hook that webpack calls, with what the clock then shows; `done` reads it twice.
pub data Hook : Type 0 where
  compile_hook : ℕ → Hook
  done_hook : Stats → ℕ → ℕ → Hook
  failed_hook : Reported → ℕ → Hook
  invalid_hook : Hook

abbrev pub fresh_status : HealthStatus
fresh_status = record {
  state = idle;
  errors = [];
  warnings = [];
  last_compile_time = none;
  last_success_time = none;
  compile_duration = 0;
  total_compiles = 0;
  first_compile_time = none;
}

-- `!t`: a time of 0 counts as none.
abbrev pub is_unset : Option ℕ → Bool
is_unset none = true
is_unset (some t) = nat_eq t 0

-- `err.message || String(err)`
unfoldable pub problem_text : Reported → String
problem_text e = if e.message == "" then e.as_text else e.message

unfoldable pub problem_error : Reported → Problem
unfolding problem_text
problem_error e = record {
  message = problem_text e;
  stack = e.stack;
  module_name = e.module_name;
  loc = e.loc;
}

unfoldable pub problem_warning : Reported → Problem
unfolding problem_text
problem_warning e = record {
  message = problem_text e;
  stack = none;
  module_name = e.module_name;
  loc = e.loc;
}

unfoldable pub on_compile : HealthStatus → ℕ → HealthStatus
on_compile s now = record s {
  state = compiling;
  last_compile_time = some now;
  first_compile_time = if is_unset s.first_compile_time then some now else s.first_compile_time;
}

-- `Date.now() - this.status.lastCompileTime`, where `null` counts as 0.
unfoldable pub since_compile : HealthStatus → ℕ → ℕ
since_compile s now = now - or_else s.last_compile_time 0

unfoldable pub on_errors : Stats → ℕ → HealthStatus → HealthStatus
unfolding problem_error
on_errors r later s =
    if r.has_errors
    then record s { state = failed; errors = map problem_error r.errors }
    else record s { state = success; last_success_time = some later; errors = [] }

unfoldable pub on_warnings : Stats → HealthStatus → HealthStatus
unfolding problem_warning
on_warnings r s = record s {
  warnings = if r.has_warnings then map problem_warning r.warnings else [];
}

unfoldable pub on_done : HealthStatus → Stats → ℕ → ℕ → HealthStatus
unfolding since_compile on_errors on_warnings
on_done s r now later = on_warnings r (
    on_errors r later
      (record s { total_compiles = suc s.total_compiles; compile_duration = since_compile s now }))

unfoldable pub on_failed : HealthStatus → Reported → ℕ → HealthStatus
unfolding since_compile
on_failed s e now = record s {
  state = failed;
  errors = record { message = e.message; stack = e.stack; module_name = none; loc = none } ∷ [];
  compile_duration = since_compile s now;
}

unfoldable pub on_invalid : HealthStatus → HealthStatus
on_invalid s = record s { state = compiling }

unfoldable pub on_hook : HealthStatus → Hook → HealthStatus
unfolding on_compile on_done on_failed on_invalid
on_hook s (compile_hook now) = on_compile s now
on_hook s (done_hook r now later) = on_done s r now later
on_hook s (failed_hook e now) = on_failed s e now
on_hook s invalid_hook = on_invalid s

-- The status after the hooks of a history, the latest first, since the start or a `reset`.
unfoldable pub health_after : List Hook → HealthStatus
unfolding on_hook
health_after [] = fresh_status
health_after (h ∷ hs) = on_hook (health_after hs) h

abbrev pub is_success : CompileState → Bool
is_success success = true
is_success _ = false

-- `getStatus`: the properties of the status, spread, and the computed ones.
pub record FullStatus : Type 0 where
  pub spread : HealthStatus
  pub is_healthy : Bool
  pub error_count : ℕ
  pub warning_count : ℕ
  pub has_compiled : Bool

unfoldable pub get_status : HealthStatus → FullStatus
get_status s = record {
  spread = s;
  is_healthy = is_success s.state;
  error_count = length s.errors;
  warning_count = length s.warnings;
  has_compiled = ltb 0 s.total_compiles;
}

pub record SimpleStatus : Type 0 where
  pub state : CompileState
  pub is_healthy : Bool
  pub error_count : ℕ
  pub warning_count : ℕ

unfoldable pub get_simple_status : HealthStatus → SimpleStatus
get_simple_status s = record {
  state = s.state;
  is_healthy = is_success s.state;
  error_count = length s.errors;
  warning_count = length s.warnings;
}
