-- ===== src/Frontend/Health/Endpoints.antt =====
-- The health endpoints: frontend/plugins/health-check/health-endpoints.js. What JavaScript prints for
-- a number and for a date, and the quotient rounded to the nearest, are parameters. Of `/health` the
-- sections on the server's hardware are left out.
use wordpress.Common.{
  Bool, List, Option, String, false, if◌then◌else◌, ltb, nat_eq, none, some, true, ℕ, ◌%◌, ◌/◌,
}
use wordpress.Frontend.Health.{
  CompileState, HealthStatus, Problem, compiling, failed, get_simple_status, get_status, idle,
  is_success, success,
}
use Prim.Native.String.{◌++◌ as ◌<>◌}

pub data ReadyReason : Type 0 where
  in_progress compilation_failed : ReadyReason

-- The answer of `/health/ready`; a ready one gives no reason.
pub record Ready : Type 0 where
  pub code_sent : ℕ
  pub ready : Bool
  pub state : CompileState
  pub reason : Option ReadyReason

unfoldable pub health_simple : HealthStatus → ℕ × String
unfolding get_simple_status
health_simple s = elim (get_simple_status s).state [
  | success ↦ (200, "OK")
  | compiling ↦ (200, "COMPILING")
  | idle ↦ (200, "IDLE")
  | failed ↦ (503, "ERROR")
]

abbrev pub is_compiling : CompileState → Bool
is_compiling compiling = true
is_compiling _ = false

unfoldable pub health_ready : HealthStatus → Ready
unfolding get_simple_status
health_ready s =
    let w = get_simple_status s in
    if is_success w.state
    then record { code_sent = 200; ready = true; state = w.state; reason = none }
    else record {
      code_sent = 503;
      ready = false;
      state = w.state;
      reason = some (if is_compiling w.state then in_progress else compilation_failed);
    }

-- The answer of `/health/errors`.
pub record ErrorsAnswer : Type 0 where
  pub error_count : ℕ
  pub warning_count : ℕ
  pub errors : List Problem
  pub warnings : List Problem
  pub state : CompileState

unfoldable pub health_errors : HealthStatus → ErrorsAnswer
unfolding get_status
health_errors s =
    let w = get_status s in
    record {
      error_count = w.error_count;
      warning_count = w.warning_count;
      errors = w.spread.errors;
      warnings = w.spread.warnings;
      state = w.spread.state;
    }

-- The answer of `/health`: its status, uptime and section on webpack.
pub record HealthAnswer : Type 0 where
  pub healthy : String
  pub uptime_seconds : ℕ
  pub uptime_formatted : String
  pub state : CompileState
  pub is_healthy : Bool
  pub has_compiled : Bool
  pub errors : ℕ
  pub warnings : ℕ
  pub last_compile_time : Option String
  pub last_success_time : Option String
  pub compile_duration : Option String
  pub total_compiles : ℕ
  pub first_compile_time : Option String

-- The answer of `/health/stats`.
pub record StatsAnswer : Type 0 where
  pub total_compiles : ℕ
  pub average_compile_time : Option String
  pub last_compile_duration : Option String
  pub first_compile_time : Option String
  pub server_uptime : String

module _ (show : ℕ → String) where
  unfoldable pub format_duration : ℕ → String
  format_duration ms =
      let seconds = ms / 1000 in
      let minutes = seconds / 60 in
      let hours = minutes / 60 in
      if ltb 0 hours
      then show hours <> "h " <> show (minutes % 60) <> "m " <> show (seconds % 60) <> "s"
      else if ltb 0 minutes
      then show minutes <> "m " <> show (seconds % 60) <> "s"
      else show seconds <> "s"

  unfoldable pub duration_text : ℕ → Option String
  duration_text n = if nat_eq n 0 then none else some (show n <> "ms")

-- `t ? new Date(t).toISOString() : null`
unfoldable pub date_text : (ℕ → String) → Option ℕ → Option String
date_text iso none = none
date_text iso (some t) = if nat_eq t 0 then none else some (iso t)

module _ (show : ℕ → String) (iso : ℕ → String) where
  unfoldable pub health : HealthStatus → ℕ → HealthAnswer
  unfolding get_status format_duration date_text duration_text
  health s uptime =
      let w = get_status s in
      record {
        healthy = if w.is_healthy then "healthy" else "unhealthy";
        uptime_seconds = uptime / 1000;
        uptime_formatted = format_duration show uptime;
        state = w.spread.state;
        is_healthy = w.is_healthy;
        has_compiled = w.has_compiled;
        errors = w.error_count;
        warnings = w.warning_count;
        last_compile_time = date_text iso w.spread.last_compile_time;
        last_success_time = date_text iso w.spread.last_success_time;
        compile_duration = duration_text show w.spread.compile_duration;
        total_compiles = w.spread.total_compiles;
        first_compile_time = date_text iso w.spread.first_compile_time;
      }

  unfoldable pub health_stats : (ℕ → ℕ → ℕ) → HealthStatus → ℕ → StatsAnswer
  unfolding get_status format_duration date_text duration_text
  health_stats rounded s uptime =
      let w = get_status s in
      record {
        total_compiles = w.spread.total_compiles;
        average_compile_time =
            if ltb 0 w.spread.total_compiles
            then some (show (rounded uptime w.spread.total_compiles) <> "ms")
            else none;
        last_compile_duration = duration_text show w.spread.compile_duration;
        first_compile_time = date_text iso w.spread.first_compile_time;
        server_uptime = format_duration show uptime;
      }
