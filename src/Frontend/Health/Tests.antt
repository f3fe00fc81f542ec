-- ===== src/Frontend/Health/Tests.antt =====
-- Runs of the health check.
use wordpress.Common.{List, [], arith, false, none, refl, some, true, ◌∷◌, ◌≡◌}
use wordpress.Frontend.Health.{
  Hook, Reported, compile_hook, done_hook, failed_hook, get_status, health_after, invalid_hook,
  on_compile, on_done, on_errors, on_failed, on_hook, on_invalid, on_warnings,
}
use wordpress.Frontend.Health.Answers.{Agree, IsDocumented, health_after-Agree}
use wordpress.Frontend.Health.Duration.{format_duration-parts}
use wordpress.Frontend.Health.Endpoints.{format_duration}
use wordpress.Frontend.Health.History.{Told, health_after-Told}

abbrev broken : Reported
broken = record {
  message = "";
  as_text = "Error";
  stack = none;
  module_name = some "App.js";
  loc = none;
}

abbrev hooks : List Hook
hooks =
    done_hook
      (record { has_errors = false; errors = []; has_warnings = true; warnings = broken ∷ [] }) 70
      71
    ∷ compile_hook 60
    ∷ invalid_hook
    ∷ done_hook
        (record { has_errors = true; errors = broken ∷ []; has_warnings = false; warnings = [] }) 40
        41
    ∷ compile_hook 30
    ∷ failed_hook broken 20
    ∷ compile_hook 10
    ∷ []

test_warnings : (get_status (health_after hooks)).warning_count ≡ 1
unfolding get_status health_after on_hook on_compile on_done on_failed on_invalid on_errors
    on_warnings
test_warnings = refl

health_after-Told_example : Told hooks (health_after hooks)
health_after-Told_example = health_after-Told hooks

health_after-Agree_example : Agree (health_after hooks)
health_after-Agree_example =
    health_after-Agree hooks
      (unfold IsDocumented in (refl, (tt, (tt, (refl, (tt, (tt, (tt, tt))))))))

format_duration-parts_example : format_duration (λ n. "1") 3_725_900 ≡ "1h 1m 1s"
format_duration-parts_example =
    format_duration-parts (λ n. "1") 1 2 5 900 (omega arith) (omega arith) (omega arith)
