-- ===== src/Frontend/Toasts/Tests.antt =====
-- Runs of the toasts.
use wordpress.Common.{List, String, [], any, false, none, refl, some, true, ◌==◌, ◌∷◌, ◌≡◌}
use wordpress.Frontend.Toasts.{
  Toast, ToastEvent, ToastState, add_toast, dismiss_toast, dispatched, reducer, timed_out,
  toast_run, toast_step,
}
use wordpress.Frontend.Toasts.Limit.{Tidy, toast_run-Tidy}
use wordpress.Frontend.Toasts.Removal.{dismissed_goes}

abbrev toast_of : String → Toast
toast_of id = record { id = id; open_now = true; title = none }

abbrev shown : ToastState
shown = record { toasts = toast_of "1" ∷ []; timeouts = [] }

abbrev uses : List ToastEvent
uses = dispatched (add_toast (toast_of "2")) ∷ dispatched (dismiss_toast none) ∷ timed_out "2" ∷ []

toast_run-Tidy_example : Tidy (toast_run (record { toasts = []; timeouts = [] }) uses)
toast_run-Tidy_example = toast_run-Tidy uses

dismissed_goes_example :
    any
      (λ t. t.id == "1")
      (toast_step
        (toast_run (reducer shown (dismiss_toast (some "1"))) uses)
        (timed_out "1")).toasts
    ≡ false
dismissed_goes_example = dismissed_goes shown "1" uses refl refl
