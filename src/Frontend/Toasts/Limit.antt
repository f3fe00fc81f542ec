-- ===== src/Frontend/Toasts/Limit.antt =====
-- However the toasts are used, few are shown and each has one timer at most.
use wordpress.Common.{
  Bool-cases, List, Option, String, [], any, arith, eq_iff, false, inl, inr, keep, length,
  length-keep, map, none, not, refl, some, take, ◌++◌, ◌==◌, ◌||◌, ◌∷◌, ◌≡◌, ◌≤◌,
}
use wordpress.Frontend.Toasts.{
  Toast, ToastAction, ToastEvent, ToastState, add_to_remove_queue, add_toast, dismiss_toast,
  dispatched, fire_timeout, has_timeout, queue_all, queue_dismissed, reducer, remove_toast,
  removed_by, timed_out, toast_limit, toast_run, toast_step, update_toast,
}

-- No id twice.
unfoldable pub IsOnce : List String → Type 0
IsOnce [] = Unit
IsOnce (t ∷ ts) = (any (λ s. s == t) ts ≡ false) × IsOnce ts

pub any-append :
    (id : String) (ts us : List String)
    → any (λ t. t == id) (ts ++ us) ≡ (any (λ t. t == id) ts || any (λ t. t == id) us)
any-append id [] us = refl
any-append id (t ∷ ts) us = ground (arith, any-append id ts us)

IsOnce-append :
    (id : String) (ts : List String)
    → any (λ t. t == id) ts ≡ false
    → IsOnce ts
    → IsOnce (ts ++ id ∷ [])
unfolding IsOnce
IsOnce-append id [] h u = (refl, tt)
IsOnce-append id (t ∷ ts) h (n, u) = (
  ground (arith, n, h, eq_iff t id, eq_iff id t, any-append t ts (id ∷ [])),
  IsOnce-append id ts (ground (arith, h)) u,
)

IsOnce-add_to_remove_queue :
    (id : String) (ts : List String) → IsOnce ts → IsOnce (add_to_remove_queue id ts)
unfolding add_to_remove_queue has_timeout
IsOnce-add_to_remove_queue id ts u = elim (Bool-cases (any (λ t. t == id) ts)) [
  | inl there ↦ rw there u
  | inr absent ↦ rw absent (IsOnce-append id ts absent u)
]

IsOnce-queue_all :
    (toasts : List Toast) (ts : List String) → IsOnce ts → IsOnce (queue_all toasts ts)
unfolding queue_all
IsOnce-queue_all [] ts u = u
IsOnce-queue_all (t ∷ toasts) ts u =
    IsOnce-queue_all toasts (add_to_remove_queue t.id ts) (IsOnce-add_to_remove_queue t.id ts u)

IsOnce-queue_dismissed :
    (id : Option String) (s : ToastState) → IsOnce s.timeouts → IsOnce (queue_dismissed id s)
unfolding queue_dismissed
IsOnce-queue_dismissed none s u = IsOnce-queue_all s.toasts s.timeouts u
IsOnce-queue_dismissed (some id) s u = elim (Bool-cases (id == "")) [
  | inl blank ↦ rw blank (IsOnce-queue_all s.toasts s.timeouts u)
  | inr given ↦ rw given (IsOnce-add_to_remove_queue id s.timeouts u)
]

any-keep :
    (id j : String) (ts : List String)
    → any (λ t. t == j) ts ≡ false
    → any (λ t. t == j) (keep (λ t. not (t == id)) ts) ≡ false
any-keep id j [] h = refl
any-keep id j (t ∷ ts) h = ground (arith, any-keep id j ts)

IsOnce-keep : (id : String) (ts : List String) → IsOnce ts → IsOnce (keep (λ t. not (t == id)) ts)
unfolding IsOnce
IsOnce-keep id [] u = tt
IsOnce-keep id (t ∷ ts) (n, u) = ground (arith, any-keep id t ts n, IsOnce-keep id ts u)

length-map : (f : Toast → Toast) (ts : List Toast) → length (map f ts) ≡ length ts
length-map f [] = refl
length-map f (t ∷ ts) = omega (arith, length-map f ts)

length-take_one : (t : Toast) (ts : List Toast) → length (take toast_limit (t ∷ ts)) ≤ toast_limit
length-take_one t [] = omega arith
length-take_one t (u ∷ ts) = omega arith

pub record Tidy (s : ToastState) : Type 0 where
  pub few : length s.toasts ≤ toast_limit
  pub once : IsOnce s.timeouts

Tidy-reducer : (s : ToastState) (a : ToastAction) → Tidy s → Tidy (reducer s a)
unfolding reducer
Tidy-reducer s (add_toast t) h = record { few = length-take_one t s.toasts; once = h.once }
Tidy-reducer s (update_toast p) h = record { few = rw length-map h.few; once = h.once }
Tidy-reducer s (dismiss_toast id) h = record {
  few = rw length-map h.few;
  once = IsOnce-queue_dismissed id s h.once;
}
Tidy-reducer s (remove_toast none) h = record {
  few = unfold removed_by in omega arith;
  once = h.once;
}
Tidy-reducer s (remove_toast (some id)) h = record {
  few =
      unfold removed_by in
      omega (arith, h.few, length-keep (λ (t : Toast). not (t.id == id)) s.toasts);
  once = h.once;
}

Tidy-toast_step : (s : ToastState) (e : ToastEvent) → Tidy s → Tidy (toast_step s e)
unfolding toast_step fire_timeout
Tidy-toast_step s (dispatched a) h = Tidy-reducer s a h
Tidy-toast_step s (timed_out id) h = elim (Bool-cases (has_timeout id s.timeouts)) [
  | inr absent ↦ rw absent h
  | inl there ↦ rw there (
      Tidy-reducer (record s { timeouts = keep (λ t. not (t == id)) s.timeouts })
        (remove_toast (some id)) (record { few = h.few; once = IsOnce-keep id s.timeouts h.once }))
]

Tidy-toast_run_from : (s : ToastState) (es : List ToastEvent) → Tidy s → Tidy (toast_run s es)
unfolding toast_run
Tidy-toast_run_from s [] h = h
Tidy-toast_run_from s (e ∷ es) h = Tidy-toast_run_from (toast_step s e) es (Tidy-toast_step s e h)

-- After any actions and timers from the empty state, at most one toast is shown and no id has two
-- timers.
pub toast_run-Tidy :
    (es : List ToastEvent) → Tidy (toast_run (record { toasts = []; timeouts = [] }) es)
toast_run-Tidy es =
    Tidy-toast_run_from (record { toasts = []; timeouts = [] }) es
      (record { few = omega arith; once = unfold IsOnce in tt })
