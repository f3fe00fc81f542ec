-- ===== src/Frontend/Toasts/Removal.antt =====
-- A dismissed toast goes when its timer runs out.
use wordpress.Common.{
  Bool, Bool-cases, List, Option, String, [], all, any, arith, eq_iff, false, inl, inr, keep, none,
  not, refl, some, str_eq_refl, true, ◌==◌, ◌∷◌, ◌≡◌,
}
use wordpress.Frontend.Toasts.{
  Toast, ToastAction, ToastEvent, ToastState, add_to_remove_queue, add_toast, dismiss_toast,
  dispatched, fire_timeout, has_timeout, queue_all, queue_dismissed, reducer, remove_toast,
  removed_by, timed_out, toast_run, toast_step, update_toast,
}
use wordpress.Frontend.Toasts.Limit.{any-append}

has_timeout-add :
    (id j : String) (ts : List String)
    → has_timeout j ts ≡ true
    → has_timeout j (add_to_remove_queue id ts) ≡ true
unfolding has_timeout add_to_remove_queue
has_timeout-add id j ts h = ground (arith, h, any-append j ts (id ∷ []))

has_timeout-add_self :
    (id : String) (ts : List String) → has_timeout id (add_to_remove_queue id ts) ≡ true
unfolding has_timeout add_to_remove_queue
has_timeout-add_self id ts = ground (arith, any-append id ts (id ∷ []), str_eq_refl id)

has_timeout-queue_all :
    (j : String) (toasts : List Toast) (ts : List String)
    → has_timeout j ts ≡ true
    → has_timeout j (queue_all toasts ts) ≡ true
unfolding queue_all
has_timeout-queue_all j [] ts h = h
has_timeout-queue_all j (t ∷ toasts) ts h =
    has_timeout-queue_all j toasts (add_to_remove_queue t.id ts) (has_timeout-add t.id j ts h)

has_timeout-queue_dismissed :
    (j : String) (id : Option String) (s : ToastState)
    → has_timeout j s.timeouts ≡ true
    → has_timeout j (queue_dismissed id s) ≡ true
unfolding queue_dismissed
has_timeout-queue_dismissed j none s h = has_timeout-queue_all j s.toasts s.timeouts h
has_timeout-queue_dismissed j (some id) s h = elim (Bool-cases (id == "")) [
  | inl blank ↦ rw blank (has_timeout-queue_all j s.toasts s.timeouts h)
  | inr given ↦ rw given (has_timeout-add id j s.timeouts h)
]

has_timeout-keep :
    (id j : String) (ts : List String)
    → (id == j) ≡ false
    → has_timeout j ts ≡ true
    → has_timeout j (keep (λ t. not (t == id)) ts) ≡ true
unfolding has_timeout
has_timeout-keep id j [] n h = h
has_timeout-keep id j (t ∷ ts) n h =
    ground (arith, eq_iff t id, eq_iff t j, eq_iff id j, has_timeout-keep id j ts n)

-- The event is not the timer of the id.
abbrev pub is_other : String → ToastEvent → Bool
is_other id (dispatched a) = true
is_other id (timed_out j) = not (j == id)

has_timeout-reducer :
    (j : String) (s : ToastState) (a : ToastAction)
    → has_timeout j s.timeouts ≡ true
    → has_timeout j (reducer s a).timeouts ≡ true
unfolding reducer
has_timeout-reducer j s (add_toast t) h = h
has_timeout-reducer j s (update_toast p) h = h
has_timeout-reducer j s (dismiss_toast id) h = has_timeout-queue_dismissed j id s h
has_timeout-reducer j s (remove_toast id) h = h

has_timeout-toast_step :
    (j : String) (s : ToastState) (e : ToastEvent)
    → is_other j e ≡ true
    → has_timeout j s.timeouts ≡ true
    → has_timeout j (toast_step s e).timeouts ≡ true
unfolding toast_step fire_timeout reducer
has_timeout-toast_step j s (dispatched a) o h = has_timeout-reducer j s a h
has_timeout-toast_step j s (timed_out id) o h = elim (Bool-cases (has_timeout id s.timeouts)) [
  | inr absent ↦ rw absent h
  | inl there ↦ rw there (has_timeout-keep id j s.timeouts (ground (arith, o)) h)
]

has_timeout-toast_run :
    (j : String) (s : ToastState) (es : List ToastEvent)
    → all (is_other j) es ≡ true
    → has_timeout j s.timeouts ≡ true
    → has_timeout j (toast_run s es).timeouts ≡ true
unfolding toast_run
has_timeout-toast_run j s [] o h = h
has_timeout-toast_run j s (e ∷ es) o h =
    has_timeout-toast_run j (toast_step s e) es (ground (arith, o))
      (has_timeout-toast_step j s e (ground (arith, o)) h)

any-removed :
    (id : String) (toasts : List Toast)
    → any (λ t. t.id == id) (keep (λ t. not (t.id == id)) toasts) ≡ false
any-removed id [] = refl
any-removed id (t ∷ toasts) = ground (arith, any-removed id toasts)

-- When a toast is dismissed by an id that is not empty, its timer runs through whatever happens before
-- it runs out, and when it runs out no toast with the id is left.
pub dismissed_goes :
    (s : ToastState) (id : String) (es : List ToastEvent)
    → (id == "") ≡ false
    → all (is_other id) es ≡ true
    → any
        (λ t. t.id == id)
        (toast_step (toast_run (reducer s (dismiss_toast (some id))) es) (timed_out id)).toasts
      ≡ false
unfolding toast_step fire_timeout removed_by
dismissed_goes s id es given o =
    let t = toast_run (reducer s (dismiss_toast (some id))) es in
    let queued : has_timeout id (reducer s (dismiss_toast (some id))).timeouts ≡ true =
      unfold reducer queue_dismissed in rw given (has_timeout-add_self id s.timeouts) in
    let there = has_timeout-toast_run id (reducer s (dismiss_toast (some id))) es o queued in
    rw there (unfold reducer in any-removed id t.toasts)
