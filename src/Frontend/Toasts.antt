-- ===== src/Frontend/Toasts.antt =====
-- The toasts of the interface: frontend/src/hooks/use-toast.js, the reducer and the timers that
-- remove dismissed toasts. Of a toast the id and `open` are modelled, and one text for its other
-- properties; the React hook and its listeners are not.
pub mod Limit
pub mod Removal
pub mod Tests
use wordpress.Common.{
  Bool, List, Option, String, [], any, false, if◌then◌else◌, keep, map, none, not, or_else, some,
  take, ℕ, ◌++◌, ◌==◌, ◌∷◌,
}

pub record Toast : Type 0 where
  pub id : String
  pub open_now : Bool
  pub title : Option String

-- A patch of `update`: properties that are not given stay.
pub record ToastPatch : Type 0 where
  pub id : String
  pub open_now : Option Bool
  pub title : Option (Option String)

-- `memoryState.toasts`, and the keys of `toastTimeouts`, each with a timer that runs.
pub record ToastState : Type 0 where
  pub toasts : List Toast
  pub timeouts : List String

pub data ToastAction : Type 0 where
  add_toast : Toast → ToastAction
  update_toast : ToastPatch → ToastAction
  dismiss_toast remove_toast : Option String → ToastAction

abbrev pub toast_limit : ℕ
toast_limit = 1

-- `toastTimeouts.has(toastId)`
unfoldable pub has_timeout : String → List String → Bool
has_timeout id ts = any (λ t. t == id) ts

unfoldable pub add_to_remove_queue : String → List String → List String
unfolding has_timeout
add_to_remove_queue id ts = if has_timeout id ts then ts else ts ++ id ∷ []

unfoldable pub queue_all : List Toast → List String → List String
unfolding add_to_remove_queue
queue_all [] ts = ts
queue_all (t ∷ toasts) ts = queue_all toasts (add_to_remove_queue t.id ts)

-- `{ ...t, ...action.toast }` where the ids agree.
unfoldable pub patched : ToastPatch → Toast → Toast
patched p t =
    if t.id == p.id
    then record {
      id = t.id;
      open_now = or_else p.open_now t.open_now;
      title = or_else p.title t.title;
    }
    else t

-- `t.id === toastId || toastId === undefined`
unfoldable pub closed_by : Option String → Toast → Toast
closed_by none t = record t { open_now = false }
closed_by (some id) t = if t.id == id then record t { open_now = false } else t

-- `if (toastId) … else …`: the empty text counts as no id here.
unfoldable pub queue_dismissed : Option String → ToastState → List String
unfolding add_to_remove_queue queue_all
queue_dismissed none s = queue_all s.toasts s.timeouts
queue_dismissed (some id) s =
    if id == "" then queue_all s.toasts s.timeouts else add_to_remove_queue id s.timeouts

unfoldable pub removed_by : Option String → List Toast → List Toast
removed_by none toasts = []
removed_by (some id) toasts = keep (λ t. not (t.id == id)) toasts

unfoldable pub reducer : ToastState → ToastAction → ToastState
unfolding patched closed_by queue_dismissed removed_by
reducer s (add_toast t) = record s { toasts = take toast_limit (t ∷ s.toasts) }
reducer s (update_toast p) = record s { toasts = map (patched p) s.toasts }
reducer s (dismiss_toast id) = record {
  toasts = map (closed_by id) s.toasts;
  timeouts = queue_dismissed id s;
}
reducer s (remove_toast id) = record s { toasts = removed_by id s.toasts }

-- The timer of an id: `toastTimeouts.delete(toastId)`, then `REMOVE_TOAST`.
unfoldable pub fire_timeout : ToastState → String → ToastState
unfolding reducer
fire_timeout s id =
    reducer (record s { timeouts = keep (λ t. not (t == id)) s.timeouts }) (remove_toast (some id))

-- What happens to the state: a dispatched action, or a timer that runs out.
pub data ToastEvent : Type 0 where
  dispatched : ToastAction → ToastEvent
  timed_out : String → ToastEvent

unfoldable pub toast_step : ToastState → ToastEvent → ToastState
unfolding reducer fire_timeout
toast_step s (dispatched a) = reducer s a
toast_step s (timed_out id) = if has_timeout id s.timeouts then fire_timeout s id else s

unfoldable pub toast_run : ToastState → List ToastEvent → ToastState
unfolding toast_step
toast_run s [] = s
toast_run s (e ∷ es) = toast_run (toast_step s e) es
