-- ===== src/Bridge/Locks.antt =====
-- automation-bridge/src/core/lock.ts, the mutex of a named lock inside one process. Each call of
-- `acquire` is a slot, in the order of the calls: the chain of promises that `queue` is. The
-- promise `prev` of a slot is settled when every slot before it is over, that is, has called its
-- own `release`. A callback of a settled promise, a timer that fires and a call of `release` are
-- events, which come in any order; one that the code cannot make then changes nothing. The lock
-- file, which is for other processes, is not modelled.
pub mod Exclusion
pub mod Served
pub mod Turns
mod Tests
use wordpress.Common.{
  Bool, List, Option, [], false, if◌then◌else◌, none, some, suc, true, zero, ℕ, ◌++◌, ◌+◌, ◌-◌, ◌∷◌,
}

-- A call that waits, one that was told LOCKED and still has its place, one that holds the lock,
-- and one that has released it or its place.
pub data Slot : Type 0 where
  pending : Slot
  timed_out : Slot
  held : Slot
  over : Slot

pub record Mutex : Type 0 where
  pub queue : List Slot
  pub waiting : ℕ

abbrev pub new_mutex : Mutex
new_mutex = record { queue = []; waiting = 0 }

-- `prev` wins the race: the caller gets `release`.
unfoldable pub win : Slot → Option Slot
win pending = some held
win timed_out = none
win held = none
win over = none

-- The timer wins the race: the caller is told LOCKED.
unfoldable pub expire : Slot → Option Slot
expire pending = some timed_out
expire timed_out = none
expire held = none
expire over = none

-- `prev.then(() => release())` of a call that gave up.
unfoldable pub give_up : Slot → Option Slot
give_up pending = none
give_up timed_out = some over
give_up held = none
give_up over = none

-- The caller's own call of `release`; another one settles nothing.
unfoldable pub release : Slot → Option Slot
release pending = none
release timed_out = none
release held = some over
release over = none

unfoldable pub is_over : Slot → Bool
is_over pending = false
is_over timed_out = false
is_over held = false
is_over over = true

unfoldable pub in_front : Slot → Option (List Slot) → Option (List Slot)
in_front s none = none
in_front s (some ss) = some (s ∷ ss)

unfoldable pub changed : List Slot → Option Slot → Option (List Slot)
changed ss none = none
changed ss (some s) = some (s ∷ ss)

-- What happens to the slot with the given number, at any time.
unfoldable pub at_slot : (Slot → Option Slot) → ℕ → List Slot → Option (List Slot)
at_slot f i [] = none
at_slot f zero (s ∷ ss) = changed ss (f s)
at_slot f (suc i) (s ∷ ss) = in_front s (at_slot f i ss)

-- What happens to it once `prev` is settled.
unfoldable pub after_prev : (Slot → Option Slot) → ℕ → List Slot → Option (List Slot)
after_prev f i [] = none
after_prev f zero (s ∷ ss) = changed ss (f s)
after_prev f (suc i) (s ∷ ss) = if is_over s then in_front s (after_prev f i ss) else none

pub data MutexEvent : Type 0 where
  acquire : MutexEvent
  prev_won : ℕ → MutexEvent
  timer_won : ℕ → MutexEvent
  place_left : ℕ → MutexEvent
  lock_released : ℕ → MutexEvent

unfoldable pub stop_waiting : Mutex → Option (List Slot) → Mutex
stop_waiting m none = m
stop_waiting m (some ss) = record { queue = ss; waiting = m.waiting - 1 }

unfoldable pub settle : Mutex → Option (List Slot) → Mutex
settle m none = m
settle m (some ss) = record m { queue = ss }

unfoldable pub mutex_step : Mutex → MutexEvent → Mutex
mutex_step m acquire = record { queue = m.queue ++ pending ∷ []; waiting = m.waiting + 1 }
mutex_step m (prev_won i) = stop_waiting m (after_prev win i m.queue)
mutex_step m (timer_won i) = stop_waiting m (at_slot expire i m.queue)
mutex_step m (place_left i) = settle m (after_prev give_up i m.queue)
mutex_step m (lock_released i) = settle m (at_slot release i m.queue)

unfoldable pub mutex_run : Mutex → List MutexEvent → Mutex
mutex_run m [] = m
mutex_run m (e ∷ es) = mutex_run (mutex_step m e) es
