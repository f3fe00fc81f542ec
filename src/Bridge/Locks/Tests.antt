-- ===== src/Bridge/Locks/Tests.antt =====
-- Three calls: one holds the lock, one gives up, one gets the lock after both.
use wordpress.Common.{List, [], length, refl, ◌++◌, ◌∷◌, ◌≡◌}
use wordpress.Bridge.Locks.{
  MutexEvent, acquire, after_prev, at_slot, changed, expire, give_up, held, in_front, is_over,
  mutex_run, mutex_step, new_mutex, pending, place_left, prev_won, settle, stop_waiting, timed_out,
  timer_won, win,
}
use wordpress.Bridge.Locks.Served.{AllOver, Excludes, mutex_run-Excludes}
use wordpress.Bridge.Locks.Turns.{mutex_run-turns, turns}

abbrev three_calls : List MutexEvent
three_calls = acquire ∷ prev_won 0 ∷ acquire ∷ acquire ∷ timer_won 1 ∷ []

holder_first :
    mutex_run new_mutex three_calls
    ≡ record { queue = held ∷ timed_out ∷ pending ∷ []; waiting = 1 }
unfolding mutex_run mutex_step after_prev at_slot changed in_front is_over win expire stop_waiting
holder_first = refl

too_early :
    mutex_run new_mutex (three_calls ++ place_left 1 ∷ prev_won 2 ∷ [])
    ≡ mutex_run new_mutex three_calls
unfolding mutex_run mutex_step after_prev at_slot changed in_front is_over win expire stop_waiting
    settle give_up
too_early = refl

mutex_run-Excludes_example : Excludes (mutex_run new_mutex three_calls)
mutex_run-Excludes_example = mutex_run-Excludes three_calls

mutex_run-turns_example :
    let m = mutex_run new_mutex three_calls in
    let end = mutex_run m (turns 0 (length m.queue)) in AllOver end.queue × (end.waiting ≡ 0)
mutex_run-turns_example = mutex_run-turns three_calls
