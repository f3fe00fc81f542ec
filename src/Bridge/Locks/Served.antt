-- ===== src/Bridge/Locks/Served.antt =====
-- The mutex excludes: one caller at a time holds it, in the order of the calls.
use wordpress.Common.{
  All, All-append, List, Option, [], arith, false, get_elem?, keep, length, none, refl, some, suc,
  take, true, zero, ℕ, ◌++◌, ◌+◌, ◌∷◌, ◌≡◌, ◌≤◌,
}
use wordpress.Bridge.Locks.{
  Mutex, MutexEvent, Slot, acquire, after_prev, at_slot, changed, expire, give_up, held, is_over,
  lock_released, mutex_run, mutex_step, new_mutex, over, pending, place_left, prev_won, release,
  settle, stop_waiting, timed_out, timer_won, win,
}
use wordpress.Bridge.Locks.Exclusion.{
  Ends, IfSome, IsFree, KeepsApart, Queued, Queued-after_prev, Queued-at_slot, Queued-free,
  TakesNone, is_held, is_pending, pendings, pendings-after_prev, pendings-at_slot,
}

KeepsApart-win : KeepsApart win
unfolding KeepsApart Queued IsFree IfSome changed win is_over
KeepsApart-win pending ss h = h
KeepsApart-win timed_out ss h = tt
KeepsApart-win held ss h = tt
KeepsApart-win over ss h = tt

KeepsApart-expire : KeepsApart expire
unfolding KeepsApart Queued IsFree IfSome changed expire is_over
KeepsApart-expire pending ss h = h
KeepsApart-expire timed_out ss h = tt
KeepsApart-expire held ss h = tt
KeepsApart-expire over ss h = tt

KeepsApart-give_up : KeepsApart give_up
unfolding KeepsApart Queued IsFree IfSome changed give_up is_over
KeepsApart-give_up pending ss h = tt
KeepsApart-give_up timed_out ss h = Queued-free ss h
KeepsApart-give_up held ss h = tt
KeepsApart-give_up over ss h = tt

KeepsApart-release : KeepsApart release
unfolding KeepsApart Queued IsFree IfSome changed release is_over
KeepsApart-release pending ss h = tt
KeepsApart-release timed_out ss h = tt
KeepsApart-release held ss h = Queued-free ss h
KeepsApart-release over ss h = tt

TakesNone-expire : TakesNone expire
unfolding TakesNone IsFree IfSome changed expire is_held
TakesNone-expire pending ss (_, h) = (refl, h)
TakesNone-expire timed_out ss h = tt
TakesNone-expire held ss h = tt
TakesNone-expire over ss h = tt

TakesNone-release : TakesNone release
unfolding TakesNone IsFree IfSome changed release is_held
TakesNone-release pending ss h = tt
TakesNone-release timed_out ss h = tt
TakesNone-release held ss (_, h) = (refl, h)
TakesNone-release over ss h = tt

Ends-win : Ends 1 win
unfolding Ends IfSome changed win pendings is_pending
Ends-win pending ss = omega arith
Ends-win timed_out ss = tt
Ends-win held ss = tt
Ends-win over ss = tt

Ends-expire : Ends 1 expire
unfolding Ends IfSome changed expire pendings is_pending
Ends-expire pending ss = omega arith
Ends-expire timed_out ss = tt
Ends-expire held ss = tt
Ends-expire over ss = tt

Ends-give_up : Ends 0 give_up
unfolding Ends IfSome changed give_up pendings is_pending
Ends-give_up pending ss = tt
Ends-give_up timed_out ss = omega arith
Ends-give_up held ss = tt
Ends-give_up over ss = tt

Ends-release : Ends 0 release
unfolding Ends IfSome changed release pendings is_pending
Ends-release pending ss = tt
Ends-release timed_out ss = tt
Ends-release held ss = omega arith
Ends-release over ss = tt

pub record Orderly (m : Mutex) : Type 0 where
  pub apart : Queued m.queue
  pub counted : m.waiting ≡ pendings m.queue

Orderly-stop_waiting :
    (m : Mutex) (o : Option (List Slot))
    → Orderly m
    → IfSome Queued o
    → IfSome (λ ts. pendings ts + 1 ≡ pendings m.queue) o
    → Orderly (stop_waiting m o)
unfolding stop_waiting IfSome
Orderly-stop_waiting m none h q n = h
Orderly-stop_waiting m (some ss) h q n = record { apart = q; counted = omega (arith, h.counted, n) }

Orderly-settle :
    (m : Mutex) (o : Option (List Slot))
    → Orderly m
    → IfSome Queued o
    → IfSome (λ ts. pendings ts + 0 ≡ pendings m.queue) o
    → Orderly (settle m o)
unfolding settle IfSome
Orderly-settle m none h q n = h
Orderly-settle m (some ss) h q n = record { apart = q; counted = omega (arith, h.counted, n) }

IsFree-joined : (ss : List Slot) → IsFree ss → IsFree (ss ++ pending ∷ [])
unfolding IsFree is_held
IsFree-joined ss h = All-append (λ s. is_held s ≡ false) ss (pending ∷ []) h (refl, tt)

Queued-joined : (ss : List Slot) → Queued ss → Queued (ss ++ pending ∷ [])
unfolding Queued is_over IsFree
Queued-joined [] h = tt
Queued-joined (pending ∷ ss) h = IsFree-joined ss h
Queued-joined (timed_out ∷ ss) h = IsFree-joined ss h
Queued-joined (held ∷ ss) h = IsFree-joined ss h
Queued-joined (over ∷ ss) h = Queued-joined ss h

pendings-joined : (ss : List Slot) → pendings (ss ++ pending ∷ []) ≡ pendings ss + 1
unfolding pendings is_pending
pendings-joined [] = refl
pendings-joined (pending ∷ ss) = omega (arith, pendings-joined ss)
pendings-joined (timed_out ∷ ss) = pendings-joined ss
pendings-joined (held ∷ ss) = pendings-joined ss
pendings-joined (over ∷ ss) = pendings-joined ss

Orderly-step : (m : Mutex) (e : MutexEvent) → Orderly m → Orderly (mutex_step m e)
unfolding mutex_step
Orderly-step m acquire h = record {
  apart = Queued-joined m.queue h.apart;
  counted = omega (arith, h.counted, pendings-joined m.queue);
}
Orderly-step m (prev_won i) h =
    Orderly-stop_waiting m (after_prev win i m.queue) h
      (Queued-after_prev win i m.queue KeepsApart-win h.apart)
      (pendings-after_prev win 1 i m.queue Ends-win)
Orderly-step m (timer_won i) h =
    Orderly-stop_waiting m (at_slot expire i m.queue) h
      (Queued-at_slot expire i m.queue KeepsApart-expire TakesNone-expire h.apart)
      (pendings-at_slot expire 1 i m.queue Ends-expire)
Orderly-step m (place_left i) h =
    Orderly-settle m (after_prev give_up i m.queue) h
      (Queued-after_prev give_up i m.queue KeepsApart-give_up h.apart)
      (pendings-after_prev give_up 0 i m.queue Ends-give_up)
Orderly-step m (lock_released i) h =
    Orderly-settle m (at_slot release i m.queue) h
      (Queued-at_slot release i m.queue KeepsApart-release TakesNone-release h.apart)
      (pendings-at_slot release 0 i m.queue Ends-release)

pub Orderly-run : (m : Mutex) (es : List MutexEvent) → Orderly m → Orderly (mutex_run m es)
unfolding mutex_run
Orderly-run m [] h = h
Orderly-run m (e ∷ es) h = Orderly-run (mutex_step m e) es (Orderly-step m e h)

none_held : (ss : List Slot) → IsFree ss → length (keep is_held ss) ≡ 0
unfolding IsFree
none_held [] h = refl
none_held (s ∷ ss) (a, h) = ground (arith, a, none_held ss h)

one_held : (ss : List Slot) → Queued ss → length (keep is_held ss) ≤ 1
unfolding Queued is_over is_held
one_held [] h = omega arith
one_held (pending ∷ ss) h = omega (arith, none_held ss h)
one_held (timed_out ∷ ss) h = omega (arith, none_held ss h)
one_held (held ∷ ss) h = omega (arith, none_held ss h)
one_held (over ∷ ss) h = one_held ss h

not_held : (ss : List Slot) (i : ℕ) → IsFree ss → ¬ (get_elem? ss i ≡ some held)
unfolding IsFree is_held
not_held [] i h e = ground (arith, e)
not_held (s ∷ ss) zero (a, h) e = ground (arith, a, e)
not_held (s ∷ ss) (suc i) (_, h) e = not_held ss i h e

unfoldable pub AllOver : List Slot → Type 0
AllOver ss = All (λ s. is_over s ≡ true) ss

held_turn : (ss : List Slot) (i : ℕ) → Queued ss → get_elem? ss i ≡ some held → AllOver (take i ss)
unfolding Queued is_over AllOver
held_turn [] zero h e = tt
held_turn [] (suc i) h e = tt
held_turn (s ∷ ss) zero h e = tt
held_turn (pending ∷ ss) (suc i) h e = absurd (not_held ss i h e)
held_turn (timed_out ∷ ss) (suc i) h e = absurd (not_held ss i h e)
held_turn (held ∷ ss) (suc i) h e = absurd (not_held ss i h e)
held_turn (over ∷ ss) (suc i) h e = (refl, held_turn ss i h e)

-- One slot holds the lock at most, every slot before it is over, and `waiting` counts the slots
-- that wait.
pub record Excludes (m : Mutex) : Type 0 where
  one : length (keep is_held m.queue) ≤ 1
  in_turn : (i : ℕ) → get_elem? m.queue i ≡ some held → AllOver (take i m.queue)
  counted : m.waiting ≡ pendings m.queue

-- However a mutex is used from the start, one caller at most holds the lock, every call before
-- the holder's is over, and `waiting` is the number of the calls that wait.
pub mutex_run-Excludes : (es : List MutexEvent) → Excludes (mutex_run new_mutex es)
unfolding Queued pendings
mutex_run-Excludes es =
    let h = Orderly-run new_mutex es (record { apart = tt; counted = refl }) in
    record {
      one = one_held (mutex_run new_mutex es).queue h.apart;
      in_turn = λ i e. held_turn (mutex_run new_mutex es).queue i h.apart e;
      counted = h.counted;
    }
