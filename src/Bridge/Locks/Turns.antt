-- ===== src/Bridge/Locks/Turns.antt =====
-- Nobody waits for ever: once the callers release, the whole chain settles.
use wordpress.Common.{
  List, Option, [], ap, arith, length, none, or_else, refl, some, suc, zero, ℕ, ◌∙◌, ◌∷◌, ◌≡◌,
}
use wordpress.Bridge.Locks.{
  Mutex, MutexEvent, Slot, after_prev, at_slot, changed, give_up, held, in_front, is_over,
  lock_released, mutex_run, mutex_step, new_mutex, over, pending, place_left, prev_won, release,
  settle, stop_waiting, timed_out, win,
}
use wordpress.Bridge.Locks.Exclusion.{Queued, is_pending, pendings}
use wordpress.Bridge.Locks.Served.{AllOver, Orderly-run}

-- The chance that the slot with the number `i` gets: the callbacks of its `prev`, then a release
-- by its caller.
unfoldable pub turn : ℕ → List MutexEvent → List MutexEvent
turn i es = prev_won i ∷ place_left i ∷ lock_released i ∷ es

-- The chances of so many slots, from the number `i` on.
unfoldable pub turns : ℕ → ℕ → List MutexEvent
turns i zero = []
turns i (suc n) = turn i (turns (suc i) n)

-- The slots behind so many that are over.
unfoldable overs : ℕ → List Slot → List Slot
overs zero ss = ss
overs (suc k) ss = over ∷ overs k ss

overs-over : (k : ℕ) (ss : List Slot) → overs k (over ∷ ss) ≡ overs (suc k) ss
unfolding overs
overs-over zero ss = refl
overs-over (suc k) ss = ap (λ ts. over ∷ ts) (overs-over k ss)

AllOver-overs : (k : ℕ) → AllOver (overs k [])
unfolding overs AllOver is_over
AllOver-overs zero = tt
AllOver-overs (suc k) = (refl, AllOver-overs k)

or_else-in_front :
    (s : Slot) (o : Option (List Slot)) (ss : List Slot)
    → or_else (in_front s o) (s ∷ ss) ≡ s ∷ or_else o ss
unfolding in_front
or_else-in_front s none ss = refl
or_else-in_front s (some ts) ss = refl

or_else-changed :
    (o : Option Slot) (s : Slot) (ss : List Slot)
    → or_else (changed ss o) (s ∷ ss) ≡ or_else o s ∷ ss
unfolding changed
or_else-changed none s ss = refl
or_else-changed (some t) s ss = refl

module _ (f : Slot → Option Slot) (s : Slot) (ss : List Slot) where
  after_prev-overs :
      (k : ℕ)
      → or_else (after_prev f k (overs k (s ∷ ss))) (overs k (s ∷ ss))
        ≡ overs k (or_else (f s) s ∷ ss)
  unfolding after_prev overs is_over
  after_prev-overs zero = or_else-changed (f s) s ss
  after_prev-overs (suc k) =
      or_else-in_front over (after_prev f k (overs k (s ∷ ss))) (overs k (s ∷ ss))
      ∙ ap (λ ts. over ∷ ts) (after_prev-overs k)

  at_slot-overs :
      (k : ℕ)
      → or_else (at_slot f k (overs k (s ∷ ss))) (overs k (s ∷ ss)) ≡ overs k (or_else (f s) s ∷ ss)
  unfolding at_slot overs
  at_slot-overs zero = or_else-changed (f s) s ss
  at_slot-overs (suc k) =
      or_else-in_front over (at_slot f k (overs k (s ∷ ss))) (overs k (s ∷ ss))
      ∙ ap (λ ts. over ∷ ts) (at_slot-overs k)

queue-stop_waiting :
    (m : Mutex) (o : Option (List Slot)) → (stop_waiting m o).queue ≡ or_else o m.queue
unfolding stop_waiting
queue-stop_waiting m none = refl
queue-stop_waiting m (some ss) = refl

queue-settle : (m : Mutex) (o : Option (List Slot)) → (settle m o).queue ≡ or_else o m.queue
unfolding settle
queue-settle m none = refl
queue-settle m (some ss) = refl

-- Whatever the slot is, its chance leaves it over.
chance_over :
    (s : Slot)
    → (let won = or_else (win s) s in
        let left = or_else (give_up won) won in or_else (release left) left)
      ≡ over
unfolding win give_up release
chance_over pending = refl
chance_over timed_out = refl
chance_over held = refl
chance_over over = refl

module _ (s : Slot) (ss : List Slot) (k : ℕ) (m : Mutex) (h : m.queue ≡ overs k (s ∷ ss)) where
  queue-prev_won : (mutex_step m (prev_won k)).queue ≡ overs k (or_else (win s) s ∷ ss)
  unfolding mutex_step
  queue-prev_won =
      queue-stop_waiting m (after_prev win k m.queue) ∙ rw h (after_prev-overs win s ss k)

  queue-place_left : (mutex_step m (place_left k)).queue ≡ overs k (or_else (give_up s) s ∷ ss)
  unfolding mutex_step
  queue-place_left =
      queue-settle m (after_prev give_up k m.queue) ∙ rw h (after_prev-overs give_up s ss k)

  queue-lock_released :
      (mutex_step m (lock_released k)).queue ≡ overs k (or_else (release s) s ∷ ss)
  unfolding mutex_step
  queue-lock_released =
      queue-settle m (at_slot release k m.queue) ∙ rw h (at_slot-overs release s ss k)

queue-turn :
    (s : Slot) (ss : List Slot) (k : ℕ) (m : Mutex)
    → m.queue ≡ overs k (s ∷ ss)
    → (mutex_run m (turn k [])).queue ≡ overs (suc k) ss
unfolding mutex_run turn
queue-turn s ss k m h =
    let won = or_else (win s) s in
    let left = or_else (give_up won) won in
    let after_won = mutex_step m (prev_won k) in
    let after_left = mutex_step after_won (place_left k) in
    queue-lock_released left ss k after_left
      (queue-place_left won ss k after_won (queue-prev_won s ss k m h))
    ∙ ap (λ t. overs k (t ∷ ss)) (chance_over s)
    ∙ overs-over k ss

queue-turns :
    (ss : List Slot) (k : ℕ) (m : Mutex)
    → m.queue ≡ overs k ss
    → AllOver (mutex_run m (turns k (length ss))).queue
unfolding turns turn mutex_run
queue-turns [] k m h = rw h (AllOver-overs k)
queue-turns (s ∷ ss) k m h =
    queue-turns ss (suc k) (mutex_run m (turn k [])) (queue-turn s ss k m h)

no_pendings : (ss : List Slot) → AllOver ss → pendings ss ≡ 0
unfolding AllOver is_over pendings is_pending
no_pendings [] h = refl
no_pendings (pending ∷ ss) (a, h) = ground (arith, a)
no_pendings (timed_out ∷ ss) (a, h) = no_pendings ss h
no_pendings (held ∷ ss) (a, h) = no_pendings ss h
no_pendings (over ∷ ss) (a, h) = no_pendings ss h

-- However a mutex was used from the start, once every slot in turn has had the callbacks of its
-- `prev` run and its caller release, every slot is over and nobody waits.
pub mutex_run-turns :
    (es : List MutexEvent)
    → (let m = mutex_run new_mutex es in
        let end = mutex_run m (turns 0 (length m.queue)) in AllOver end.queue × (end.waiting ≡ 0))
unfolding overs Queued pendings
mutex_run-turns es =
    let m = mutex_run new_mutex es in
    let settled = queue-turns m.queue 0 m refl in
    let start = Orderly-run new_mutex es (record { apart = tt; counted = refl }) in
    let h = Orderly-run m (turns 0 (length m.queue)) start in
    (settled, h.counted ∙ no_pendings (mutex_run m (turns 0 (length m.queue))).queue settled)
