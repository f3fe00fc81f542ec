-- ===== src/Bridge/Locks/Exclusion.antt =====
-- What one slot does leaves the others in their order, and one of them with the lock at most.
use wordpress.Common.{
  All, Bool, List, Option, [], arith, false, if◌then◌else◌, keep, length, none, some, suc, true,
  zero, ℕ, ◌+◌, ◌∷◌, ◌≡◌,
}
use wordpress.Bridge.Locks.{
  Slot, after_prev, at_slot, changed, held, in_front, is_over, over, pending, timed_out,
}

unfoldable pub is_held : Slot → Bool
is_held pending = false
is_held timed_out = false
is_held held = true
is_held over = false

unfoldable pub is_pending : Slot → Bool
is_pending pending = true
is_pending timed_out = false
is_pending held = false
is_pending over = false

-- No slot is held.
unfoldable pub IsFree : List Slot → Type 0
IsFree ss = All (λ s. is_held s ≡ false) ss

-- Behind the first slot that is not over, no slot is held.
unfoldable pub Queued : List Slot → Type 0
Queued [] = Unit
Queued (s ∷ ss) = if is_over s then Queued ss else IsFree ss

-- The number of the slots that wait.
unfoldable pub pendings : List Slot → ℕ
pendings ss = length (keep is_pending ss)

-- Of a result, if there is one.
unfoldable pub IfSome : (List Slot → Type 0) → Option (List Slot) → Type 0
IfSome P none = Unit
IfSome P (some ss) = P ss

IfSome-in_front :
    (P Q : List Slot → Type 0) (s : Slot) (o : Option (List Slot))
    → ((ss : List Slot) → P ss → Q (s ∷ ss))
    → IfSome P o
    → IfSome Q (in_front s o)
unfolding IfSome in_front
IfSome-in_front P Q s none k h = tt
IfSome-in_front P Q s (some ss) k h = k ss h

pub Queued-free : (ss : List Slot) → IsFree ss → Queued ss
unfolding Queued IsFree is_over
Queued-free [] h = tt
Queued-free (pending ∷ ss) (_, h) = h
Queued-free (timed_out ∷ ss) (_, h) = h
Queued-free (held ∷ ss) (_, h) = h
Queued-free (over ∷ ss) (_, h) = Queued-free ss h

-- What one slot does keeps the others apart.
unfoldable pub KeepsApart : (Slot → Option Slot) → Type 0
KeepsApart f = (s : Slot) (ss : List Slot) → Queued (s ∷ ss) → IfSome Queued (changed ss (f s))

-- What a slot that is not held does takes nothing.
unfoldable pub TakesNone : (Slot → Option Slot) → Type 0
TakesNone f = (s : Slot) (ss : List Slot) → IsFree (s ∷ ss) → IfSome IsFree (changed ss (f s))

-- What one slot does ends so many waits.
unfoldable pub Ends : ℕ → (Slot → Option Slot) → Type 0
Ends n f =
    (s : Slot) (ss : List Slot)
    → IfSome (λ ts. pendings ts + n ≡ pendings (s ∷ ss)) (changed ss (f s))

pendings-under :
    (n : ℕ) (s : Slot) (ss ts : List Slot)
    → pendings ts + n ≡ pendings ss
    → pendings (s ∷ ts) + n ≡ pendings (s ∷ ss)
unfolding pendings is_pending
pendings-under n pending ss ts h = omega (arith, h)
pendings-under n timed_out ss ts h = h
pendings-under n held ss ts h = h
pendings-under n over ss ts h = h

module _ (f : Slot → Option Slot) where
  pub Queued-after_prev :
      (i : ℕ) (ss : List Slot) → KeepsApart f → Queued ss → IfSome Queued (after_prev f i ss)
  unfolding IfSome KeepsApart after_prev Queued is_over
  Queued-after_prev i [] k h = tt
  Queued-after_prev zero (s ∷ ss) k h = k s ss h
  Queued-after_prev (suc i) (pending ∷ ss) k h = tt
  Queued-after_prev (suc i) (timed_out ∷ ss) k h = tt
  Queued-after_prev (suc i) (held ∷ ss) k h = tt
  Queued-after_prev (suc i) (over ∷ ss) k h =
      IfSome-in_front Queued Queued over (after_prev f i ss) (λ ts g. g)
        (Queued-after_prev i ss k h)

  IsFree-at_slot :
      (i : ℕ) (ss : List Slot) → TakesNone f → IsFree ss → IfSome IsFree (at_slot f i ss)
  unfolding IfSome TakesNone at_slot IsFree
  IsFree-at_slot i [] k h = tt
  IsFree-at_slot zero (s ∷ ss) k h = k s ss h
  IsFree-at_slot (suc i) (s ∷ ss) k (a, h) =
      IfSome-in_front IsFree IsFree s (at_slot f i ss) (λ ts g. (a, g)) (IsFree-at_slot i ss k h)

  pub Queued-at_slot :
      (i : ℕ) (ss : List Slot)
      → KeepsApart f
      → TakesNone f
      → Queued ss
      → IfSome Queued (at_slot f i ss)
  unfolding IfSome KeepsApart at_slot Queued is_over
  Queued-at_slot i [] k t h = tt
  Queued-at_slot zero (s ∷ ss) k t h = k s ss h
  Queued-at_slot (suc i) (pending ∷ ss) k t h =
      IfSome-in_front IsFree Queued pending (at_slot f i ss) (λ ts g. g) (IsFree-at_slot i ss t h)
  Queued-at_slot (suc i) (timed_out ∷ ss) k t h =
      IfSome-in_front IsFree Queued timed_out (at_slot f i ss) (λ ts g. g) (IsFree-at_slot i ss t h)
  Queued-at_slot (suc i) (held ∷ ss) k t h =
      IfSome-in_front IsFree Queued held (at_slot f i ss) (λ ts g. g) (IsFree-at_slot i ss t h)
  Queued-at_slot (suc i) (over ∷ ss) k t h =
      IfSome-in_front Queued Queued over (at_slot f i ss) (λ ts g. g) (Queued-at_slot i ss k t h)

  pub pendings-at_slot :
      (n i : ℕ) (ss : List Slot)
      → Ends n f
      → IfSome (λ ts. pendings ts + n ≡ pendings ss) (at_slot f i ss)
  unfolding IfSome Ends at_slot
  pendings-at_slot n i [] k = tt
  pendings-at_slot n zero (s ∷ ss) k = k s ss
  pendings-at_slot n (suc i) (s ∷ ss) k =
      IfSome-in_front (λ ts. pendings ts + n ≡ pendings ss)
        (λ ts. pendings ts + n ≡ pendings (s ∷ ss)) s (at_slot f i ss) (pendings-under n s ss)
        (pendings-at_slot n i ss k)

  pub pendings-after_prev :
      (n i : ℕ) (ss : List Slot)
      → Ends n f
      → IfSome (λ ts. pendings ts + n ≡ pendings ss) (after_prev f i ss)
  unfolding IfSome Ends after_prev is_over
  pendings-after_prev n i [] k = tt
  pendings-after_prev n zero (s ∷ ss) k = k s ss
  pendings-after_prev n (suc i) (pending ∷ ss) k = tt
  pendings-after_prev n (suc i) (timed_out ∷ ss) k = tt
  pendings-after_prev n (suc i) (held ∷ ss) k = tt
  pendings-after_prev n (suc i) (over ∷ ss) k =
      IfSome-in_front (λ ts. pendings ts + n ≡ pendings ss)
        (λ ts. pendings ts + n ≡ pendings (over ∷ ss)) over (after_prev f i ss)
        (pendings-under n over ss) (pendings-after_prev n i ss k)
