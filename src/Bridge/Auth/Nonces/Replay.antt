-- ===== src/Bridge/Auth/Nonces/Replay.antt =====
-- A nonce that was accepted is refused until its time to live is over.
use wordpress.Common.{
  All, Bool, Bool-cases, List, String, [], ap, arith, eq_iff, false, if◌then◌else◌, inl, inr,
  lookup, ltb, refl, str_eq_refl, true, ℕ, ◌+◌, ◌-◌, ◌<◌, ◌==◌, ◌∙◌, ◌∷◌, ◌≡◌, ◌⊎◌,
}
use wordpress.Bridge.Auth.Nonces.{
  NonceCache, add_nonce, check_and_remember, check_key, is_live, prune,
}
use wordpress.Bridge.Auth.Nonces.Held.{
  Holds, Holds-add_nonce, Holds-prune, add_nonce_accepts, ttl-prune,
}
use Prim.Native.String
use mathlib.Core.Path.{subst}

-- A call of `checkAndRemember`.
pub record Call : Type 0 where
  pub key_id : String
  pub nonce : String
  pub at : ℕ

if-cases :
    {A : Type 0} (b : Bool) (x y : A) → ((if b then x else y) ≡ y) ⊎ ((if b then x else y) ≡ x)
if-cases true x y = inr refl
if-cases false x y = inl refl

module _ (sha256 : String → String) where
  unfoldable pub after_calls : NonceCache → List Call → NonceCache
  after_calls c [] = c
  after_calls c (e ∷ es) = after_calls (check_and_remember sha256 c e.key_id e.nonce e.at).0 es

  check_key-cases :
      (c : NonceCache) (k : String) (now : ℕ)
      → (d : NonceCache) × ((d ≡ c) ⊎ (d ≡ prune c now))
        × (check_key sha256 c k now
            ≡ (if is_live now (lookup k d.seen) then (d, false) else add_nonce sha256 d k now))
  unfolding check_key
  check_key-cases c k now = (_, if-cases (ltb 60_000 (now - c.last_sweep)) (prune c now) c, refl)

  held_other :
      (d : NonceCache) (k j : String) (exp now : ℕ)
      → now < exp
      → Holds k exp d
      → is_live now (lookup j d.seen) ≡ false
      → (j == k) ≡ false
  unfolding Holds
  held_other d k j exp now h e dead = ground (arith, eq_iff j k, dead, e)

  -- Until its time, a held key is refused, and stays held whichever key is checked.
  checked :
      (c d : NonceCache) (k j : String) (exp now : ℕ)
      → now < exp
      → Holds k exp d
      → check_key sha256 c j now
        ≡ (if is_live now (lookup j d.seen) then (d, false) else add_nonce sha256 d j now)
      → Holds k exp (check_key sha256 c j now).0
        × ((j == k) ≡ true → (check_key sha256 c j now).1 ≡ false)
  checked c d k j exp now h e run = elim (Bool-cases (is_live now (lookup j d.seen))) [
    | inl live ↦ rw run (rw live (e, λ same_key. refl))
    | inr dead ↦
        let other = held_other d k j exp now h e dead in
        rw run (
          rw dead (
            Holds-add_nonce sha256 d k j exp now h other e,
            λ same_key. ground (arith, other, same_key),
          ))
  ]

  Holds-check_key :
      (c : NonceCache) (k j : String) (exp now : ℕ)
      → now < exp
      → Holds k exp c
      → Holds k exp (check_key sha256 c j now).0
        × ((j == k) ≡ true → (check_key sha256 c j now).1 ≡ false)
  Holds-check_key c k j exp now h e =
      let (d, which, run) = check_key-cases c j now in
      elim which [
        | inl untouched ↦ checked c d k j exp now h (rw untouched e) run
        | inr pruned ↦ checked c d k j exp now h (rw pruned (Holds-prune c k exp now h e)) run
      ]

  accepted_by :
      (c d : NonceCache) (k : String) (now : ℕ)
      → d.ttl ≡ c.ttl
      → check_key sha256 c k now
        ≡ (if is_live now (lookup k d.seen) then (d, false) else add_nonce sha256 d k now)
      → (check_key sha256 c k now).1 ≡ true
      → Holds k (now + c.ttl) (check_key sha256 c k now).0
  accepted_by c d k now ttl run accepted = elim (Bool-cases (is_live now (lookup k d.seen))) [
    | inl live ↦ ground (arith, rw live at (rw run at accepted))
    | inr dead ↦ rw run (
        rw dead (
          subst (λ n. Holds k (now + n) (add_nonce sha256 d k now).0) ttl
            (add_nonce_accepts sha256 d k now (rw dead at (rw run at accepted)))))
  ]

  check_key_accepts :
      (c : NonceCache) (k : String) (now : ℕ)
      → (check_key sha256 c k now).1 ≡ true
      → Holds k (now + c.ttl) (check_key sha256 c k now).0
  check_key_accepts c k now accepted =
      let (d, which, run) = check_key-cases c k now in
      elim which [
        | inl untouched ↦
            accepted_by c d k now (ap (λ (x : NonceCache). x.ttl) untouched) run accepted
        | inr pruned ↦
            accepted_by c d k now (ap (λ (x : NonceCache). x.ttl) pruned ∙ ttl-prune c now) run
              accepted
      ]

  abbrev pub Before : ℕ → List Call → Type 0
  Before time = All (λ e. e.at < time)

  Holds-after_calls :
      (c : NonceCache) (k : String) (exp : ℕ) (es : List Call)
      → Before exp es
      → Holds k exp c
      → Holds k exp (after_calls c es)
  unfolding after_calls check_and_remember
  Holds-after_calls c k exp [] h e = e
  Holds-after_calls c k exp (x ∷ es) (at_once, h) e =
      Holds-after_calls (check_and_remember sha256 c x.key_id x.nonce x.at).0 k exp es h
        (Holds-check_key c k (String.◌++◌ x.key_id (String.◌++◌ "\0" x.nonce)) exp x.at at_once e).0

  -- A nonce that `checkAndRemember` accepted from a key is refused from that key until its time to
  -- live is over, after any calls with any keys and nonces before that time.
  pub no_replay :
      (c : NonceCache) (key_id nonce : String) (now later : ℕ) (es : List Call)
      → (check_and_remember sha256 c key_id nonce now).1 ≡ true
      → Before (now + c.ttl) es
      → later < now + c.ttl
      → (check_and_remember sha256
          (after_calls (check_and_remember sha256 c key_id nonce now).0 es)
          key_id
          nonce
          later).1
        ≡ false
  unfolding check_and_remember
  no_replay c key_id nonce now later es accepted h l =
      let k = String.◌++◌ key_id (String.◌++◌ "\0" nonce) in
      (Holds-check_key (after_calls (check_and_remember sha256 c key_id nonce now).0 es) k k
          (now + c.ttl) later l
          (Holds-after_calls (check_key sha256 c k now).0 k (now + c.ttl) es h
            (check_key_accepts c k now accepted))).1
        (str_eq_refl k)
