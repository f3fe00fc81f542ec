-- ===== src/Bridge/Auth/Nonces/Held.antt =====
-- What the nonce cache keeps in memory while it is checked and pruned.
use wordpress.Common.{
  Map, Option, Option-cases, String, [], ap, arith, false, inl, inr, lookup, lookup-insert, none,
  refl, some, str_eq_refl, true, ℕ, ◌+◌, ◌<◌, ◌==◌, ◌∷◌, ◌≡◌, ◌⊎◌,
}
use wordpress.Bridge.Auth.Nonces.{
  NonceCache, add_nonce, live_entries, persist, persist_file, prune, remember, sweep,
}
use mathlib.Core.Path.{subst}

lookup-live_entries :
    (k : String) (now exp : ℕ) (m : Map ℕ)
    → now < exp
    → lookup k m ≡ some exp
    → lookup k (live_entries now m) ≡ some exp
unfolding lookup live_entries
lookup-live_entries k now exp [] h e = cc
lookup-live_entries k now exp ((j, x) ∷ m) h e = ground (arith, lookup-live_entries k now exp m h)

-- The cache holds the key in memory up to a time.
unfoldable pub Holds : String → ℕ → NonceCache → Type 0
Holds k exp c = lookup k c.seen ≡ some exp

pub Holds-prune :
    (c : NonceCache) (k : String) (exp now : ℕ)
    → now < exp
    → Holds k exp c
    → Holds k exp (prune c now)
unfolding Holds prune sweep
Holds-prune c k exp now h e = ground (arith, lookup-live_entries k now exp c.seen h e)

pub ttl-prune : (c : NonceCache) (now : ℕ) → (prune c now).ttl ≡ c.ttl
unfolding prune sweep
ttl-prune c now = ground arith

module _ (sha256 : String → String) where
  -- What is written in the directory leaves the rest of the cache as it is.
  persist-cases :
      (c : NonceCache) (j : String) (now : ℕ)
      → (persist sha256 c j now ≡ none)
        ⊎ ((dir : Option (Map ℕ)) × (persist sha256 c j now ≡ some (record c { dir = dir })))
  unfolding persist
  persist-cases c j now = elim (Option-cases c.dir) [
    | inl absent ↦ inr (
      none,
      rw (absent, persist) (ap (λ (d : Option (Map ℕ)). some (record c { dir = d })) absent),
    )
    | inr (files, found) ↦ elim (Option-cases (persist_file (sha256 j) now c.ttl files)) [
      | inl refused ↦ inl (rw (found, persist) (rw refused refl))
      | inr (d, written) ↦ inr (some d, rw (found, persist) (rw written refl))
    ]
  ]

  Holds-remember :
      (c : NonceCache) (k j : String) (exp now : ℕ)
      → (j == k) ≡ false
      → Holds k exp c
      → Holds k exp (remember sha256 c j now).0
  unfolding Holds remember
  Holds-remember c k j exp now other e = elim (persist-cases c j now) [
    | inl refused ↦ rw (refused, remember) e
    | inr (d, written) ↦
        rw (written, remember) (rw (lookup-insert j k (now + c.ttl) c.seen) (rw other e))
  ]

  remember_accepts :
      (c : NonceCache) (k : String) (now : ℕ)
      → (remember sha256 c k now).1 ≡ true
      → Holds k (now + c.ttl) (remember sha256 c k now).0
  unfolding Holds remember
  remember_accepts c k now accepted = elim (persist-cases c k now) [
    | inl refused ↦ ground (arith, rw (refused, remember) at accepted)
    | inr (d, written) ↦
        rw (written, remember)
          (rw (lookup-insert k k (now + c.ttl) c.seen) (rw (str_eq_refl k) refl))
  ]

  add_nonce-cases :
      (c : NonceCache) (k : String) (now : ℕ)
      → (add_nonce sha256 c k now ≡ (c, false))
        ⊎ ((add_nonce sha256 c k now ≡ (prune c now, false))
            ⊎ ((add_nonce sha256 c k now ≡ remember sha256 c k now)
                ⊎ (add_nonce sha256 c k now ≡ remember sha256 (prune c now) k now)))
  unfolding add_nonce
  add_nonce-cases c k now = ground arith

  pub Holds-add_nonce :
      (c : NonceCache) (k j : String) (exp now : ℕ)
      → now < exp
      → (j == k) ≡ false
      → Holds k exp c
      → Holds k exp (add_nonce sha256 c j now).0
  Holds-add_nonce c k j exp now h other e = elim (add_nonce-cases c j now) [
    | inl full ↦ rw full e
    | inr (inl pruned) ↦ rw pruned (Holds-prune c k exp now h e)
    | inr (inr (inl at_once)) ↦ rw at_once (Holds-remember c k j exp now other e)
    | inr (inr (inr after)) ↦
        rw after (Holds-remember (prune c now) k j exp now other (Holds-prune c k exp now h e))
  ]

  pub add_nonce_accepts :
      (c : NonceCache) (k : String) (now : ℕ)
      → (add_nonce sha256 c k now).1 ≡ true
      → Holds k (now + c.ttl) (add_nonce sha256 c k now).0
  add_nonce_accepts c k now accepted = elim (add_nonce-cases c k now) [
    | inl full ↦ ground (arith, rw full at accepted)
    | inr (inl pruned) ↦ ground (arith, rw pruned at accepted)
    | inr (inr (inl at_once)) ↦ rw at_once (remember_accepts c k now (rw at_once at accepted))
    | inr (inr (inr after)) ↦ rw after (
        subst (λ n. Holds k (now + n) (remember sha256 (prune c now) k now).0) (ttl-prune c now)
          (remember_accepts (prune c now) k now (rw after at accepted)))
  ]
