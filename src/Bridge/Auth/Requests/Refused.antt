-- ===== src/Bridge/Auth/Requests/Refused.antt =====
-- What a request that is not properly signed, or is sent again, is told.
use wordpress.Common.{
  Bool, Bool-cases, Exec, List, Option-cases, Post, Post-map, String, arith, err, false, inl, inr,
  lift, none, ok, refl, some, throw_if, true, ℕ, ◌+◌, ◌<◌, ◌>>=◌, ◌>>◌, ◌≡◌,
}
use wordpress.Bridge.Auth.Requests.{
  AuthContext, admit_key, check_signature, get_key, has_missing, header, is_malformed, is_skewed,
  signed_key, signed_with, verify,
}
use wordpress.Bridge.Auth.Keys.{KeyEntry}
use wordpress.Bridge.Auth.Nonces.{NonceCache}
use wordpress.Bridge.Auth.Nonces.Replay.{Before, Call, after_calls, no_replay}
use wordpress.Bridge.Auth.Requests.Accepted.{IsProven, nonce_call, verify-IsProven}
use wordpress.Bridge.Auth.Signing.{AuthRequest, Primitives}
use wordpress.Bridge.Errors.{Thrown}
use mathlib.Core.Path.{subst}

absurd_bool : {b : Bool} → b ≡ true → b ≡ false → ⊥
absurd_bool h k = ground (arith, h, k)

-- Three guards and a failure leave the state as it is.
guarded :
    {S A B : Type 0} (b1 b2 b3 : Bool) (e1 e2 e3 e4 : Thrown) (f : A → Exec Thrown S B) (s : S)
    → ((throw_if b1 e1 >> (throw_if b2 e2 >> (throw_if b3 e3 >> (lift (err e4) >>= f)))) s).1 ≡ s
guarded true b2 b3 e1 e2 e3 e4 f s = refl
guarded false true b3 e1 e2 e3 e4 f s = refl
guarded false false true e1 e2 e3 e4 f s = refl
guarded false false false e1 e2 e3 e4 f s = refl

module _ (prim : Primitives) (dummy_secret : String) where
  -- No secret of the key that the request names gives its signature.
  unfoldable pub IsForged : List KeyEntry → AuthRequest → Type 0
  IsForged keys r =
      (entry : KeyEntry) (secret : String)
      → get_key prim keys (header r.key_id) ≡ some (entry, secret)
      → signed_with prim dummy_secret r secret ≡ false

  signed_key-IsForged :
      (keys : List KeyEntry) (r : AuthRequest)
      → IsForged keys r
      → signed_key prim dummy_secret keys r ≡ none
  unfolding IsForged signed_key
  signed_key-IsForged keys r h = elim (Option-cases (get_key prim keys (header r.key_id))) [
    | inl unknown ↦
        rw (unknown, signed_key)
          (unfold check_signature in
            elim (Bool-cases (signed_with prim dummy_secret r dummy_secret)) [
              | inl good ↦ rw good refl
              | inr bad ↦ rw bad refl
            ])
    | inr ((entry, secret), found) ↦
        rw (found, signed_key) (unfold check_signature in rw (h entry secret found) refl)
  ]

  -- A request that is not signed under the secret of the key that it names is told the same whatever keys
  -- there are, unknown, revoked or active, and the nonce cache stays as it is.
  pub verify_hides_keys :
      (keys others : List KeyEntry) (r : AuthRequest) (now : ℕ) (c : NonceCache)
      → IsForged keys r
      → IsForged others r
      → (verify prim dummy_secret keys r now c ≡ verify prim dummy_secret others r now c)
        × ((verify prim dummy_secret keys r now c).1 ≡ c)
  unfolding verify
  verify_hides_keys keys others r now c h k =
      rw (signed_key-IsForged keys r h, signed_key-IsForged others r k)
        (
          refl,
          guarded (has_missing r) (is_malformed r) (is_skewed r now) _ _ _ _
              (admit_key prim dummy_secret r now) c,
        )

  -- After a request is accepted, no request with its key and its nonce is, until the nonce's time to live
  -- is over, whatever nonces are checked in between.
  pub verify_no_replay :
      (keys later_keys : List KeyEntry) (r again : AuthRequest) (now later : ℕ) (c d : NonceCache)
      (a : AuthContext) (es : List Call)
      → verify prim dummy_secret keys r now c ≡ (ok a, d)
      → header again.key_id ≡ header r.key_id
      → header again.nonce ≡ header r.nonce
      → Before prim.sha256_hex (now + c.ttl) es
      → later < now + c.ttl
      → Post
          (λ _ _. ⊥)
          (λ _ _. Unit)
          (verify prim dummy_secret later_keys again later (after_calls prim.sha256_hex d es))
  verify_no_replay keys later_keys r again now later c d a es accepted same_key same_nonce h l =
      let first =
        subst
          (Post
            (λ a d.
              IsProven prim dummy_secret keys r now a
              × ((nonce_call prim dummy_secret r now c).1 ≡ true)
              × (d ≡ (nonce_call prim dummy_secret r now c).0))
            _)
          accepted (verify-IsProven prim dummy_secret keys r now c) in
      Post-map _ _ _ _ _
        (verify-IsProven prim dummy_secret later_keys again later
          (after_calls prim.sha256_hex d es))
        (λ b s p.
          absurd_bool (rw (first.2, same_key, same_nonce) at p.1) (
            no_replay prim.sha256_hex c (header r.key_id) (header r.nonce) now later es first.1 h
              l))
        (λ e s p. tt)
