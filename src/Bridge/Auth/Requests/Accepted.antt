-- ===== src/Bridge/Auth/Requests/Accepted.antt =====
-- What an accepted request proves.
use wordpress.Common.{
  Bool, Bool-cases, List, Option, Post, Post-lift, Post-throw_if, Result, String, ap, arith, eq_iff,
  err, false, inl, inr, none, not, ok, or_else, refl, some, sym, true, ℕ, ◌/◌, ◌≡◌, ◌≤◌, ◌⊎◌,
}
use wordpress.Bridge.Auth.Requests.{
  AuthContext, admit_key, check_signature, distance, get_key, given, has_missing, header,
  is_malformed, is_skewed, max_skew_seconds, number_of, signed_key, signed_with, use_nonce, verify,
}
use wordpress.Bridge.Auth.Keys.{KeyEntry, is_active}
use wordpress.Bridge.Auth.Nonces.{NonceCache, check_and_remember}
use wordpress.Bridge.Auth.Signing.{AuthRequest, Primitives, canonical_string}
use wordpress.Bridge.Errors.{Thrown, auth_invalid, auth_replay, bridge}

abbrev value_or : KeyEntry → Result Thrown KeyEntry → KeyEntry
value_or k (ok a) = a
value_or k (err e) = k

given-ok : (o : Option KeyEntry) (e : Thrown) (k : KeyEntry) → given o e ≡ ok k → o ≡ some k
given-ok none e k h = ground (arith, h)
given-ok (some a) e k h = ap (λ x. some (value_or a x)) h

module _ (prim : Primitives) (dummy_secret : String) where
  check_signature-some :
      (found : Option (KeyEntry × String)) (r : AuthRequest) (entry : KeyEntry)
      → check_signature prim dummy_secret found r ≡ some entry
      → (secret : String) × (found ≡ some (entry, secret))
        × (signed_with prim dummy_secret r secret ≡ true)
  unfolding check_signature
  check_signature-some none r entry e = ground (arith, e)
  check_signature-some (some (k, secret)) r entry e =
      elim (Bool-cases (signed_with prim dummy_secret r secret)) [
        | inl good ↦ (secret, ap (λ x. some (or_else x k, secret)) (rw good at e), good)
        | inr bad ↦ ground (arith, rw bad at e)
      ]

  -- The request carries the signature of its method, path, time, nonce and body under the secret of the
  -- key that it names, which is active; its time is near, and the caller gets the key's scopes.
  pub record IsProven (keys : List KeyEntry) (r : AuthRequest) (now : ℕ) (a : AuthContext)
      : Type 0 where
    pub entry : KeyEntry
    pub secret : String
    pub found : get_key prim keys (header r.key_id) ≡ some (entry, secret)
    pub signed :
        header r.signature
        ≡ prim.hmac_hex secret (
            canonical_string prim r.method r.path_with_query
              (header r.timestamp)
              (header r.nonce)
              r.body)
    pub active : is_active entry now ≡ true
    pub near : distance (now / 1000) (number_of (header r.timestamp)) ≤ max_skew_seconds
    pub granted : a ≡ record { key_id = header r.key_id; scopes = entry.scopes }

  abbrev pub nonce_call : AuthRequest → ℕ → NonceCache → NonceCache × Bool
  nonce_call r now c = check_and_remember prim.sha256_hex c (header r.key_id) (header r.nonce) now

  proven :
      (keys : List KeyEntry) (r : AuthRequest) (now : ℕ) (entry : KeyEntry)
      → is_skewed r now ≡ false
      → signed_key prim dummy_secret keys r ≡ some entry
      → is_active entry now ≡ true
      → IsProven keys r now (record { key_id = header r.key_id; scopes = entry.scopes })
  unfolding is_skewed signed_key signed_with
  proven keys r now entry near key active =
      let (secret, found, good) =
        check_signature-some (get_key prim keys (header r.key_id)) r entry key in
      record {
        entry = entry;
        secret = secret;
        found = found;
        signed = sym ((eq_iff _ _).0 good);
        active = active;
        near = ground (arith, near);
        granted = refl;
      }

  -- If verify returns, the request is proven and its nonce was taken; if it throws, the nonce cache is
  -- untouched, or the request was signed under an active key and its nonce is refused as a replay.
  pub verify-IsProven :
      (keys : List KeyEntry) (r : AuthRequest) (now : ℕ) (c : NonceCache)
      → Post
          (λ a d.
            IsProven keys r now a × ((nonce_call r now c).1 ≡ true) × (d ≡ (nonce_call r now c).0))
          (λ e d.
            (d ≡ c)
            ⊎ ((e ≡ bridge auth_replay)
                × ((entry : KeyEntry) × (signed_key prim dummy_secret keys r ≡ some entry)
                    × (is_active entry now ≡ true))))
          (verify prim dummy_secret keys r now c)
  unfolding verify admit_key signed_key use_nonce
  verify-IsProven keys r now c = Post-throw_if _ _ (has_missing r) _ _ c (inl refl) (λ present.
      Post-throw_if _ _ (is_malformed r) _ _ c (inl refl) (λ formed.
        Post-throw_if _ _ (is_skewed r now) _ _ c (inl refl) (λ near.
          Post-lift _ _ (given (signed_key prim dummy_secret keys r) (bridge auth_invalid)) _ c
            (λ e. inl refl)
            (λ entry key. Post-throw_if _ _ (not (is_active entry now)) _ _ c (inl refl) (λ active.
              Post-throw_if _ _ (not (nonce_call r now c).1) _ _ (nonce_call r now c).0
                (inr (
                  refl,
                  (
                    entry,
                    given-ok (signed_key prim dummy_secret keys r) _ entry key,
                    ground (arith, active),
                  ),
                ))
                (λ fresh. (
                  proven keys r now entry (ground (arith, near))
                      (given-ok (signed_key prim dummy_secret keys r) _ entry key)
                      (ground (arith, active)),
                  ground (arith, fresh),
                  refl,
                )))))))
