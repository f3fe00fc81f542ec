-- ===== src/Bridge/Auth/Requests/Tests.antt =====
-- A signed request, accepted once, and a forged one.
use wordpress.Common.{
  Option, Post, String, [], ap, arith, codes, false, if◌then◌else◌, insert, lookup, none, ok,
  or_else, refl, some, sym, true, utf16_length, ◌==◌, ◌∙◌, ◌∷◌, ◌≡◌, ◌⊎◌,
}
use wordpress.Bridge.Auth.Requests.{
  admit_key, check_signature, get_key, has_missing, is_malformed, is_skewed, number_of,
  secret_bytes, signature_re, signed_key, signed_with, timestamp_re, use_nonce, verify,
}
use wordpress.Bridge.Auth.Keys.{KeyEntry, find_key, is_active, write}
use wordpress.Bridge.Auth.Nonces.{
  NonceCache, add_nonce, check_and_remember, check_key, persist, remember,
}
use wordpress.Bridge.Auth.Nonces.Replay.{after_calls}
use wordpress.Bridge.Auth.Requests.Accepted.{IsProven, nonce_call, verify-IsProven}
use wordpress.Bridge.Auth.Requests.Refused.{IsForged, verify_hides_keys, verify_no_replay}
use wordpress.Bridge.Auth.Signing.{
  AuthRequest, Primitives, canonical_string, nonce_re, sign, signed_headers,
}
use wordpress.Bridge.Errors.{auth_replay, bridge}

abbrev sixteen : String
sixteen = "aaaaaaaaaaaaaaaa"

-- Every text has one HMAC here, except under the secret "other".
abbrev hmac_of : String → String → String
hmac_of s t =
    if s == "other"
    then "bbbbbbbbbbbbbbbbbbbbbbbbbbbbbbbbbbbbbbbbbbbbbbbbbbbbbbbbbbbbbbbb"
    else "aaaaaaaaaaaaaaaaaaaaaaaaaaaaaaaaaaaaaaaaaaaaaaaaaaaaaaaaaaaaaaaa"

abbrev test_prim : Primitives
test_prim = record {
  sha256_hex = λ s. s;
  hmac_hex = hmac_of;
  decode_secret = λ s. s;
  to_upper = λ s. s;
  show = λ n. "1000";
}

abbrev test_key : KeyEntry
test_key = record {
  key_id = "k_1";
  secret = "one";
  scopes = write ∷ [];
  created_at = 0;
  not_after = none;
  revoked_at = none;
}

abbrev no_nonces : NonceCache
no_nonces = record { seen = []; ttl = 600_000; max_size = 9; dir = none; last_sweep = 1_000_000 }

abbrev one_nonce : NonceCache
one_nonce = record no_nonces { seen = ("k_1\0aaaaaaaaaaaaaaaa", 1_600_000) ∷ [] }

abbrev signed_request : AuthRequest
signed_request = record {
  method = "GET";
  path_with_query = "/health";
  key_id = some "k_1";
  timestamp = some "1000";
  nonce = some sixteen;
  signature = some (hmac_of "one" "");
  body = "";
}

test_signed : signed_headers test_prim "k_1" "one" "GET" "/health" "" 1000 sixteen ≡ signed_request
unfolding signed_headers sign canonical_string
test_signed = refl

accepted :
    verify test_prim "dummy" (test_key ∷ []) signed_request 1_000_000 no_nonces
    ≡ (ok (record { key_id = "k_1"; scopes = write ∷ [] }), one_nonce)
unfolding verify has_missing is_malformed is_skewed signed_key admit_key use_nonce is_active
    nonce_re signature_re timestamp_re number_of codes utf16_length check_signature signed_with
    canonical_string get_key find_key secret_bytes lookup insert check_and_remember check_key
    add_nonce remember persist
accepted = refl

verify-IsProven_example :
    Post
      (λ a d.
        IsProven test_prim "dummy" (test_key ∷ []) signed_request 1_000_000 a
        × ((nonce_call test_prim "dummy" signed_request 1_000_000 no_nonces).1 ≡ true)
        × (d ≡ (nonce_call test_prim "dummy" signed_request 1_000_000 no_nonces).0))
      (λ e d.
        (d ≡ no_nonces)
        ⊎ ((e ≡ bridge auth_replay)
            × ((entry : KeyEntry) × (signed_key test_prim "dummy" (test_key ∷ []) signed_request
                  ≡ some entry)
                × (is_active entry 1_000_000 ≡ true))))
      (verify test_prim "dummy" (test_key ∷ []) signed_request 1_000_000 no_nonces)
verify-IsProven_example =
    verify-IsProven test_prim "dummy" (test_key ∷ []) signed_request 1_000_000 no_nonces

verify_no_replay_example :
    Post
      (λ _ _. ⊥)
      (λ _ _. Unit)
      (verify test_prim "dummy"
        (test_key ∷ [])
        signed_request
        1_200_000
        (after_calls (λ s. s) one_nonce []))
verify_no_replay_example =
    verify_no_replay test_prim "dummy" (test_key ∷ []) (test_key ∷ []) signed_request signed_request
      1_000_000 1_200_000 no_nonces one_nonce (record { key_id = "k_1"; scopes = write ∷ [] }) []
      accepted refl refl tt (omega arith)

abbrev other_key : KeyEntry
other_key = record test_key { secret = "other"; revoked_at = some 5 }

other_found : get_key test_prim (other_key ∷ []) "k_1" ≡ some (other_key, "other")
unfolding get_key find_key secret_bytes lookup insert
other_found = refl

abbrev secret_in : Option (KeyEntry × String) → String
secret_in o = (or_else o (test_key, "")).1

not_signed : (s : String) → s ≡ "other" → signed_with test_prim "dummy" signed_request s ≡ false
not_signed s e = rw e (unfold signed_with canonical_string in refl)

verify_hides_keys_example :
    (verify test_prim "dummy" [] signed_request 1_000_000 no_nonces
      ≡ verify test_prim "dummy" (other_key ∷ []) signed_request 1_000_000 no_nonces)
    × ((verify test_prim "dummy" [] signed_request 1_000_000 no_nonces).1 ≡ no_nonces)
verify_hides_keys_example =
    verify_hides_keys test_prim "dummy" [] (other_key ∷ []) signed_request 1_000_000 no_nonces
      (unfold IsForged get_key find_key in λ entry secret e. ground (arith, e))
      (unfold IsForged in λ entry secret e. not_signed secret (ap secret_in (sym e ∙ other_found)))
