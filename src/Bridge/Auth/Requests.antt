-- ===== src/Bridge/Auth/Requests.antt =====
-- Verification of signed requests: automation-bridge/src/core/auth/authenticate.ts, `Authenticator`,
-- over the key store and the nonce cache. The bytes of secrets are found in a map of their own.
pub mod Accepted
pub mod Refused
pub mod Signed
pub mod Tests
use wordpress.Common.{
  Bool, Exec, List, Map, Option, Result, String, [], all, codes, err, if◌then◌else◌, insert,
  is_digit, leb, length, lift, lookup, ltb, nat_eq, none, not, ok, or_else, pure, some, throw_if,
  true, utf16_length, ℕ, ◌&&◌, ◌*◌, ◌+◌, ◌-◌, ◌/◌, ◌==◌, ◌>>=◌, ◌>>◌, ◌||◌, ◌∷◌,
}
use wordpress.Bridge.Auth.Keys.{KeyEntry, Scope, find_key, is_active}
use wordpress.Bridge.Auth.Nonces.{NonceCache, check_and_remember}
use wordpress.Bridge.Auth.Signing.{AuthRequest, Primitives, canonical_string, nonce_re}
use wordpress.Bridge.Errors.{
  Thrown, auth_expired, auth_invalid, auth_missing, auth_replay, auth_revoked, bridge,
}

abbrev pub max_skew_seconds : ℕ
max_skew_seconds = 300

pub record AuthContext : Type 0 where
  pub key_id : String
  pub scopes : List Scope

-- `/^[0-9a-f]{64}$/`
abbrev pub is_hex_code : ℕ → Bool
is_hex_code n = is_digit n || leb 97 n && leb n 102

unfoldable pub signature_re : String → Bool
unfolding codes
signature_re s = all is_hex_code (codes s) && nat_eq (length (codes s)) 64

-- `/^\d{1,12}$/`, and `Number(ts)` of such a text.
unfoldable pub timestamp_re : String → Bool
unfolding codes
timestamp_re s = all is_digit (codes s) && leb 1 (length (codes s)) && leb (length (codes s)) 12

abbrev pub digits_from : ℕ → List ℕ → ℕ
digits_from n [] = n
digits_from n (c ∷ cs) = digits_from (n * 10 + (c - 48)) cs

unfoldable pub number_of : String → ℕ
unfolding codes
number_of s = digits_from 0 (codes s)

-- `Math.abs(a - b)`
abbrev pub distance : ℕ → ℕ → ℕ
distance a b = (a - b) + (b - a)

-- `!v`: a header that is missing or empty.
abbrev pub is_missing : Option String → Bool
is_missing none = true
is_missing (some v) = v == ""

unfoldable pub has_missing : AuthRequest → Bool
has_missing r =
    is_missing r.key_id || is_missing r.timestamp || is_missing r.nonce || is_missing r.signature

abbrev pub header : Option String → String
header h = or_else h ""

unfoldable pub is_malformed : AuthRequest → Bool
unfolding nonce_re signature_re timestamp_re
is_malformed r =
    not (nonce_re (header r.nonce))
    || not (signature_re (header r.signature))
    || not (timestamp_re (header r.timestamp))
    || ltb 128 (utf16_length (header r.key_id))

unfoldable pub is_skewed : AuthRequest → ℕ → Bool
unfolding number_of
is_skewed r now = ltb max_skew_seconds (distance (now / 1000) (number_of (header r.timestamp)))

-- `new Map(keys.map((k) => [k.key_id, decodeSecret(k.secret)]))`
unfoldable pub secret_bytes : Primitives → List KeyEntry → Map String → Map String
secret_bytes prim [] m = m
secret_bytes prim (k ∷ keys) m =
    secret_bytes prim keys (insert k.key_id (prim.decode_secret k.secret) m)

abbrev pub both {ℓ} : {A B : Type ℓ} → Option A → Option B → Option (A × B)
both (some a) (some b) = some (a, b)
both _ _ = none

-- `KeyStore.get`
unfoldable pub get_key : Primitives → List KeyEntry → String → Option (KeyEntry × String)
unfolding find_key secret_bytes
get_key prim keys id = both (find_key keys id) (lookup id (secret_bytes prim keys []))

-- Two texts have equal bytes exactly when they are equal.
abbrev pub signatures_equal : String → String → Bool
signatures_equal expected provided = expected == provided

-- `if (!a) throw e`
abbrev pub given : {A : Type 0} → Option A → Thrown → Result Thrown A
given none e = err e
given (some a) e = ok a

module _ (prim : Primitives) (dummy_secret : String) where
  unfoldable pub signed_with : AuthRequest → String → Bool
  unfolding canonical_string
  signed_with r secret =
      signatures_equal
        (prim.hmac_hex secret (
          canonical_string prim r.method r.path_with_query (header r.timestamp) (header r.nonce)
            r.body))
        (header r.signature)

  -- `if (!found || !ok)`: the signature of an unknown key is compared as well, with a dummy secret.
  unfoldable pub check_signature : Option (KeyEntry × String) → AuthRequest → Option KeyEntry
  unfolding signed_with
  check_signature none r = if signed_with r dummy_secret then none else none
  check_signature (some (entry, secret)) r = if signed_with r secret then some entry else none

  unfoldable pub signed_key : List KeyEntry → AuthRequest → Option KeyEntry
  unfolding get_key check_signature
  signed_key keys r = check_signature (get_key prim keys (header r.key_id)) r

  unfoldable pub use_nonce : AuthRequest → ℕ → Exec Thrown NonceCache Bool
  unfolding check_and_remember
  use_nonce r now c =
      let d = check_and_remember prim.sha256_hex c (header r.key_id) (header r.nonce) now in
      (ok d.1, d.0)

  -- The key's state, then its nonce.
  unfoldable pub admit_key : AuthRequest → ℕ → KeyEntry → Exec Thrown NonceCache AuthContext
  unfolding use_nonce is_active
  admit_key r now entry = do
    throw_if (not (is_active entry now)) (bridge auth_revoked)
    fresh ← use_nonce r now
    throw_if (not fresh) (bridge auth_replay)
    pure (record { key_id = header r.key_id; scopes = entry.scopes })

  unfoldable pub verify : List KeyEntry → AuthRequest → ℕ → Exec Thrown NonceCache AuthContext
  unfolding has_missing is_malformed is_skewed signed_key admit_key
  verify keys r now = do
    throw_if (has_missing r) (bridge auth_missing)
    throw_if (is_malformed r) (bridge auth_invalid)
    throw_if (is_skewed r now) (bridge auth_expired)
    entry ← lift (given (signed_key keys r) (bridge auth_invalid))
    admit_key r now entry
