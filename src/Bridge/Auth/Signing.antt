-- ===== src/Bridge/Auth/Signing.antt =====
-- Signed requests: automation-bridge/src/core/auth/signing.ts. Hashes, the HMAC, `toUpperCase` and the
-- text of a number are parameters; a body is a text.
use wordpress.Common.{
  Bool, Option, String, all, codes, is_alnum, leb, length, nat_eq, some, ℕ, ◌&&◌, ◌||◌,
}
use Prim.Native.String.{◌++◌ as ◌<>◌}

-- What node:crypto and JavaScript compute: hex(sha256), hex(HMAC-SHA256) of a secret and a text, the
-- bytes of a base64url secret, `toUpperCase` and `String` of a number.
pub record Primitives : Type 0 where
  pub sha256_hex : String → String
  pub hmac_hex : String → String → String
  pub decode_secret : String → String
  pub to_upper : String → String
  pub show : ℕ → String

-- `/^[A-Za-z0-9_-]{16,64}$/`
abbrev pub is_nonce_code : ℕ → Bool
is_nonce_code n = is_alnum n || nat_eq n 95 || nat_eq n 45

unfoldable pub nonce_re : String → Bool
unfolding codes
nonce_re s = all is_nonce_code (codes s) && leb 16 (length (codes s)) && leb (length (codes s)) 64

unfoldable pub canonical_string : Primitives → String → String → String → String → String → String
canonical_string prim method path_with_query timestamp nonce body =
    prim.to_upper method
    <> "\n"
    <> path_with_query
    <> "\n"
    <> timestamp
    <> "\n"
    <> nonce
    <> "\n"
    <> prim.sha256_hex body

unfoldable pub sign : Primitives → String → String → String → String → String → String → String
unfolding canonical_string
sign prim secret method path_with_query timestamp nonce body =
    prim.hmac_hex (prim.decode_secret secret)
      (canonical_string prim method path_with_query timestamp nonce body)

-- A request with the headers that authentication reads.
pub record AuthRequest : Type 0 where
  pub method : String
  pub path_with_query : String
  pub key_id : Option String
  pub timestamp : Option String
  pub nonce : Option String
  pub signature : Option String
  pub body : String

-- A request with the headers of `signedHeaders`, given the time in seconds and the nonce.
unfoldable pub signed_headers :
    Primitives → String → String → String → String → String → ℕ → String → AuthRequest
unfolding sign
signed_headers prim key_id secret method path_with_query body ts nonce = record {
  method = method;
  path_with_query = path_with_query;
  key_id = some key_id;
  timestamp = some (prim.show ts);
  nonce = some nonce;
  signature = some (sign prim secret method path_with_query (prim.show ts) nonce body);
  body = body;
}
