-- ===== src/Bridge/Paths.antt =====
-- Path safety: automation-bridge/src/core/paths.ts. Unicode normalisation, picomatch and the calls of
-- the file system are parameters. A text is read by its code points, an absolute path by its segments.
pub mod Resolve
pub mod Lexical
pub mod Reached
pub mod Safe
pub mod Tests
use wordpress.Common.{
  Bool, List, String, [], any, codes, err, false, if◌then◌else◌, is_lower, is_upper, ltb, nat_eq,
  ok, true, ℕ, ◌&&◌, ◌+◌, ◌==◌, ◌||◌, ◌∷◌,
}
use wordpress.Bridge.Errors.{Try, bridge, path_invalid}
use Prim.Native.String

abbrev pub max_path_bytes : ℕ
max_path_bytes = 240

abbrev pub builtin_deny : List String
builtin_deny =
    ".env" ∷ ".env*" ∷ "**/.env" ∷ "**/.env*" ∷ "**/node_modules" ∷ "**/node_modules/**" ∷ ".git"
    ∷ ".git/**" ∷ "**/.git/**" ∷ "Dockerfile*" ∷ "**/Dockerfile*" ∷ "docker-compose*"
    ∷ "**/docker-compose*" ∷ "compose.y*ml" ∷ "**/compose.y*ml" ∷ "compose.*.y*ml"
    ∷ "**/package-lock.json" ∷ "**/yarn.lock" ∷ "**/pnpm-lock.yaml" ∷ "**/bun.lock" ∷ "**/bun.lockb"
    ∷ "**/npm-shrinkwrap.json" ∷ "**/.npmrc" ∷ "**/automation-bridge.config.json"
    ∷ "**/automation.manifest.json" ∷ "**/api/automation-bridge/**"
    ∷ "**/api/automation-revalidate/**" ∷ "**/automation-bridge/**" ∷ "**/*.pem" ∷ "**/*.key"
    ∷ "**/.next/**" ∷ []

-- `/%(2e|2f|5c|00)/i`
abbrev pub small : ℕ → ℕ
small c = if is_upper c then c + 32 else c

abbrev pub is_traversal : ℕ → ℕ → Bool
is_traversal a b =
    nat_eq a 50 && (nat_eq (small b) 101 || nat_eq (small b) 102)
    || nat_eq a 53 && nat_eq (small b) 99
    || nat_eq a 48 && nat_eq b 48

abbrev pub starts_traversal : List ℕ → Bool
starts_traversal (a ∷ b ∷ cs) = is_traversal a b
starts_traversal _ = false

unfoldable pub encoded_traversal : List ℕ → Bool
encoded_traversal [] = false
encoded_traversal (c ∷ cs) = nat_eq c 37 && starts_traversal cs || encoded_traversal cs

-- `p.startsWith("/") || /^[A-Za-z]:/.test(p)`
abbrev pub is_absolute : List ℕ → Bool
is_absolute [] = false
is_absolute (c ∷ []) = nat_eq c 47
is_absolute (c ∷ d ∷ cs) = nat_eq c 47 || (is_lower c || is_upper c) && nat_eq d 58

-- `/[\x00-\x1f\x7f]/`
abbrev pub is_control : ℕ → Bool
is_control c = ltb c 32 || nat_eq c 127

abbrev pub add_first : ℕ → List (List ℕ) → List (List ℕ)
add_first c [] = (c ∷ []) ∷ []
add_first c (s ∷ ss) = (c ∷ s) ∷ ss

-- `p.split("/")`
unfoldable pub split_path : List ℕ → List (List ℕ)
split_path [] = [] ∷ []
split_path (c ∷ cs) =
    let rest = split_path cs in if nat_eq c 47 then [] ∷ rest else add_first c rest

-- A segment that is empty, `.` or `..`.
unfoldable pub is_bad_segment : List ℕ → Bool
is_bad_segment [] = true
is_bad_segment (c ∷ []) = nat_eq c 46
is_bad_segment (c ∷ d ∷ []) = nat_eq c 46 && nat_eq d 46
is_bad_segment (c ∷ d ∷ e ∷ cs) = false

-- The checks that follow normalisation.
unfoldable pub is_bad_path : String → Bool
unfolding codes encoded_traversal split_path is_bad_segment
is_bad_path p =
    ltb max_path_bytes (String.len p)
    || any (nat_eq 92) (codes p)
    || is_absolute (codes p)
    || encoded_traversal (codes p)
    || any is_control (codes p)
    || any is_bad_segment (split_path (codes p))

module _ (nfc : String → String) where
  -- Every exception has the code PATH_INVALID.
  unfoldable pub validate_rel_path : String → Try String
  unfolding codes is_bad_path
  validate_rel_path input =
      if input == ""
      then err (bridge path_invalid)
      else if any (nat_eq 0) (codes input)
      then err (bridge path_invalid)
      else let p = nfc input in if is_bad_path p then err (bridge path_invalid) else ok p
