-- ===== src/Bridge/Auth/Nonces.antt =====
-- The nonce cache: automation-bridge/src/core/auth/limits.ts, `NonceCache`. Times are milliseconds.
-- The directory of persisted nonces, where there is one, maps a file's name to its time of writing;
-- its calls do not fail (the source refuses the nonce when one does).
pub mod Held
pub mod Replay
pub mod Tests
use wordpress.Common.{
  Bool, Map, Option, String, [], false, if◌then◌else◌, insert, is_some, leb, length, lookup, ltb,
  none, remove, some, true, ℕ, ◌&&◌, ◌+◌, ◌-◌, ◌∷◌,
}
use Prim.Native.String
use mathlib.Core.Option

pub record NonceCache : Type 0 where
  pub seen : Map ℕ
  pub ttl : ℕ
  pub max_size : ℕ
  pub dir : Option (Map ℕ)
  pub last_sweep : ℕ

-- `prune` of the memory: entries that have expired go.
unfoldable pub live_entries : ℕ → Map ℕ → Map ℕ
live_entries now [] = []
live_entries now ((k, exp) ∷ m) =
    let rest = live_entries now m in if leb exp now then rest else (k, exp) ∷ rest

-- `sweep`: files older than the TTL go.
unfoldable pub young_files : ℕ → ℕ → Map ℕ → Map ℕ
young_files now ttl [] = []
young_files now ttl ((f, mtime) ∷ m) =
    let rest = young_files now ttl m in if ltb ttl (now - mtime) then rest else (f, mtime) ∷ rest

unfoldable pub sweep : NonceCache → ℕ → NonceCache
unfolding young_files
sweep c now = record c { dir = Option.map (young_files now c.ttl) c.dir }

unfoldable pub prune : NonceCache → ℕ → NonceCache
unfolding live_entries sweep
prune c now =
    let c' = record c { seen = live_entries now c.seen } in
    if is_some c.dir && ltb 60_000 (now - c.last_sweep)
    then sweep (record c' { last_sweep = now }) now
    else c'

-- `persist` on the directory: an existing live file means a replay; an expired one is written anew.
unfoldable pub persist_file : String → ℕ → ℕ → Map ℕ → Option (Map ℕ)
persist_file name now ttl files = elim (lookup name files) [
  | none ↦ some (insert name now files)
  | some mtime ↦ if leb (now - mtime) ttl then none else some (insert name now (remove name files))
]

-- `exp !== undefined && exp > now`
abbrev pub is_live : ℕ → Option ℕ → Bool
is_live now none = false
is_live now (some exp) = ltb now exp

module _ (sha256 : String → String) where
  -- What is written in the directory, or `none` if the nonce is refused; with no directory nothing is.
  unfoldable pub persist : NonceCache → String → ℕ → Option NonceCache
  unfolding persist_file
  persist c k now = elim c.dir [
    | none ↦ some c
    | some files ↦
        Option.map (λ d. record c { dir = some d }) (persist_file (sha256 k) now c.ttl files)
  ]

  -- `this.seen.set(k, now + this.ttlMs)` where `persist` agrees.
  unfoldable pub remember : NonceCache → String → ℕ → NonceCache × Bool
  unfolding persist
  remember c k now = elim (persist c k now) [
    | none ↦ (c, false)
    | some d ↦ (record d { seen = insert k (now + d.ttl) d.seen }, true)
  ]

  -- The second half of `checkAndRemember`: a full cache is pruned, and refuses if it stays full.
  unfoldable pub add_nonce : NonceCache → String → ℕ → NonceCache × Bool
  unfolding remember prune
  add_nonce c k now =
      let d = if leb c.max_size (length c.seen) then prune c now else c in
      if leb d.max_size (length d.seen) then (d, false) else remember d k now

  -- `checkAndRemember` of the combined key; `false` when it is refused.
  unfoldable pub check_key : NonceCache → String → ℕ → NonceCache × Bool
  unfolding add_nonce prune
  check_key c k now =
      let d = if ltb 60_000 (now - c.last_sweep) then prune c now else c in
      if is_live now (lookup k d.seen) then (d, false) else add_nonce d k now

  unfoldable pub check_and_remember : NonceCache → String → String → ℕ → NonceCache × Bool
  unfolding check_key
  check_and_remember c key_id nonce now =
      check_key c (String.◌++◌ key_id (String.◌++◌ "\0" nonce)) now
