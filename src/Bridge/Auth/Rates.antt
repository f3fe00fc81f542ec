-- ===== src/Bridge/Auth/Rates.antt =====
-- The rate limiter: automation-bridge/src/core/auth/limits.ts, `RateLimiter`. Times are milliseconds.
pub mod Laws
pub mod Tests
use wordpress.Common.{
  List, Map, String, [], if◌then◌else◌, insert, leb, length, lookup, ltb, or_else, ℕ, ◌++◌, ◌+◌,
  ◌-◌, ◌/◌, ◌∷◌,
}
use Prim.Native.Nat.{max}

pub record RateLimiter : Type 0 where
  pub hits : Map (List ℕ)
  pub window : ℕ

-- `arr.filter((t) => t > now - this.windowMs)`; a time before the window's length is no less recent.
unfoldable pub recent : ℕ → ℕ → List ℕ → List ℕ
recent window now [] = []
recent window now (t ∷ ts) =
    let rest = recent window now ts in if ltb now (t + window) then t ∷ rest else rest

-- `Math.max(1, Math.ceil((arr[0] + window - now) / 1000))`; a limit is at least 1 in every valid
-- configuration (automation-bridge/src/core/config.ts), so a list that is full has a first hit.
unfoldable pub retry_after : ℕ → ℕ → List ℕ → ℕ
retry_after window now [] = 1
retry_after window now (t ∷ ts) = max 1 ((t + window - now + 999) / 1000)

unfoldable pub recent_hits : RateLimiter → String → ℕ → List ℕ
unfolding recent
recent_hits r bucket now = recent r.window now (or_else (lookup bucket r.hits) [])

-- The seconds until a slot frees up, or 0 if the hit is allowed.
unfoldable pub hit : RateLimiter → String → ℕ → ℕ → RateLimiter × ℕ
unfolding recent_hits retry_after
hit r bucket limit now =
    let arr = recent_hits r bucket now in
    if leb limit (length arr)
    then (record r { hits = insert bucket arr r.hits }, retry_after r.window now arr)
    else (record r { hits = insert bucket (arr ++ now ∷ []) r.hits }, 0)
