-- ===== src/Bridge/Auth/Rates/Tests.antt =====
-- Runs of the rate limiter.
use wordpress.Common.{[], arith, insert, length, lookup, ◌∷◌, ◌≡◌, ◌≤◌}
use wordpress.Bridge.Auth.Rates.{RateLimiter, hit, recent, recent_hits, retry_after}
use wordpress.Bridge.Auth.Rates.Laws.{allowed, allowed_within_limit, hit_after_retry}

abbrev busy : RateLimiter
busy = record { hits = ("k1", 1_000 ∷ 2_500 ∷ []) ∷ []; window = 60_000 }

allowed_within_limit_example :
    length (
      recent 60_000 3_000 (
        allowed
          (record { hits = []; window = 60_000 })
          "k1"
          2
          (("k1", 1_000) ∷ ("k2", 1_500) ∷ ("k1", 2_000) ∷ ("k1", 3_000) ∷ [])))
    ≤ 2
allowed_within_limit_example =
    allowed_within_limit 60_000 "k1" 2
      (("k1", 1_000) ∷ ("k2", 1_500) ∷ ("k1", 2_000) ∷ ("k1", 3_000) ∷ []) 3_000
      (omega arith, (omega arith, (omega arith, (omega arith, tt))))

hit_after_retry_example : (hit (hit busy "k1" 2 3_000).0 "k1" 2 61_000).1 ≡ 0
unfolding hit recent_hits recent retry_after lookup insert
hit_after_retry_example =
    hit_after_retry busy "k1" 2 3_000 61_000 (omega arith) (omega arith) (omega arith) (omega arith)
