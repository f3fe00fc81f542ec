-- ===== src/Bridge/Auth/Rates/Laws.antt =====
-- What the rate limiter lets through, and when it lets the next hit through.
use wordpress.Common.{
  All, Bool-cases, List, String, [], ap, arith, eq_iff, false, if◌then◌else◌, inl, inr, insert, leb,
  length, length-append, lookup, lookup-insert, nat_eq, or_else, refl, str_eq_refl, true, ℕ, ◌&&◌,
  ◌*◌, ◌++◌, ◌+◌, ◌==◌, ◌∷◌, ◌≡◌, ◌≤◌,
}
use wordpress.Bridge.Auth.Rates.{RateLimiter, hit, recent, recent_hits, retry_after}

recent-append :
    (window now : ℕ) (xs ys : List ℕ)
    → recent window now (xs ++ ys) ≡ recent window now xs ++ recent window now ys
unfolding recent
recent-append window now [] ys = refl
recent-append window now (x ∷ xs) ys = ground (arith, recent-append window now xs ys)

-- What was recent then includes what is recent later.
recent-recent :
    (window earlier now : ℕ) (xs : List ℕ)
    → earlier ≤ now
    → recent window now (recent window earlier xs) ≡ recent window now xs
unfolding recent
recent-recent window earlier now [] h = refl
recent-recent window earlier now (x ∷ xs) h = ground (arith, recent-recent window earlier now xs h)

length-recent : (window now : ℕ) (xs : List ℕ) → length (recent window now xs) ≤ length xs
unfolding recent
length-recent window now [] = omega arith
length-recent window now (x ∷ xs) = ground (arith, length-recent window now xs)

-- The times at which a series of hits, each on a bucket at a time, was let through on one bucket.
abbrev stored : RateLimiter → String → List ℕ
stored r bucket = or_else (lookup bucket r.hits) []

unfoldable pub allowed : RateLimiter → String → ℕ → List (String × ℕ) → List ℕ
allowed r bucket limit [] = []
allowed r bucket limit ((b, t) ∷ es) =
    let rest = allowed (hit r b limit t).0 bucket limit es in
    if b == bucket && nat_eq (hit r b limit t).1 0 then t ∷ rest else rest

hit_refused :
    (r : RateLimiter) (b : String) (limit now : ℕ)
    → leb limit (length (recent_hits r b now)) ≡ true
    → hit r b limit now ≡ (
      record r { hits = insert b (recent_hits r b now) r.hits },
      retry_after r.window now (recent_hits r b now),
    )
unfolding hit
hit_refused r b limit now full = rw (full, hit) refl

hit_passes :
    (r : RateLimiter) (b : String) (limit now : ℕ)
    → leb limit (length (recent_hits r b now)) ≡ false
    → hit r b limit now ≡ (record r { hits = insert b (recent_hits r b now ++ now ∷ []) r.hits }, 0)
unfolding hit
hit_passes r b limit now room = rw (room, hit) refl

retry_after_pos : (window now : ℕ) (xs : List ℕ) → 1 ≤ retry_after window now xs
unfolding retry_after
retry_after_pos window now [] = omega arith
retry_after_pos window now (x ∷ xs) = ground arith

stored-insert :
    (r : RateLimiter) (b bucket : String) (xs : List ℕ)
    → stored (record r { hits = insert b xs r.hits }) bucket
      ≡ (if b == bucket then xs else stored r bucket)
stored-insert r b bucket xs = rw (lookup-insert b bucket xs r.hits) (ground arith)

recent-snoc :
    (window now t : ℕ) (xs ys : List ℕ)
    → length (recent window now (xs ++ t ∷ [])) + length (recent window now ys)
      ≡ length (recent window now xs) + length (recent window now (t ∷ ys))
unfolding recent
recent-snoc window now t [] ys = ground arith
recent-snoc window now t (x ∷ xs) ys = ground (arith, recent-snoc window now t xs ys)

-- A hit that is let through moves from the series to the stored ones.
one_hit :
    (r : RateLimiter) (b bucket : String) (limit t now : ℕ) (ys : List ℕ)
    → t ≤ now
    → length (recent r.window now (stored (hit r b limit t).0 bucket))
        + length (recent r.window now ys)
      ≡ length (recent r.window now (stored r bucket))
        + length (
            recent r.window now
              (if b == bucket && nat_eq (hit r b limit t).1 0 then t ∷ ys else ys))
unfolding recent_hits
one_hit r b bucket limit t now ys le = elim (Bool-cases (leb limit (length (recent_hits r b t)))) [
  | inl full ↦ rw (hit_refused r b limit t full) (
      rw (stored-insert r b bucket _) (
        ground (
          arith,
          eq_iff b bucket,
          recent-recent r.window t now (stored r bucket) le,
          retry_after_pos r.window t (recent_hits r b t),
        )))
  | inr room ↦ rw (hit_passes r b limit t room) (
      rw (stored-insert r b bucket _) (
        ground (
          arith,
          eq_iff b bucket,
          recent-recent r.window t now (stored r bucket) le,
          recent-snoc r.window now t (recent_hits r b t) ys,
        )))
]

few_stored :
    (r : RateLimiter) (b bucket : String) (limit t now : ℕ)
    → t ≤ now
    → length (recent r.window now (stored r bucket)) ≤ limit
    → length (recent r.window now (stored (hit r b limit t).0 bucket)) ≤ limit
unfolding recent_hits
few_stored r b bucket limit t now le few =
    elim (Bool-cases (leb limit (length (recent_hits r b t)))) [
      | inl full ↦ rw (hit_refused r b limit t full) (
          rw (stored-insert r b bucket _)
            (ground (arith, eq_iff b bucket, recent-recent r.window t now (stored r bucket) le)))
      | inr room ↦ rw (hit_passes r b limit t room) (
          rw (stored-insert r b bucket _) (
            ground (
              arith,
              length-recent r.window now (recent_hits r b t ++ t ∷ []),
              length-append (recent_hits r b t) (t ∷ []),
            )))
    ]

-- The same window, and one hit of a series.
hit-window :
    (r : RateLimiter) (b : String) (limit now : ℕ) → (hit r b limit now).0.window ≡ r.window
unfolding hit
hit-window r b limit now = ground arith

allowed-stored :
    (r : RateLimiter) (bucket : String) (limit : ℕ) (es : List (String × ℕ)) (now : ℕ)
    → All (λ e. e.1 ≤ now) es
    → length (recent r.window now (stored r bucket)) ≤ limit
    → length (recent r.window now (stored r bucket))
        + length (recent r.window now (allowed r bucket limit es))
      ≤ limit
unfolding allowed recent
allowed-stored r bucket limit [] now h few = omega arith
allowed-stored r bucket limit ((b, t) ∷ es) now (le, h) few =
    let rest = allowed (hit r b limit t).0 bucket limit es in
    let more =
      allowed-stored (hit r b limit t).0 bucket limit es now h
        (rw hit-window (few_stored r b bucket limit t now le few)) in
    omega (arith, rw hit-window at more, one_hit r b bucket limit t now rest le)

-- Starting from no hits, in any series of hits on any buckets with one limit, of those that were let
-- through on a bucket at most `limit` fall in the window that ends at any moment `now` from the last
-- hit on.
pub allowed_within_limit :
    (window : ℕ) (bucket : String) (limit : ℕ) (es : List (String × ℕ)) (now : ℕ)
    → All (λ e. e.1 ≤ now) es
    → length (recent window now (allowed (record { hits = []; window = window }) bucket limit es))
      ≤ limit
allowed_within_limit window bucket limit es now h =
    let r : RateLimiter = record { hits = []; window = window } in
    let none_yet : length (recent window now (stored r bucket)) ≤ limit =
      unfold lookup recent in omega arith in
    omega (arith, allowed-stored r bucket limit es now h none_yet)

room_later :
    (window now later limit : ℕ) (xs : List ℕ)
    → 1 ≤ limit
    → length xs ≤ limit
    → leb limit (length xs) ≡ true
    → now + retry_after window now xs * 1000 ≤ later
    → leb limit (length (recent window later xs)) ≡ false
unfolding retry_after recent
room_later window now later limit [] pos few full wait = ground arith
room_later window now later limit (x ∷ xs) pos few full wait =
    ground (arith, length-recent window later xs)

room_refused :
    (r : RateLimiter) (bucket : String) (limit now later : ℕ)
    → 1 ≤ limit
    → length (stored r bucket) ≤ limit
    → leb limit (length (recent_hits r bucket now)) ≡ true
    → now + retry_after r.window now (recent_hits r bucket now) * 1000 ≤ later
    → leb limit (
        length (
          recent_hits
            (record r { hits = insert bucket (recent_hits r bucket now) r.hits })
            bucket
            later))
      ≡ false
unfolding recent_hits
room_refused r bucket limit now later pos few full wait =
    rw (stored-insert r bucket bucket (recent_hits r bucket now)) (
      rw (str_eq_refl bucket) (
        room_later r.window now later limit (recent_hits r bucket now) pos
          (omega (arith, few, length-recent r.window now (stored r bucket))) full wait))

-- A refused hit says how long to wait: in a limiter that holds at most `limit` hits of the bucket, a
-- hit that comes after the seconds it answers is let through, if the bucket is not hit in between.
pub hit_after_retry :
    (r : RateLimiter) (bucket : String) (limit now later : ℕ)
    → 1 ≤ limit
    → length (or_else (lookup bucket r.hits) []) ≤ limit
    → 1 ≤ (hit r bucket limit now).1
    → now + (hit r bucket limit now).1 * 1000 ≤ later
    → (hit (hit r bucket limit now).0 bucket limit later).1 ≡ 0
hit_after_retry r bucket limit now later pos few refused wait =
    elim (Bool-cases (leb limit (length (recent_hits r bucket now)))) [
      | inr room ↦ ground (arith, hit_passes r bucket limit now room)
      | inl full ↦ rw (hit_refused r bucket limit now full) (
          ap (λ (x : RateLimiter × ℕ). x.1)
            (hit_passes (record r { hits = insert bucket (recent_hits r bucket now) r.hits }) bucket
              limit later
              (room_refused r bucket limit now later pos few full
                (rw (hit_refused r bucket limit now full) at wait))))
    ]
