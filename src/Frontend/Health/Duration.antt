-- ===== src/Frontend/Health/Duration.antt =====
-- `formatDuration` prints whole seconds in hours, minutes and seconds.
use wordpress.Common.{
  String, arith, if◌then◌else◌, ltb, refl, suc, true, zero, ℕ, ◌%◌, ◌*◌, ◌+◌, ◌/◌, ◌<◌, ◌≡◌,
}
use wordpress.Frontend.Health.Endpoints.{format_duration}
use Prim.Native.String.{◌++◌ as ◌<>◌}

ltb-suc : (n : ℕ) → ltb 0 (suc n) ≡ true
ltb-suc n = ground arith

module _ (show : ℕ → String) where
  -- The text for hours, minutes and seconds, from the first that is not 0.
  abbrev pub parts_text : ℕ → ℕ → ℕ → String
  parts_text zero zero s = show s <> "s"
  parts_text zero (suc m) s = show (suc m) <> "m " <> show s <> "s"
  parts_text (suc h) m s = show (suc h) <> "h " <> show m <> "m " <> show s <> "s"

  whole_seconds :
      (h m s r : ℕ)
      → r < 1000
      → (h * 3_600_000 + m * 60_000 + s * 1000 + r) / 1000 ≡ h * 3600 + m * 60 + s
  whole_seconds h m s r hr = omega arith

  whole_minutes : (h m s : ℕ) → s < 60 → (h * 3600 + m * 60 + s) / 60 ≡ h * 60 + m
  whole_minutes h m s hs = omega arith

  whole_hours : (h m : ℕ) → m < 60 → (h * 60 + m) / 60 ≡ h
  whole_hours h m hm = omega arith

  left_minutes : (h m : ℕ) → m < 60 → (h * 60 + m) % 60 ≡ m
  left_minutes h m hm = omega arith

  left_seconds : (h m s : ℕ) → s < 60 → (h * 3600 + m * 60 + s) % 60 ≡ s
  left_seconds h m s hs = omega arith

  chosen_parts :
      (h m s x y : ℕ)
      → x ≡ h * 60 + m
      → y ≡ h * 3600 + m * 60 + s
      → (if ltb 0 h
          then show h <> "h " <> show m <> "m " <> show s <> "s"
          else if ltb 0 x
          then show x <> "m " <> show s <> "s"
          else show y <> "s")
        ≡ parts_text h m s
  chosen_parts zero zero s x y ex ey =
      let a : x ≡ 0 = omega arith in let b : y ≡ s = omega arith in rw (a, b) refl
  chosen_parts zero (suc m) s x y ex ey =
      let a : x ≡ suc m = omega arith in rw a (rw (ltb-suc m) refl)
  chosen_parts (suc h) m s x y ex ey = rw (ltb-suc h) refl

  -- A duration of `h` hours, `m` minutes, `s` seconds and less than a second more is printed as those
  -- three numbers, without the leading ones that are 0.
  pub format_duration-parts :
      (h m s r : ℕ)
      → m < 60
      → s < 60
      → r < 1000
      → format_duration show (h * 3_600_000 + m * 60_000 + s * 1000 + r) ≡ parts_text h m s
  unfolding format_duration
  format_duration-parts h m s r hm hs hr = rw (whole_seconds h m s r hr) (
      rw (whole_minutes h m s hs) (
        rw (whole_hours h m hm, left_minutes h m hm, left_seconds h m s hs)
          (chosen_parts h m s (h * 60 + m) (h * 3600 + m * 60 + s) refl refl)))
