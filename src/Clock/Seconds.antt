-- ===== src/Clock/Seconds.antt =====
-- `total_seconds` loses nothing that its uses here need, up to some 2 ** 33 seconds.
use native.Mathlib.Nat.{mul-le-mul_right, one-le-pow, le-div_iff_mul-le, div-lt_iff_lt-mul}
use pricestream.Base.{ℕ, suc, ◌+◌, ◌*◌, ◌/◌, ◌^◌, ◌≤◌, ◌<◌, ◌≡◌, ◌↔◌, ap, true, arith}
use pricestream.Base.Int.{ℤ, pos, negsuc, ◌≤ℤ◌}
use pricestream.Rounding.Laws.{round-le, le-round, pow-add}
use native.Mathlib.Decide.{dec_le}
use pricestream.Rounding.{round}
use pricestream.Clock.{max_significand, float_div, total_seconds, truncate, float_le_int}

-- 2 ^ (g + 20) units make one; 2 ^ g of them are less than a millionth.
module _ (g : ℕ) where
  abbrev one : ℕ
  one = 2 ^ (g + 20)

  one-eq : one ≡ 1_048_576 * 2 ^ g
  one-eq = omega (arith, pow-add 2 g 20)

  grid : 0 < 2 ^ g
  grid = one-le-pow g 2 (omega arith)

  by_grid : (m : ℕ) → m * one ≡ m * 1_048_576 * 2 ^ g
  by_grid m = omega (arith, ap (λ (t : ℕ). m * t) one-eq)

  scaled : (m n : ℕ) → m ≤ n → m * one ≤ n * one
  scaled m n h = mul-le-mul_right one h

  -- From s seconds on, the float is at least s.
  float_div-ge :
      (us s : ℕ) → s < 2 ^ 33 → s * 1_000_000 ≤ us → s * one ≤ float_div (g + 20) us 1_000_000
  unfolding float_div
  float_div-ge us s hs h =
      le-round 2 (2 ^ 52) (omega arith) (omega arith) s (g + 20) (us * one) 1_000_000 (omega arith)
        (omega arith) (omega (arith, scaled (s * 1_000_000) us h))

  -- Before the end of second s, the float is less than s + 1.
  float_div-lt :
      (us s : ℕ)
      → s < 2 ^ 33
      → us < suc s * 1_000_000
      → float_div (g + 20) us 1_000_000 < suc s * one
  unfolding float_div
  float_div-lt us s hs h =
      let fits : us * one ≤ (s * 1_048_576 + 1_048_575) * 2 ^ g * 1_000_000 =
        omega (arith, by_grid us, mul-le-mul_right (2 ^ g) h, grid) in
      let below : round 2 max_significand (us * one) 1_000_000
          ≤ (s * 1_048_576 + 1_048_575) * 2 ^ g =
        round-le 2 (2 ^ 52) (omega arith) (omega arith) (s * 1_048_576 + 1_048_575) g (us * one)
          1_000_000 (omega arith) (omega arith) fits in
      omega (arith, by_grid s, by_grid 1, grid)

  -- A microsecond over s seconds, the float is more than s.
  float_div-gt :
      (us s : ℕ) → s < 2 ^ 33 → s * 1_000_000 < us → s * one < float_div (g + 20) us 1_000_000
  unfolding float_div
  float_div-gt us s hs h =
      let fits : (s * 1_048_576 + 1) * 2 ^ g * 1_000_000 ≤ us * one =
        omega (arith, by_grid us, mul-le-mul_right (2 ^ g) h, grid) in
      let above : (s * 1_048_576 + 1) * 2 ^ g ≤ round 2 max_significand (us * one) 1_000_000 =
        le-round 2 (2 ^ 52) (omega arith) (omega arith) (s * 1_048_576 + 1) g (us * one) 1_000_000
          (omega arith) (omega arith) fits in
      omega (arith, by_grid s, grid)

  -- Up to s seconds, the float is at most s.
  float_div-le :
      (us s : ℕ) → s < 2 ^ 33 → us ≤ s * 1_000_000 → float_div (g + 20) us 1_000_000 ≤ s * one
  unfolding float_div
  float_div-le us s hs h =
      round-le 2 (2 ^ 52) (omega arith) (omega arith) s (g + 20) (us * one) 1_000_000 (omega arith)
        (omega arith) (omega (arith, scaled us (s * 1_000_000) h))

-- The whole seconds of a difference survive the float.
pub truncate-total_seconds :
    (g us : ℕ)
    → us < 2 ^ 33 * 1_000_000
    → truncate (g + 20) (total_seconds (g + 20) (pos us)) ≡ pos (us / 1_000_000)
unfolding truncate total_seconds
truncate-total_seconds g us h =
    let s = us / 1_000_000 in
    let unit : 0 < 2 ^ (g + 20) = one-le-pow (g + 20) 2 (omega arith) in
    let low : s ≤ float_div (g + 20) us 1_000_000 / 2 ^ (g + 20) =
      (le-div_iff_mul-le unit).1 (float_div-ge g us s (omega arith) (omega arith)) in
    let high : float_div (g + 20) us 1_000_000 / 2 ^ (g + 20) < suc s =
      (div-lt_iff_lt-mul unit).1 (float_div-lt g us s (omega arith) (omega arith)) in
    ap pos (omega arith)

-- Comparing the float with a whole number of seconds is comparing the microseconds.
pub float_le_int-total_seconds :
    (g n : ℕ) (d : ℤ)
    → n < 2 ^ 33
    → (float_le_int (g + 20) (total_seconds (g + 20) d) (pos n) ≡ true) ↔ (d ≤ℤ pos (n * 1_000_000))
unfolding float_le_int total_seconds
float_le_int-total_seconds g n (pos us) h = elim (dec_le us (n * 1_000_000)) [
  | yes le ↦ let fits = float_div-le g us n h le in (λ _. omega arith, λ _. ground arith)
  | no gt ↦
      let over = float_div-gt g us n h (omega arith) in
      (λ e. ground arith, λ le. absurd (omega arith))
]
float_le_int-total_seconds g n (negsuc us) h = (λ _. omega arith, λ _. ground arith)
