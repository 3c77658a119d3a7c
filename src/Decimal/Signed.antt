-- ===== src/Decimal/Signed.antt =====
-- The signed operations on decimals: signs, order, exact results, and quotients by a count.
use native.Mathlib.Nat.{mul-pos, mul-le-mul_right, one-le-pow}
use pricestream.Base.{ℕ, zero, suc, ◌+◌, ◌*◌, ◌^◌, ◌<◌, ◌≡◌, refl, ap, true, arith}
use pricestream.Base.Int.{ℤ, pos, negsuc, pos_part, neg_part, ◌-ℤ◌, ◌≤ℤ◌, ◌<ℤ◌, ltb_ℤ, int_laws}
use pricestream.Base.Result.{ok}
use pricestream.Decimal.{Decimal, from_int, negate, magnitude, fix, sub, div}
use pricestream.Decimal.Laws.{
  Fits, magnitude-exact, magnitude-exact_one, magnitude_mono, magnitude-pos, magnitude-zero,
}

-- The magnitude of a number.
abbrev pub abs : Decimal → ℕ
abs a = pos_part a + neg_part a

pub fix-pos : (z : ℤ) → pos 0 <ℤ z → pos 0 <ℤ fix z
unfolding fix
fix-pos (pos n) h = omega (arith, magnitude-pos n 1 (omega arith) (omega arith))
fix-pos (negsuc n) h = absurd (omega arith)

pub fix_mono : (z w : ℤ) → z ≤ℤ w → fix z ≤ℤ fix w
unfolding fix
fix_mono (pos m) (pos n) h =
    omega (arith, magnitude_mono m 1 n 1 (omega arith) (omega arith) (omega arith))
fix_mono (pos m) (negsuc n) h = absurd (omega arith)
fix_mono (negsuc m) (pos n) h = ground arith
fix_mono (negsuc m) (negsuc n) h =
    ground (arith, magnitude_mono (suc n) 1 (suc m) 1 (omega arith) (omega arith) (omega arith))

pub fix-zero : fix (pos 0) ≡ pos 0
unfolding fix
fix-zero = ap pos (magnitude-zero 1 (omega arith))

pub fix-nonpos : (z : ℤ) → z ≤ℤ pos 0 → fix z ≤ℤ pos 0
fix-nonpos z h = omega (arith, fix_mono z (pos 0) h, ap pos_part fix-zero, ap neg_part fix-zero)

pub fix-exact : (z : ℤ) → Fits (abs z) → fix z ≡ z
unfolding fix
fix-exact (pos n) (c, j, hc, e) = ap pos (magnitude-exact_one n (c, j, hc, omega arith))
fix-exact (negsuc n) (c, j, hc, e) =
    ground (arith, magnitude-exact_one (suc n) (c, j, hc, omega arith))

-- A difference has the sign of the exact one: rounding does not make it vanish.
pub sub-pos : (a b : Decimal) → b <ℤ a → pos 0 <ℤ sub a b
unfolding sub
sub-pos a b h = fix-pos (a -ℤ b) (omega int_laws)

pub sub-nonpos : (a b : Decimal) → a ≤ℤ b → sub a b ≤ℤ pos 0
unfolding sub
sub-nonpos a b h = fix-nonpos (a -ℤ b) (omega int_laws)

-- A quotient by a positive count, with no context of units.
unfoldable pub over : Decimal → ℕ → Decimal
over (pos m) k = pos (magnitude m k)
over (negsuc m) k = negate (magnitude (suc m) k)

magnitude_scale : (p q u : ℕ) → 0 < q → 0 < u → magnitude (p * u) (q * u) ≡ magnitude p q
magnitude_scale p q u hq hu =
    let pos_qu : 0 < q * u = mul-pos hq hu in
    omega (
      arith,
      magnitude_mono (p * u) (q * u) p q pos_qu hq (omega arith),
      magnitude_mono p q (p * u) (q * u) hq pos_qu (omega arith),
    )

pub div-pos : (e m n : ℕ) → 0 < n → div e (pos m) (pos n) ≡ ok (pos (magnitude (m * 10 ^ e) n))
unfolding div
div-pos e m zero h = elim h [ ]
div-pos e m (suc n) h = refl

-- Division by a positive number returns, whatever is divided.
pub div-returns : (e : ℕ) (a : Decimal) (n : ℕ) → 0 < n → (r : Decimal) × (div e a (pos n) ≡ ok r)
unfolding div
div-returns e a zero h = elim h [ ]
div-returns e (pos m) (suc n) h = (_, refl)
div-returns e (negsuc m) (suc n) h = (_, refl)

pub div-positive :
    (e : ℕ) (a b : Decimal) → ltb_ℤ (pos 0) b ≡ true → (r : Decimal) × (div e a b ≡ ok r)
div-positive e a (pos n) h = div-returns e a n (ground arith)
div-positive e a (negsuc n) h = absurd (ground arith)

div_scaled :
    (e : ℕ) (a : Decimal) (k n : ℕ) → 0 < k → k * 10 ^ e ≡ n → div e a (pos n) ≡ ok (over a k)
unfolding div over
div_scaled e a k zero hk h = absurd (omega (arith, mul-pos hk (one-le-pow e 10 (omega arith))))
div_scaled e (pos m) k (suc n) hk h =
    rw (← h, magnitude_scale m k (10 ^ e) hk (one-le-pow e 10 (omega arith)))
div_scaled e (negsuc m) k (suc n) hk h =
    rw (← h, magnitude_scale (suc m) k (10 ^ e) hk (one-le-pow e 10 (omega arith)))

-- Dividing by the decimal of a positive int is dividing the units.
pub div-from_int : (e : ℕ) (a : Decimal) (k : ℕ) → 0 < k → div e a (from_int e k) ≡ ok (over a k)
div-from_int e a k hk = div_scaled e a k _ hk refl

pub over_mono : (a b : Decimal) (k : ℕ) → 0 < k → a ≤ℤ b → over a k ≤ℤ over b k
unfolding over
over_mono (pos m) (pos n) k hk h =
    omega (arith, magnitude_mono m k n k hk hk (mul-le-mul_right k (omega arith)))
over_mono (pos m) (negsuc n) k hk h = absurd (omega arith)
over_mono (negsuc m) (pos n) k hk h = ground arith
over_mono (negsuc m) (negsuc n) k hk h =
    ground (arith, magnitude_mono (suc n) k (suc m) k hk hk (mul-le-mul_right k (omega arith)))

-- A positive number of at least k units stays positive.
pub over-pos : (a : Decimal) (k : ℕ) → 0 < k → pos k ≤ℤ a → pos 0 <ℤ over a k
unfolding over
over-pos (pos m) k hk h = omega (arith, magnitude-pos m k hk (omega arith))
over-pos (negsuc m) k hk h = absurd (omega arith)

-- A whole multiple of the count of at most 28 digits divides exactly.
pub over-exact : (n k : ℕ) → 0 < k → Fits n → over (pos (n * k)) k ≡ pos n
unfolding over
over-exact n k hk f = ap pos (magnitude-exact n k hk f)
