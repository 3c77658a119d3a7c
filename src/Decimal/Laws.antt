-- ===== src/Decimal/Laws.antt =====
-- Decimal arithmetic: what is exact, and what rounding keeps.
use native.Mathlib.Nat.{mul-one, mul-le-mul_right}
use pricestream.Base.{ℕ, ◌*◌, ◌^◌, ◌≤◌, ◌<◌, ◌≡◌, refl, ap, arith}
use pricestream.Rounding.Laws.{round-exact, round_mono}
use pricestream.Decimal.{max_coefficient, magnitude}

-- A magnitude of at most 28 digits, with zeros behind them.
abbrev pub Fits : ℕ → Type 0
Fits n = (c : ℕ) × (j : ℕ) × (c < max_coefficient) × (n ≡ c * 10 ^ j)

pub magnitude-exact : (n q : ℕ) → 0 < q → Fits n → magnitude (n * q) q ≡ n
unfolding magnitude
magnitude-exact n q hq (c, j, hc, e) =
    rw e (round-exact 10 max_coefficient (omega arith) (omega arith) c j q hq hc)

pub magnitude-exact_one : (n : ℕ) → Fits n → magnitude n 1 ≡ n
magnitude-exact_one n f =
    omega (arith, ap (λ (t : ℕ). magnitude t 1) (mul-one n), magnitude-exact n 1 (omega arith) f)

pub magnitude_mono :
    (p q p' q' : ℕ) → 0 < q → 0 < q' → p * q' ≤ p' * q → magnitude p q ≤ magnitude p' q'
unfolding magnitude
magnitude_mono = round_mono 10 (10 ^ 27) (omega arith) (omega arith)

pub magnitude-le : (n p q : ℕ) → 0 < q → Fits n → p ≤ n * q → magnitude p q ≤ n
magnitude-le n p q hq f h =
    rw (magnitude-exact n q hq f) at (magnitude_mono p q (n * q) q hq hq (mul-le-mul_right q h))

pub le-magnitude : (n p q : ℕ) → 0 < q → Fits n → n * q ≤ p → n ≤ magnitude p q
le-magnitude n p q hq f h =
    rw (magnitude-exact n q hq f) at (magnitude_mono (n * q) q p q hq hq (mul-le-mul_right q h))

one-Fits : Fits 1
one-Fits = (1, 0, omega arith, refl)

zero-Fits : Fits 0
zero-Fits = (0, 0, omega arith, refl)

-- Nothing of a whole unit or more is rounded away, and nothing comes from nothing.
pub magnitude-pos : (p q : ℕ) → 0 < q → q ≤ p → 0 < magnitude p q
magnitude-pos p q hq h = le-magnitude 1 p q hq one-Fits (omega arith)

pub magnitude-zero : (q : ℕ) → 0 < q → magnitude 0 q ≡ 0
magnitude-zero q hq = omega (arith, magnitude-le 0 0 q hq zero-Fits (omega arith))
