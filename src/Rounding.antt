-- ===== src/Rounding.antt =====
-- Correct rounding, as Python's `decimal` (28 significant digits, ROUND_HALF_EVEN) and its floats
-- (53 bits, ties to even) do it: a quotient of naturals is put on the grid of the numbers with so
-- many significant digits, all counted in units of the smallest step.
pub mod HalfEven
pub mod Excess
pub mod Laws
use pricestream.Base.{ℕ, zero, suc, ◌+◌, ◌*◌, ◌/◌, ◌%◌, ◌^◌, true, false, ltb, if◌then◌else◌}

-- What rounding adds to the quotient d with remainder r: a tie goes to the even side.
unfoldable pub carry : ℕ → ℕ → ℕ → ℕ
carry d r q = if ltb (2 * r) q then 0 else if ltb q (2 * r) then 1 else d % 2

-- The whole number nearest to p / q; of two that are as near, the even one.
unfoldable pub half_even : ℕ → ℕ → ℕ
unfolding carry
half_even p q = let d = p / q in d + carry d (p % q) q

-- The number of low digits to drop, so that p lies below m times the power: the least k with
-- p < m * b ^ k, searched from 0 up.
unfoldable pub excess : ℕ → ℕ → ℕ → ℕ → ℕ
excess zero b m p = 0
excess (suc fuel) b m p = elim (ltb p m) [ true ↦ 0 | false ↦ suc (excess fuel b (m * b) p) ]

-- p / q to the nearest number whose digits in base b lie below `limit`, with zeros behind them.
unfoldable pub round : ℕ → ℕ → ℕ → ℕ → ℕ
round b limit p q = let g = b ^ excess p b (limit * q) p in half_even p (q * g) * g
