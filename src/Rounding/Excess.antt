-- ===== src/Rounding/Excess.antt =====
-- `excess` finds the least power, within a fuel of p.
use native.Mathlib.Nat.{pow-zero, mul_assoc, mul-le-mul_left}
use pricestream.Base.{ℕ, zero, suc, ◌+◌, ◌*◌, ◌^◌, ◌≤◌, ◌<◌, arith}
use pricestream.Rounding.{excess}
use native.Mathlib.Nat.{pow-succ'}

-- Every smaller power is too small.
pub excess-least : (f b m p j : ℕ) → j < excess f b m p → m * b ^ j ≤ p
unfolding excess
excess-least zero b m p j h = elim h [ ]
excess-least (suc f) b m p zero h = ground (arith, pow-zero b)
excess-least (suc f) b m p (suc j) h =
    ground (arith, excess-least f b (m * b) p j, pow-succ' b j, mul_assoc m b (b ^ j))

-- The power that is found is large enough.
pub excess-enough : (f b m p : ℕ) → 2 ≤ b → 0 < m → p < m + f → p < m * b ^ excess f b m p
unfolding excess
excess-enough zero b m p hb hm h = ground (arith, pow-zero b)
excess-enough (suc f) b m p hb hm h = ground (
  arith,
  pow-zero b,
  excess-enough f b (m * b) p hb,
  mul-le-mul_left m hb,
  pow-succ' b (excess f b (m * b) p),
  mul_assoc m b (b ^ excess f b (m * b) p),
)
