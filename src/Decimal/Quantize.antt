-- ===== src/Decimal/Quantize.antt =====
-- `quantize` keeps the order, and keeps what it gave once.
use pricestream.Base.{
  ℕ, zero, suc, ◌*◌, ◌≤◌, ◌<◌, ◌≡◌, refl, arith, Bool-cases, true, inl, inr, ltb,
}
use pricestream.Base.Int.{pos, negsuc, ◌≤ℤ◌}
use pricestream.Base.Result.{ok, ok-injective}
use pricestream.Rounding.{half_even}
use pricestream.Rounding.HalfEven.{half_even_mono, half_even-exact}
use pricestream.Decimal.{Decimal, negate, quantize}
use native.Mathlib.Nat.{mul-le-mul_right}

module _ (limit unit : ℕ) (unit_pos : 0 < unit) where
  grid_mono : (m n : ℕ) → m ≤ n → half_even m unit * unit ≤ half_even n unit * unit
  grid_mono m n h =
      mul-le-mul_right unit
        (half_even_mono m unit n unit unit_pos unit_pos (mul-le-mul_right unit h))

  pub quantize_mono :
      (a b a' b' : Decimal)
      → quantize limit unit a ≡ ok a'
      → quantize limit unit b ≡ ok b'
      → a ≤ℤ b
      → a' ≤ℤ b'
  unfolding quantize
  quantize_mono (pos m) (pos n) a' b' p q h = ground (arith, grid_mono m n)
  quantize_mono (pos m) (negsuc n) a' b' p q h = absurd (omega arith)
  quantize_mono (negsuc m) (pos n) a' b' p q h = ground arith
  quantize_mono (negsuc m) (negsuc n) a' b' p q h = ground (arith, grid_mono (suc n) (suc m))

  pos_on_grid :
      (c : ℕ) → ltb c limit ≡ true → quantize limit unit (pos (c * unit)) ≡ ok (pos (c * unit))
  unfolding quantize
  pos_on_grid c h = rw (half_even-exact c unit unit_pos, h)

  neg_on_grid :
      (c n : ℕ) → n ≡ c * unit → ltb c limit ≡ true → quantize limit unit (negate n) ≡ ok (negate n)
  unfolding quantize
  neg_on_grid c zero e h = rw e (pos_on_grid c h)
  neg_on_grid c (suc n) e h =
      let minus : negate (suc n) ≡ negsuc n = ground arith in
      rw (minus, e, half_even-exact c unit unit_pos, h) (rw (← e, minus))

  pub quantize_stable :
      (a a' : Decimal) → quantize limit unit a ≡ ok a' → quantize limit unit a' ≡ ok a'
  unfolding quantize
  quantize_stable (pos m) a' p = elim (Bool-cases (ltb (half_even m unit) limit)) [
    | inl fits ↦
        rw (← ok-injective _ a' (rw fits at p))
          (unfold quantize in pos_on_grid (half_even m unit) fits)
    | inr large ↦ cc (rw large at p)
  ]
  quantize_stable (negsuc m) a' p = elim (Bool-cases (ltb (half_even (suc m) unit) limit)) [
    | inl fits ↦
        rw (← ok-injective _ a' (rw fits at p)) (neg_on_grid (half_even (suc m) unit) _ refl fits)
    | inr large ↦ cc (rw large at p)
  ]
