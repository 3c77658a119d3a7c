-- ===== src/Rounding/Laws.antt =====
-- `round`: exact on what has so few digits, and monotone.
use native.Mathlib.Nat.{
  pow-zero, add-zero, add-suc, mul-pos, mul-le-mul_left, mul-le-mul_right, mul_assoc, pow-suc,
  pow-le-pow_right, one-le-pow,
}
use native.Mathlib.Decide.{dec_le, dec_lt}
use pricestream.Base.{ℕ, zero, suc, ◌+◌, ◌-◌, ◌*◌, ◌^◌, ◌≤◌, ◌<◌, ◌≡◌, refl, ap, arith}
use pricestream.Rounding.{half_even, excess, round}
use pricestream.Rounding.HalfEven.{half_even_mono, half_even-exact}
use pricestream.Rounding.Excess.{excess-least, excess-enough}

-- There is no library law for a power of a sum.
pub pow-add : (b i j : ℕ) → b ^ (i + j) ≡ b ^ i * b ^ j
pow-add b i zero =
    omega (arith, ap (λ (t : ℕ). b ^ i * t) (pow-zero b), ap (λ (t : ℕ). b ^ t) (add-zero i))
pow-add b i (suc j) =
    rw (add-suc i j, pow-suc b (i + j), pow-suc b j, pow-add b i j) (mul_assoc (b ^ i) (b ^ j) b)

pow_split : (b j k : ℕ) → k ≤ j → b ^ (j - k) * b ^ k ≡ b ^ j
pow_split b j k h = rw (← pow-add b (j - k) k) (ap (λ (t : ℕ). b ^ t) (omega arith))

exact_at :
    (b c j q k : ℕ)
    → 0 < q * b ^ k
    → k ≤ j
    → half_even (c * b ^ j * q) (q * b ^ k) * b ^ k ≡ c * b ^ j
exact_at b c j q k pos h =
    let whole : c * b ^ j * q ≡ c * b ^ (j - k) * (q * b ^ k) =
      rw (← pow_split b j k h) (omega arith) in
    rw (whole, half_even-exact (c * b ^ (j - k)) (q * b ^ k) pos)
      (omega (arith, ap (λ (t : ℕ). c * t) (pow_split b j k h)))

module _ (b limit : ℕ) (base : 2 ≤ b) (some_digits : 0 < limit) where
  grain-pos : (k : ℕ) → 0 < b ^ k
  grain-pos k = one-le-pow k b (omega arith)

  excess-le_of_grid :
      (c j q : ℕ) → 0 < q → c < limit → excess (c * b ^ j * q) b (limit * q) (c * b ^ j * q) ≤ j
  excess-le_of_grid c j q hq hc =
      elim (dec_le (excess (c * b ^ j * q) b (limit * q) (c * b ^ j * q)) j) [
        | yes h ↦ h
        | no h ↦
            let big : limit * q * b ^ j ≤ c * b ^ j * q =
              excess-least (c * b ^ j * q) b (limit * q) (c * b ^ j * q) j (omega arith) in
            let small : suc c * (b ^ j * q) ≤ limit * (b ^ j * q) =
              mul-le-mul_right (b ^ j * q) hc in
            let unit : 0 < b ^ j * q = mul-pos (grain-pos j) hq in absurd (omega arith)
      ]

  -- What stands on the grid is found again.
  pub round-exact : (c j q : ℕ) → 0 < q → c < limit → round b limit (c * b ^ j * q) q ≡ c * b ^ j
  unfolding round
  round-exact c j q hq hc =
      exact_at b c j q _ (mul-pos hq (grain-pos _)) (excess-le_of_grid c j q hq hc)

  below_limit : (p q : ℕ) → 0 < q → p < limit * q * b ^ excess p b (limit * q) p
  below_limit p q hq =
      let pos : 0 < limit * q = mul-pos some_digits hq in
      excess-enough p b (limit * q) p base pos (omega arith)

  -- A quotient that is no larger has no coarser grid.
  excess_mono :
      (p q p' q' : ℕ)
      → 0 < q
      → 0 < q'
      → p * q' ≤ p' * q
      → excess p b (limit * q) p ≤ excess p' b (limit * q') p'
  excess_mono p q p' q' hq hq' le =
      let k = excess p b (limit * q) p in
      let k' = excess p' b (limit * q') p' in
      elim (dec_le k k') [
        | yes h ↦ h
        | no h ↦
            let least : limit * q * b ^ k' ≤ p = excess-least p b (limit * q) p k' (omega arith) in
            let enough : p' < limit * q' * b ^ k' = below_limit p' q' hq' in
            let least' : limit * q * b ^ k' * q' ≤ p * q' = mul-le-mul_right q' least in
            let enough' : suc p' * q ≤ limit * q' * b ^ k' * q = mul-le-mul_right q enough in
            absurd (omega arith)
      ]

half_even-le : (p q n : ℕ) → 0 < q → p ≤ n * q → half_even p q ≤ n
half_even-le p q n hq h =
    rw (half_even-exact n q hq) at (half_even_mono p q (n * q) q hq hq (mul-le-mul_right q h))

le-half_even : (p q n : ℕ) → 0 < q → n * q ≤ p → n ≤ half_even p q
le-half_even p q n hq h =
    rw (half_even-exact n q hq) at (half_even_mono (n * q) q p q hq hq (mul-le-mul_right q h))

module _ (b top : ℕ) (base : 2 ≤ b) (top_pos : 0 < top) where
  limit_pos : 0 < top * b
  limit_pos = mul-pos top_pos (omega arith)

  -- On one grid, the nearest points keep the order.
  mono_same :
      (p q p' q' k k' : ℕ)
      → 0 < q
      → 0 < q'
      → p * q' ≤ p' * q
      → k ≡ k'
      → half_even p (q * b ^ k) * b ^ k ≤ half_even p' (q' * b ^ k') * b ^ k'
  mono_same p q p' q' k k' hq hq' le e =
      let unit : 0 < b ^ k' = grain-pos b (top * b) base limit_pos k' in
      let scaled : p * q' * b ^ k' ≤ p' * q * b ^ k' = mul-le-mul_right (b ^ k') le in
      rw e (
        mul-le-mul_right (b ^ k') (
          half_even_mono p (q * b ^ k') p' (q' * b ^ k') (mul-pos hq unit) (mul-pos hq' unit)
            (omega arith)))

  -- A finer grid ends where the next coarser one has its first point with all digits.
  mono_coarser :
      (p q p' q' k k' : ℕ)
      → 0 < q
      → 0 < q'
      → p < top * b * q * b ^ k
      → k < suc k'
      → top * b * q' * b ^ k' ≤ p'
      → half_even p (q * b ^ k) * b ^ k ≤ half_even p' (q' * b ^ suc k') * b ^ suc k'
  mono_coarser p q p' q' k k' hq hq' below lt least =
      let unit : 0 < b ^ k = grain-pos b (top * b) base limit_pos k in
      let unit' : 0 < b ^ suc k' = grain-pos b (top * b) base limit_pos (suc k') in
      let step : b ^ suc k' ≡ b ^ k' * b = pow-suc b k' in
      let step_top : top * q' * b ^ suc k' ≡ top * q' * (b ^ k' * b) =
        ap (λ (t : ℕ). top * q' * t) step in
      let step_top' : top * b ^ suc k' ≡ top * (b ^ k' * b) = ap (λ (t : ℕ). top * t) step in
      let low : half_even p (q * b ^ k) ≤ top * b =
        half_even-le p (q * b ^ k) (top * b) (mul-pos hq unit) (omega arith) in
      let high : top ≤ half_even p' (q' * b ^ suc k') =
        le-half_even p' (q' * b ^ suc k') top (mul-pos hq' unit') (omega arith) in
      let low' : half_even p (q * b ^ k) * b ^ k ≤ top * b * b ^ k = mul-le-mul_right (b ^ k) low in
      let high' : top * b ^ suc k' ≤ half_even p' (q' * b ^ suc k') * b ^ suc k' =
        mul-le-mul_right (b ^ suc k') high in
      let grids : top * b * b ^ k ≤ top * b * b ^ k' =
        mul-le-mul_left (top * b) (pow-le-pow_right (omega arith) (omega arith)) in
      omega arith

  -- Rounding keeps the order of the quotients, also across a change of the grid.
  pub round_mono :
      (p q p' q' : ℕ)
      → 0 < q
      → 0 < q'
      → p * q' ≤ p' * q
      → round b (top * b) p q ≤ round b (top * b) p' q'
  unfolding round
  round_mono p q p' q' hq hq' le = go (excess p' b (top * b * q') p') refl
    where
      finer : excess p b (top * b * q) p ≤ excess p' b (top * b * q') p'
      finer = excess_mono b (top * b) base limit_pos p q p' q' hq hq' le

      go :
          (k' : ℕ)
          → excess p' b (top * b * q') p' ≡ k'
          → half_even p (q * b ^ excess p b (top * b * q) p) * b ^ excess p b (top * b * q) p
            ≤ half_even p' (q' * b ^ excess p' b (top * b * q') p')
              * b ^ excess p' b (top * b * q') p'
      go zero e = mono_same p q p' q' _ _ hq hq' le (omega (arith, finer))
      go (suc k') e = elim (dec_lt (excess p b (top * b * q) p) (suc k')) [
        | yes lt ↦ rw e (
            mono_coarser p q p' q' _ k' hq hq' (below_limit b (top * b) base limit_pos p q hq) lt
              (excess-least p' b (top * b * q') p' k' (omega arith)))
        | no ge ↦ mono_same p q p' q' _ _ hq hq' le (omega (arith, finer))
      ]

  -- A point of the grid that is at least the quotient is at least the result, and so below.
  pub round-le :
      (c j p q : ℕ) → 0 < q → c < top * b → p ≤ c * b ^ j * q → round b (top * b) p q ≤ c * b ^ j
  round-le c j p q hq hc h =
      rw (round-exact b (top * b) base limit_pos c j q hq hc) at
        (round_mono p q (c * b ^ j * q) q hq hq (mul-le-mul_right q h))

  pub le-round :
      (c j p q : ℕ) → 0 < q → c < top * b → c * b ^ j * q ≤ p → c * b ^ j ≤ round b (top * b) p q
  le-round c j p q hq hc h =
      rw (round-exact b (top * b) base limit_pos c j q hq hc) at
        (round_mono (c * b ^ j * q) q p q hq hq (mul-le-mul_right q h))
