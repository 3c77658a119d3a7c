-- ===== src/Rounding/HalfEven.antt =====
-- `half_even`: near, monotone, exact where the quotient is whole.
use native.Mathlib.Nat.{div-add-mod', mod-lt, mul-le-mul_right}
use native.Mathlib.Nat.{mul-div_cancel, mul-mod_left, mul-pos, eq_of_mul-eq-mul_right}
use native.Mathlib.Decide.{dec_le}
use pricestream.Base.{ℕ, suc, ◌+◌, ◌*◌, ◌/◌, ◌%◌, ◌≤◌, ◌<◌, ◌≡◌, ◌⊎◌, inl, inr, arith}
use pricestream.Rounding.{carry, half_even}

-- The carry, its direction, and the even side of a tie.
abbrev Carries : ℕ → ℕ → ℕ → ℕ → Type 0
Carries d r q c =
    (((c ≡ 0) × (2 * r ≤ q)) ⊎ ((c ≡ 1) × (q ≤ 2 * r))) × (2 * r ≡ q → (d + c) % 2 ≡ 0)

carry-Carries : (d r q : ℕ) → Carries d r q (carry d r q)
unfolding carry
carry-Carries d r q = (ground arith, λ e. ground arith)

-- The error is half a unit at most; where it is that, the result is even.
abbrev IsNear : ℕ → ℕ → ℕ → Type 0
IsNear p q n =
    (2 * (n * q) ≤ 2 * p + q)
    × (2 * p ≤ 2 * (n * q) + q)
    × (2 * (n * q) ≡ 2 * p + q → n % 2 ≡ 0)
    × (2 * p ≡ 2 * (n * q) + q → n % 2 ≡ 0)

IsNear-of_carry : (p q d r c : ℕ) → d * q + r ≡ p → r < q → Carries d r q c → IsNear p q (d + c)
IsNear-of_carry p q d r c e h (inl (z, low), even) =
    rw z (omega arith, omega arith, λ t. absurd (omega arith), λ t. rw z at (even (omega arith)))
IsNear-of_carry p q d r c e h (inr (o, high), even) =
    rw o (omega arith, omega arith, λ t. rw o at (even (omega arith)), λ t. absurd (omega arith))

half_even-IsNear : (p q : ℕ) → 0 < q → IsNear p q (half_even p q)
unfolding half_even
half_even-IsNear p q h =
    IsNear-of_carry p q (p / q) (p % q) _ (div-add-mod' p q) (mod-lt p h) (carry-Carries _ _ _)

-- The result is at most half a unit off.
pub half_even_near :
    (p q : ℕ)
    → 0 < q
    → (2 * (half_even p q * q) ≤ 2 * p + q) × (2 * p ≤ 2 * (half_even p q * q) + q)
half_even_near p q h = let (below, above, _, _) = half_even-IsNear p q h in (below, above)

pub half_even-exact : (k q : ℕ) → 0 < q → half_even (k * q) q ≡ k
unfolding half_even carry
half_even-exact k q h = rw (mul-div_cancel k h, mul-mod_left k q) (ground arith)

-- With p / q at most p' / q', the nearest numbers can differ the wrong way at a tie alone, where
-- one is the next after the other, and both would be even.
near_mono :
    (p q p' q' n n' : ℕ)
    → 0 < q
    → 0 < q'
    → p * q' ≤ p' * q
    → IsNear p q n
    → IsNear p' q' n'
    → n' < n
    → ⊥
near_mono p q p' q' n n' hq hq' le (below, _, even, _) (_, above', _, even') lt =
    let low : 2 * (n * q) * q' ≤ (2 * p + q) * q' = mul-le-mul_right q' below in
    let high : 2 * p' * q ≤ (2 * (n' * q') + q') * q = mul-le-mul_right q above' in
    let gap : suc n' * (q * q') ≤ n * (q * q') = mul-le-mul_right (q * q') lt in
    let unit : 0 < q * q' = mul-pos hq hq' in
    let tie : 2 * (n * q) ≡ 2 * p + q = eq_of_mul-eq-mul_right q' hq' _ _ (omega arith) in
    let tie' : 2 * p' ≡ 2 * (n' * q') + q' = eq_of_mul-eq-mul_right q hq _ _ (omega arith) in
    let same : n * (q * q') ≡ suc n' * (q * q') = omega arith in
    let next : n ≡ suc n' = eq_of_mul-eq-mul_right (q * q') unit _ _ same in
    omega (arith, even tie, even' tie')

-- Rounding keeps the order of the quotients.
pub half_even_mono :
    (p q p' q' : ℕ) → 0 < q → 0 < q' → p * q' ≤ p' * q → half_even p q ≤ half_even p' q'
half_even_mono p q p' q' hq hq' le = elim (dec_le (half_even p q) (half_even p' q')) [
  | yes h ↦ h
  | no h ↦ absurd (
      near_mono p q p' q' _ _ hq hq' le (half_even-IsNear p q hq) (half_even-IsNear p' q' hq')
        (omega arith))
]
