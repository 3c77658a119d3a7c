-- ===== src/Decimal/Mean.antt =====
-- The mean of decimals of few digits lies between the least and the largest of them.
use native.Mathlib.Nat.{mul-le-mul_right}
use mathlib.Core.List.{Permᴰ}
use pricestream.Base.{
  sym, ◌∙◌, All-perm, length-perm, ℕ, ◌+◌, ◌*◌, ◌^◌, ◌≤◌, ◌<◌, ◌≡◌, refl, ap, List, [], ◌∷◌, arith,
  All, length,
}
use pricestream.Base.Int.{pos, ◌+ℤ◌, ◌≤ℤ◌, +ℤ_parts, eq_of_parts}
use pricestream.Decimal.{Decimal, max_coefficient, add, sum_from}
use pricestream.Decimal.Signed.{fix-exact, over, over_mono, over-exact}

-- So many units of 10 ^ j, from lo to hi of them.
abbrev pub Within : ℕ → ℕ → ℕ → Decimal → Type 0
Within j lo hi x = (c : ℕ) × (lo ≤ c) × (c ≤ hi) × (x ≡ pos (c * 10 ^ j))

add_units :
    (j a c : ℕ)
    → a + c < max_coefficient
    → add (pos (a * 10 ^ j)) (pos (c * 10 ^ j)) ≡ pos ((a + c) * 10 ^ j)
unfolding add
add_units j a c h =
    let exact : pos (a * 10 ^ j) +ℤ pos (c * 10 ^ j) ≡ pos ((a + c) * 10 ^ j) =
      eq_of_parts _ _ (omega (arith, +ℤ_parts (pos (a * 10 ^ j)) (pos (c * 10 ^ j)))) in
    rw exact (fix-exact (pos ((a + c) * 10 ^ j)) (a + c, j, h, omega arith))

middle_swap : (a c d : ℕ) → a + c + d ≡ a + d + c
middle_swap a c d = omega arith

add_within :
    (j a c : ℕ) (x : Decimal)
    → x ≡ pos (c * 10 ^ j)
    → a + c < max_coefficient
    → add (pos (a * 10 ^ j)) x ≡ pos ((a + c) * 10 ^ j)
add_within j a c x e h = rw e (add_units j a c h)

-- The sum is exact while its coefficient has at most 28 digits.
sum_from-units :
    (j lo hi a : ℕ) (xs : List Decimal)
    → All (Within j lo hi) xs
    → a + length xs * hi < max_coefficient
    → (t : ℕ) × (sum_from (pos (a * 10 ^ j)) xs ≡ pos (t * 10 ^ j))
      × (a + length xs * lo ≤ t)
      × (t ≤ a + length xs * hi)
unfolding sum_from
sum_from-units j lo hi a [] h small = (a, refl, omega arith, omega arith)
sum_from-units j lo hi a (x ∷ xs) ((c, low, high, e), h) small =
    let step : add (pos (a * 10 ^ j)) x ≡ pos ((a + c) * 10 ^ j) =
      rw e (add_units j a c (grind arith)) in
    let (t, sum, least, most) = sum_from-units j lo hi (a + c) xs h (grind arith) in
    (t, rw step sum, grind arith, grind arith)

-- The order of the items does not matter to an exact sum.
pub sum_from-perm :
    (j hi a : ℕ) {xs ys : List Decimal}
    → Permᴰ xs ys
    → All (Within j 0 hi) xs
    → a + length xs * hi < max_coefficient
    → sum_from (pos (a * 10 ^ j)) xs ≡ sum_from (pos (a * 10 ^ j)) ys
unfolding sum_from
sum_from-perm j hi a Permᴰ.nil h small = refl
sum_from-perm j hi a (Permᴰ.cons {a = x} {b = y} {l₁ = xs} {l₂ = ys} e p) ((c, low, high, f), h)
      small =
    rw (← e, f, add_units j a c (grind arith)) (sum_from-perm j hi (a + c) p h (grind arith))
sum_from-perm j hi a (Permᴰ.swap {a = x} {b = y} {a' = x'} {b' = y'} {l = xs} e e')
      ((c, low, high, f), ((d, low', high', f'), h)) small =
    let there : add (add (pos (a * 10 ^ j)) x) y ≡ pos ((a + c + d) * 10 ^ j) =
      ap (λ s. add s y) (add_within j a c x f (grind arith))
      ∙ add_within j (a + c) d y f' (grind arith) in
    let here : add (add (pos (a * 10 ^ j)) x') y' ≡ pos ((a + d + c) * 10 ^ j) =
      ap (λ s. add s y') (add_within j a d x' (sym e' ∙ f') (grind arith))
      ∙ add_within j (a + d) c y' (sym e ∙ f) (grind arith) in
    ap (λ s. sum_from s xs) (there ∙ ap (λ n. pos (n * 10 ^ j)) (middle_swap a c d) ∙ sym here)
sum_from-perm j hi a (Permᴰ.trans p q) h small =
    sum_from-perm j hi a p h small
    ∙ sum_from-perm j hi a q (All-perm (Within j 0 hi) p h) (grind (arith, length-perm p))

-- The mean of at least one item, as Python computes it.
pub mean_bounds :
    (j lo hi : ℕ) (x : Decimal) (xs : List Decimal)
    → All (Within j lo hi) (x ∷ xs)
    → length (x ∷ xs) * hi < max_coefficient
    → let mean = over (sum_from (pos 0) (x ∷ xs)) (length (x ∷ xs)) in
      (pos (lo * 10 ^ j) ≤ℤ mean) × (mean ≤ℤ pos (hi * 10 ^ j))
mean_bounds j lo hi x xs h small =
    let n : ℕ = length (x ∷ xs) in
    let (c, low, high, _) = h.0 in
    let one : hi ≤ n * hi = grind arith in
    let (t, sum, least, most) = sum_from-units j lo hi 0 (x ∷ xs) h (omega arith) in
    let start : pos (0 * 10 ^ j) ≡ pos 0 = ap pos (omega arith) in
    let total : sum_from (pos 0) (x ∷ xs) ≡ pos (t * 10 ^ j) = rw start at sum in
    let bottom : lo * 10 ^ j * n ≤ t * 10 ^ j = omega (arith, mul-le-mul_right (10 ^ j) least) in
    let top : t * 10 ^ j ≤ hi * 10 ^ j * n = omega (arith, mul-le-mul_right (10 ^ j) most) in
    let lower =
      over_mono (pos (lo * 10 ^ j * n)) (pos (t * 10 ^ j)) n (omega arith) (omega arith) in
    let upper =
      over_mono (pos (t * 10 ^ j)) (pos (hi * 10 ^ j * n)) n (omega arith) (omega arith) in
    rw total (
      rw (over-exact (lo * 10 ^ j) n (omega arith) (lo, j, omega arith, refl)) at lower,
      rw (over-exact (hi * 10 ^ j) n (omega arith) (hi, j, omega arith, refl)) at upper,
    )
