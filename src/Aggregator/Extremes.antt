-- ===== src/Aggregator/Extremes.antt =====
-- What `max` and `min` of a non-empty sequence give: a bound that one of the items reaches.
use pricestream.Base.{
  ◌≡◌, refl, ◌∙◌, ◌⊎◌, inl, inr, if◌then◌else◌, Bool-cases, List, [], ◌∷◌, map, arith, All, Any,
}
use pricestream.Base.Int.{◌≤ℤ◌, ltb_ℤ}
use pricestream.Decimal.{Decimal}
use pricestream.Aggregator.{max_from, min_from}

-- The bound is reached by one of the items.
pub record IsMax {A : Type 0} (f : A → Decimal) (cs : List A) (m : Decimal) : Type 0 where
  pub bounds : All (λ q. f q ≤ℤ m) cs
  pub reached : Any (λ q. m ≡ f q) cs

pub record IsMin {A : Type 0} (f : A → Decimal) (cs : List A) (m : Decimal) : Type 0 where
  pub bounds : All (λ q. m ≤ℤ f q) cs
  pub reached : Any (λ q. m ≡ f q) cs

max_step :
    (m x : Decimal)
    → let r = if ltb_ℤ m x then x else m in (m ≤ℤ r) × (x ≤ℤ r) × ((r ≡ m) ⊎ (r ≡ x))
max_step m x = elim (Bool-cases (ltb_ℤ m x)) [
  | inl above ↦ rw above (ground arith, omega arith, inr refl)
  | inr below ↦ rw below (omega arith, ground arith, inl refl)
]

min_step :
    (m x : Decimal)
    → let r = if ltb_ℤ x m then x else m in (r ≤ℤ m) × (r ≤ℤ x) × ((r ≡ m) ⊎ (r ≡ x))
min_step m x = elim (Bool-cases (ltb_ℤ x m)) [
  | inl below ↦ rw below (ground arith, omega arith, inr refl)
  | inr above ↦ rw above (omega arith, ground arith, inl refl)
]

module _ {A : Type 0} (f : A → Decimal) where
  max_from_lem :
      (m : Decimal) (cs : List A)
      → let r = max_from m (map f cs) in
        (m ≤ℤ r) × All (λ q. f q ≤ℤ r) cs × ((r ≡ m) ⊎ Any (λ q. r ≡ f q) cs)
  unfolding max_from
  max_from_lem m [] = (omega arith, tt, inl refl)
  max_from_lem m (c ∷ cs) =
      let m' = if ltb_ℤ m (f c) then f c else m in
      let (old, new, which) = max_step m (f c) in
      let (first, rest, origin) = max_from_lem m' cs in
      (
        omega arith,
        (omega arith, rest),
        elim origin [
          | inr p ↦ inr (inr p)
          | inl p ↦ elim which [ inl q ↦ inl (p ∙ q) | inr q ↦ inr (inl (p ∙ q)) ]
        ],
      )

  min_from_lem :
      (m : Decimal) (cs : List A)
      → let r = min_from m (map f cs) in
        (r ≤ℤ m) × All (λ q. r ≤ℤ f q) cs × ((r ≡ m) ⊎ Any (λ q. r ≡ f q) cs)
  unfolding min_from
  min_from_lem m [] = (omega arith, tt, inl refl)
  min_from_lem m (c ∷ cs) =
      let m' = if ltb_ℤ (f c) m then f c else m in
      let (old, new, which) = min_step m (f c) in
      let (first, rest, origin) = min_from_lem m' cs in
      (
        omega arith,
        (omega arith, rest),
        elim origin [
          | inr p ↦ inr (inr p)
          | inl p ↦ elim which [ inl q ↦ inl (p ∙ q) | inr q ↦ inr (inl (p ∙ q)) ]
        ],
      )

  pub max_from-IsMax : (c : A) (cs : List A) → IsMax f (c ∷ cs) (max_from (f c) (map f cs))
  max_from-IsMax c cs =
      let (first, rest, origin) = max_from_lem (f c) cs in
      record { bounds = (first, rest); reached = origin }

  pub min_from-IsMin : (c : A) (cs : List A) → IsMin f (c ∷ cs) (min_from (f c) (map f cs))
  min_from-IsMin c cs =
      let (first, rest, origin) = min_from_lem (f c) cs in
      record { bounds = (first, rest); reached = origin }
