-- ===== src/Samples/Sorting.antt =====
-- Insertion sort, for the orders that the tests have a database hand over.
use mathlib.Core.List.Permᴰ
use mathlib.Core.List.{Permᴰ}
use pricestream.Base.{
  Bool, Bool-cases, true, false, ◌≡◌, refl, inl, inr, List, [], ◌∷◌, All, IsSorted, if◌then◌else◌,
}

module _ {A : Type 0} (le : A → A → Bool) where
  abbrev insert : A → List A → List A
  insert x [] = x ∷ []
  insert x (y ∷ ys) = let rest = insert x ys in if le x y then x ∷ y ∷ ys else y ∷ rest

  abbrev pub sort : List A → List A
  sort [] = []
  sort (x ∷ xs) = insert x (sort xs)

  insert-perm : (x : A) (xs : List A) → Permᴰ (insert x xs) (x ∷ xs)
  insert-perm x [] = Permᴰ.refl (x ∷ [])
  insert-perm x (y ∷ ys) = elim (Bool-cases (le x y)) [
    | inl e ↦ rw e (Permᴰ.refl (x ∷ y ∷ ys))
    | inr e ↦ rw e (Permᴰ.trans (Permᴰ.cons refl (insert-perm x ys)) (Permᴰ.swap refl refl))
  ]

  pub sort-perm : (xs : List A) → Permᴰ (sort xs) xs
  sort-perm [] = Permᴰ.nil
  sort-perm (x ∷ xs) = Permᴰ.trans (insert-perm x (sort xs)) (Permᴰ.cons refl (sort-perm xs))

  module _ (R : A → A → Type 0) (before : (a b : A) → le a b ≡ true → R a b)
      (after : (a b : A) → le a b ≡ false → R b a)
      (through : (a b c : A) → R a b → R b c → R a c) where
    All-insert : (a x : A) (xs : List A) → R a x → All (R a) xs → All (R a) (insert x xs)
    All-insert a x [] h hs = (h, tt)
    All-insert a x (y ∷ ys) h hs = elim (Bool-cases (le x y)) [
      | inl e ↦ rw e (h, hs)
      | inr e ↦ rw e (hs.0, All-insert a x ys h hs.1)
    ]

    All-through : (a b : A) (xs : List A) → R a b → All (R b) xs → All (R a) xs
    All-through a b [] h hs = tt
    All-through a b (x ∷ xs) h hs = (through a b x h hs.0, All-through a b xs h hs.1)

    insert-IsSorted : (x : A) (xs : List A) → IsSorted R xs → IsSorted R (insert x xs)
    insert-IsSorted x [] h = (tt, tt)
    insert-IsSorted x (y ∷ ys) h = elim (Bool-cases (le x y)) [
      | inl e ↦ rw e ((before x y e, All-through x y ys (before x y e) h.0), h)
      | inr e ↦ rw e (All-insert y x ys (after x y e) h.0, insert-IsSorted x ys h.1)
    ]

    pub sort-IsSorted : (xs : List A) → IsSorted R (sort xs)
    sort-IsSorted [] = tt
    sort-IsSorted (x ∷ xs) = insert-IsSorted x (sort xs) (sort-IsSorted xs)
