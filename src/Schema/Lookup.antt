-- ===== src/Schema/Lookup.antt =====
-- Two lists of named things in any order: where each finds in the other what it has, all lookups agree.
use mathlib.Core.Path.{subst}
use pricestream.Base.{◌≡◌, sym, ◌∙◌, some, List, [], ◌∷◌, All, Option-cases, Bool-cases, inl, inr}
use pricestream.Base.Text.{Text, text_eq, text_eq_iff}
use pricestream.Schema.{find}

some-injective {ℓ} : {A : Type ℓ} (a b : A) → some a ≡ some b → a ≡ b
some-injective a b h = cc

module _ {ℓ} {A : Type ℓ} (name : A → Text) where
  -- What is found has the name, and what holds of all holds of it.
  pub find-found :
      (P : A → Type 0) (n : Text) (xs : List A) (x : A)
      → find name n xs ≡ some x
      → All P xs
      → (name x ≡ n) × P x
  unfolding find
  find-found P n [] x h all = cc
  find-found P n (y ∷ xs) x h all = elim (Bool-cases (text_eq (name y) n)) [
    | inl same ↦
        let e = some-injective y x (rw (find, same) at h) in
        subst (λ x. (name x ≡ n) × P x) e ((text_eq_iff (name y) n).0 same, all.0)
    | inr other ↦ find-found P n xs x (rw (find, other) at h) all.1
  ]

module _ {A : Type 0} (name : A → Text) where
  -- Each item is found in the other list.
  abbrev pub AllFound : List A → List A → Type 0
  AllFound xs ys = All (λ x. find name (name x) ys ≡ some x) xs

  lookup_there :
      (xs ys : List A) (n : Text) (x : A)
      → AllFound xs ys
      → find name n xs ≡ some x
      → find name n ys ≡ some x
  lookup_there xs ys n x found h =
      let (named, there) = find-found name (λ x. find name (name x) ys ≡ some x) n xs x h found in
      subst (λ k. find name k ys ≡ some x) named there

  pub find-AllFound :
      (xs ys : List A)
      → AllFound xs ys
      → AllFound ys xs
      → (n : Text) → find name n xs ≡ find name n ys
  find-AllFound xs ys there back n = elim (Option-cases (find name n xs)) [
    | inr (x, h) ↦ h ∙ sym (lookup_there xs ys n x there h)
    | inl h ↦ elim (Option-cases (find name n ys)) [
      | inr (y, h') ↦ lookup_there ys xs n y back h' ∙ sym h'
      | inl h' ↦ h ∙ sym h'
    ]
  ]
