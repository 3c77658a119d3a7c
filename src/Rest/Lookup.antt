-- ===== src/Rest/Lookup.antt =====
-- What the lookups of the views find.
use pricestream.Base.{
  Bool, Bool-cases, true, not_both, ◌≡◌, ◌≢◌, refl, sym, ◌∙◌, ap, ◌⊎◌, ◌↔◌, inl, inr, Option, none,
  some, List, [], ◌∷◌, All, Any,
}
use pricestream.Base.Text.{Text, text_eq, text_eq_iff}
use pricestream.Models.{Instrument}
use pricestream.Consumer.{find_instrument}
use pricestream.Rest.{filter, filter_by, given}

pub find_instrument_lem :
    (symbol : Text) (instruments : List Instrument)
    → ((find_instrument symbol instruments ≡ none) × All (λ i. i.symbol ≢ symbol) instruments)
      ⊎ ((i : Instrument) × (find_instrument symbol instruments ≡ some i)
          × (i.symbol ≡ symbol)
          × Any (λ j. j ≡ i) instruments)
unfolding find_instrument
find_instrument_lem symbol [] = inl (refl, tt)
find_instrument_lem symbol (i ∷ is) = elim (Bool-cases (text_eq i.symbol symbol)) [
  | inl e ↦ inr (i, rw e refl, (text_eq_iff i.symbol symbol).0 e, inl refl)
  | inr e ↦ elim (find_instrument_lem symbol is) [
    | inl (n, others) ↦
        inl (rw e n, ((λ same. not_both ((text_eq_iff i.symbol symbol).1 same) e), others))
    | inr (j, f, same, there) ↦ inr (j, rw e f, same, inr there)
  ]
]

-- A wish that is not given is met by all.
abbrev pub Meets : Text → Option Text → Type 0
Meets s none = Unit
Meets s (some wanted) = s ≡ wanted

module _ {A : Type 0} where
  pub Any-filter :
      (keep : A → Bool) (x : A) (xs : List A)
      → Any (λ y. y ≡ x) (filter keep xs) ↔ (Any (λ y. y ≡ x) xs × (keep x ≡ true))
  unfolding filter
  Any-filter keep x [] = ((λ h. absurd h), (λ h. absurd h.0))
  Any-filter keep x (y ∷ ys) =
      let rest = Any-filter keep x ys in
      elim (Bool-cases (keep y)) [
        | inl e ↦ rw e (
          (λ h. elim h [
            | inl s ↦ (inl s, ap keep (sym s) ∙ e)
            | inr t ↦ (inr (rest.0 t).0, (rest.0 t).1)
          ]),
          (λ h. elim h.0 [ inl s ↦ inl s | inr t ↦ inr (rest.1 (t, h.1)) ]),
        )
        | inr e ↦ rw e (
          (λ h. (inr (rest.0 h).0, (rest.0 h).1)),
          (λ h. elim h.0 [
            | inl s ↦ absurd (not_both (ap keep s ∙ h.1) e)
            | inr t ↦ rest.1 (t, h.1)
          ]),
        )
      ]

  pub Any-filter_by :
      (field : A → Text) (wanted : Option Text) (x : A) (xs : List A)
      → Any (λ y. y ≡ x) (filter_by field wanted xs)
        ↔ (Any (λ y. y ≡ x) xs × Meets (field x) (given wanted))
  Any-filter_by field none x xs = ((λ h. (h, tt)), (λ h. h.0))
  Any-filter_by field (some []) x xs = ((λ h. (h, tt)), (λ h. h.0))
  Any-filter_by field (some (c ∷ s)) x xs =
      let rest = Any-filter (λ row. text_eq (field row) (c ∷ s)) x xs in
      (
        (λ h. ((rest.0 h).0, (text_eq_iff (field x) (c ∷ s)).0 (rest.0 h).1)),
        (λ h. rest.1 (h.0, (text_eq_iff (field x) (c ∷ s)).1 h.1)),
      )
