-- ===== src/Base/Sets.antt =====
-- `sorted(set(texts))`: in order, each text once, and no other.
use mathlib.Core.Path.{◌≡◌, refl, sym, ◌∙◌, subst}
use mathlib.Core.Logic.{◌⊎◌, ◌↔◌, inl, inr}
use mathlib.Core.Bool.{true, false}
use mathlib.Core.List.{List, [], ◌∷◌}
use native.Mathlib.Omega.{arith}
use pricestream.Base.Tests.{Bool-cases}
use pricestream.Base.Lists.{All, Any, IsSorted}
use pricestream.Base.Text.{Text, text_eq, text_eq_iff, text_lt, insert_text, sorted_set}

text_lt_trans : (r s t : Text) → text_lt r s ≡ true → text_lt s t ≡ true → text_lt r t ≡ true
unfolding text_lt
text_lt_trans [] [] t h h' = cc
text_lt_trans [] (d ∷ s) [] h h' = cc
text_lt_trans [] (d ∷ s) (e ∷ t) h h' = refl
text_lt_trans (c ∷ r) [] t h h' = cc
text_lt_trans (c ∷ r) (d ∷ s) [] h h' = cc
text_lt_trans (c ∷ r) (d ∷ s) (e ∷ t) h h' =
    let next : text_lt r s ≡ true → text_lt s t ≡ true → text_lt r t ≡ true = text_lt_trans r s t in
    ground (arith, next)

text_lt_total : (s t : Text) → text_eq s t ≡ false → text_lt s t ≡ false → text_lt t s ≡ true
unfolding text_lt text_eq
text_lt_total [] [] h h' = cc
text_lt_total [] (d ∷ t) h h' = cc
text_lt_total (c ∷ s) [] h h' = refl
text_lt_total (c ∷ s) (d ∷ t) h h' =
    let next : text_eq s t ≡ false → text_lt s t ≡ false → text_lt t s ≡ true = text_lt_total s t in
    ground (arith, next)

-- Each text comes before those that follow it.
abbrev pub Before : Text → Text → Type 0
Before s t = text_lt s t ≡ true

Before-all : (s t : Text) (ts : List Text) → Before s t → All (Before t) ts → All (Before s) ts
Before-all s t [] h hs = tt
Before-all s t (u ∷ ts) h hs = (text_lt_trans s t u h hs.0, Before-all s t ts h hs.1)

Before-insert_text :
    (r s : Text) (ts : List Text)
    → Before r s
    → All (Before r) ts
    → All (Before r) (insert_text s ts)
unfolding insert_text
Before-insert_text r s [] h hs = (h, tt)
Before-insert_text r s (t ∷ ts) h hs = elim (Bool-cases (text_eq s t)) [
  | inl e ↦ rw e hs
  | inr e ↦ elim (Bool-cases (text_lt s t)) [
    | inl l ↦ rw (e, l) (h, hs)
    | inr l ↦ rw (e, l) (hs.0, Before-insert_text r s ts h hs.1)
  ]
]

insert_text-IsSorted :
    (s : Text) (ts : List Text) → IsSorted Before ts → IsSorted Before (insert_text s ts)
unfolding insert_text
insert_text-IsSorted s [] h = (tt, tt)
insert_text-IsSorted s (t ∷ ts) h = elim (Bool-cases (text_eq s t)) [
  | inl e ↦ rw e h
  | inr e ↦ elim (Bool-cases (text_lt s t)) [
    | inl l ↦ rw (e, l) ((l, Before-all s t ts l h.0), h)
    | inr l ↦
        rw (e, l)
          (Before-insert_text t s ts (text_lt_total s t e l) h.0, insert_text-IsSorted s ts h.1)
  ]
]

pub sorted_set-IsSorted : (ts : List Text) → IsSorted Before (sorted_set ts)
unfolding sorted_set
sorted_set-IsSorted [] = tt
sorted_set-IsSorted (t ∷ ts) = insert_text-IsSorted t (sorted_set ts) (sorted_set-IsSorted ts)

abbrev pub Has : Text → List Text → Type 0
Has t ts = Any (λ s. s ≡ t) ts

Has-insert_text : (t s : Text) (ts : List Text) → Has t (insert_text s ts) ↔ ((s ≡ t) ⊎ Has t ts)
unfolding insert_text
Has-insert_text t s [] = ((λ h. h), (λ h. h))
Has-insert_text t s (u ∷ ts) =
    let rest = Has-insert_text t s ts in
    elim (Bool-cases (text_eq s u)) [
      | inl e ↦
          let same : s ≡ u = (text_eq_iff s u).0 e in
          rw e ((λ h. inr h), (λ h. elim h [ inl f ↦ inl (sym same ∙ f) | inr there ↦ there ]))
      | inr e ↦ elim (Bool-cases (text_lt s u)) [
        | inl l ↦ rw (e, l) ((λ h. h), (λ h. h))
        | inr l ↦
            rw (e, l)
              (
                (λ h. elim h [
                  | inl f ↦ inr (inl f)
                  | inr there ↦ elim (rest.0 there) [
                    | inl f ↦ inl f
                    | inr behind ↦ inr (inr behind)
                  ]
                ]),
                (λ h. elim h [
                  | inl f ↦ inr (rest.1 (inl f))
                  | inr there ↦ elim there [
                    | inl f ↦ inl f
                    | inr behind ↦ inr (rest.1 (inr behind))
                  ]
                ]),
              )
      ]
    ]

pub Has-sorted_set : (t : Text) (ts : List Text) → Has t (sorted_set ts) ↔ Has t ts
unfolding sorted_set
Has-sorted_set t [] = ((λ h. h), (λ h. h))
Has-sorted_set t (s ∷ ts) =
    let first = Has-insert_text t s (sorted_set ts) in
    let rest = Has-sorted_set t ts in
    (
      (λ h. elim (first.0 h) [ inl f ↦ inl f | inr there ↦ inr (rest.0 there) ]),
      (λ h. first.1 (elim h [ inl f ↦ inl f | inr there ↦ inr (rest.1 there) ])),
    )

text_lt_irrefl : (s : Text) → text_lt s s ≡ true → ⊥
unfolding text_lt
text_lt_irrefl [] h = cc
text_lt_irrefl (c ∷ s) h =
    let next : text_lt s s ≡ true → ⊥ = text_lt_irrefl s in ground (arith, next)

Before-Has : (s t : Text) (ts : List Text) → All (Before s) ts → Has t ts → Before s t
Before-Has s t [] hs h = absurd h
Before-Has s t (u ∷ ts) hs (inl e) = subst (Before s) e hs.0
Before-Has s t (u ∷ ts) hs (inr h) = Before-Has s t ts hs.1 h

-- What is behind the first text is not that text.
Has-behind :
    (s t : Text) (ss ts : List Text)
    → All (Before s) ss
    → s ≡ t
    → ((u : Text) → Has u (s ∷ ss) → Has u (t ∷ ts))
    → (u : Text) → Has u ss
    → Has u ts
Has-behind s t ss ts first same h u there = elim (h u (inr there)) [
  | inr behind ↦ behind
  | inl e ↦
      absurd (text_lt_irrefl s (subst (Before s) (sym (same ∙ e)) (Before-Has s u ss first there)))
]

-- Two lists in order with the same texts are one.
pub IsSorted-unique :
    (ss ts : List Text)
    → IsSorted Before ss
    → IsSorted Before ts
    → ((t : Text) → Has t ss → Has t ts)
    → ((t : Text) → Has t ts → Has t ss)
    → ss ≡ ts
IsSorted-unique [] [] h h' f f' = refl
IsSorted-unique [] (t ∷ ts) h h' f f' = absurd (f' t (inl refl))
IsSorted-unique (s ∷ ss) [] h h' f f' = absurd (f s (inl refl))
IsSorted-unique (s ∷ ss) (t ∷ ts) h h' f f' =
    let same : s ≡ t = elim (f s (inl refl)) [
      | inl e ↦ sym e
      | inr behind ↦ elim (f' t (inl refl)) [
        | inl e ↦ e
        | inr behind' ↦ absurd (
            text_lt_irrefl s
              (text_lt_trans s t s (Before-Has s t ss h.0 behind') (Before-Has t s ts h'.0 behind)))
      ]
    ] in
    let rest : ss ≡ ts =
      IsSorted-unique ss ts h.1 h'.1 (Has-behind s t ss ts h.0 same f)
        (Has-behind t s ts ss h'.0 (sym same) f') in
    cc (same, rest)
