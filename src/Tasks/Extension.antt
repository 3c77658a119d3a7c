-- ===== src/Tasks/Extension.antt =====
-- Tables to which rows are only added, and the steps that keep them so.
use mathlib.Core.List.{append_assoc, append-nil}
use pricestream.Base.{◌+◌, ◌≡◌, refl, sym, ◌∙◌, ap, List, [], ◌∷◌, ◌++◌}
use pricestream.Base.Result.{Result, ok, raise}
use pricestream.Models.{Instrument, Quote, ConsolidatedPrice, ArbitrageOpportunity}
use pricestream.Tasks.Environment.{World, Action, next_of}

abbrev pub Extends {ℓ} : {A : Type ℓ} → List A → List A → Type ℓ
Extends {A = A} xs ys = (zs : List A) × (ys ≡ xs ++ zs)

module _ {ℓ} {A : Type ℓ} where
  pub kept : (xs : List A) → Extends xs xs
  kept xs = ([], sym (append-nil xs))

  pub added : (xs : List A) (x : A) → Extends xs (xs ++ x ∷ [])
  added xs x = (x ∷ [], refl)

  Extends-trans : (xs ys zs : List A) → Extends xs ys → Extends ys zs → Extends xs zs
  Extends-trans xs ys zs (us, e) (vs, f) =
      (us ++ vs, f ∙ ap (λ t. t ++ vs) e ∙ append_assoc xs us vs)

-- The rows of the first world come first in the second.
pub record Grown (w w' : World) : Type 0 where
  pub instruments : Extends w.instruments w'.instruments
  pub quotes : Extends w.quotes w'.quotes
  pub prices : Extends w.prices w'.prices
  pub opportunities : Extends w.opportunities w'.opportunities

-- A step that returned or raised has only added rows.
pub record Grows {ℓ} {A : Type ℓ} (w : World) (r : Result A × World) : Type 0 where
  pub grown : Grown w r.1

pub unchanged : (w : World) → Grown w w
unchanged w = record {
  instruments = kept w.instruments;
  quotes = kept w.quotes;
  prices = kept w.prices;
  opportunities = kept w.opportunities;
}

Grown-trans : (w w' w'' : World) → Grown w w' → Grown w' w'' → Grown w w''
Grown-trans w w' w'' g h = record {
  instruments =
      Extends-trans w.instruments w'.instruments w''.instruments g.instruments h.instruments;
  quotes = Extends-trans w.quotes w'.quotes w''.quotes g.quotes h.quotes;
  prices = Extends-trans w.prices w'.prices w''.prices g.prices h.prices;
  opportunities =
      Extends-trans w.opportunities w'.opportunities w''.opportunities g.opportunities
        h.opportunities;
}

module _ {ℓ κ} {A : Type ℓ} {B : Type κ} where
  pub Grows-next :
      {w : World} {r : Result A × World} {k : A → Action B}
      → Grows w r
      → ((a : A) (w' : World) → Grows w' (k a w'))
      → Grows w (next_of r k)
  unfolding next_of
  Grows-next {w} {r = (ok a, w')} {k} g f = record {
    grown = Grown-trans w w' (k a w').1 g.grown (f a w').grown;
  }
  Grows-next {w} {r = (raise x, w')} g f = record { grown = g.grown }

-- A step that writes no row.
pub Grows-still {ℓ} : {A : Type ℓ} (r : Result A) (w : World) → Grows w (r, w)
Grows-still r w = record { grown = unchanged w }

abbrev pub tables :
    World → List Instrument × List Quote × List ConsolidatedPrice × List ArbitrageOpportunity
tables w = (w.instruments, w.quotes, w.prices, w.opportunities)

as_kept {ℓ} : {A : Type ℓ} (xs ys : List A) → xs ≡ ys → Extends xs ys
as_kept xs ys e = ([], sym e ∙ sym (append-nil xs))

pub Grows-aside {ℓ} :
    {A : Type ℓ} (r : Result A) (w w' : World) → tables w ≡ tables w' → Grows w (r, w')
Grows-aside r w w' e = record {
  grown = record {
    instruments = as_kept _ _ (ap (λ t. t.0) e);
    quotes = as_kept _ _ (ap (λ t. t.1) e);
    prices = as_kept _ _ (ap (λ t. t.2) e);
    opportunities = as_kept _ _ (ap (λ t. t.3) e);
  };
}

-- A call of the environment writes none either.
pub called {ℓ} :
    {A : Type ℓ} (r : Result A) (w : World) → Grows w (r, record w { time = w.time + 1 })
called r w = Grows-aside r w _ refl
