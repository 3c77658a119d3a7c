-- ===== src/Rest/Latest.antt =====
-- What `latest` answers.

use mathlib.Core.List.{Permᴰ}
use pricestream.Base.{
  Bool-cases, not_both, ==_iff, ◌≡◌, ◌≢◌, refl, ◌⊎◌, inl, inr, Option-cases, none, some, List, [],
  ◌∷◌, All, Any, IsSorted, All-perm, Any-perm, arith, ◌==◌,
}
use pricestream.Base.Int.{◌≤ℤ◌}
use pricestream.Base.Text.{Text, text}
use pricestream.Base.Result.{Result, ok, raise, not_found, ◌>>=◌}
use pricestream.Clock.{instant}
use pricestream.Models.{Instrument, ConsolidatedPrice}
use pricestream.Json.{object}
use pricestream.Rest.{Query, ApiResponse, refusal, given, filter, instrument_prices, latest}
use pricestream.Rest.Lookup.{find_instrument_lem, Any-filter}
use pricestream.Rest.Serializers.{Row, Fields, price_fields}

-- From the latest to the earliest.
abbrev pub IsNewestFirst : List (Row ConsolidatedPrice) → Type 0
IsNewestFirst = IsSorted (λ a b. instant b.record_of.timestamp ≤ℤ instant a.record_of.timestamp)

-- What `order_by("-timestamp")` gives.
pub record IsOrderBy (order_by : List (Row ConsolidatedPrice) → List (Row ConsolidatedPrice))
    : Type 0 where
  pub same_rows : (rows : List (Row ConsolidatedPrice)) → Permᴰ (order_by rows) rows
  pub newest_first : (rows : List (Row ConsolidatedPrice)) → IsNewestFirst (order_by rows)

abbrev pub IsOf : Instrument → Row ConsolidatedPrice → Type 0
IsOf i row = row.record_of.instrument ≡ i.pk

-- The table has a price of the instrument, and no later one.
pub record IsLatest (i : Instrument) (prices : List (Row ConsolidatedPrice))
    (row : Row ConsolidatedPrice) : Type 0 where
  pub there : Any (λ r. r ≡ row) prices
  pub own : IsOf i row
  pub newest :
      All
        (λ r. (¬ IsOf i r) ⊎ (instant r.record_of.timestamp ≤ℤ instant row.record_of.timestamp))
        prices

All-instrument_prices :
    (P : Row ConsolidatedPrice → Type 0) (i : Instrument) (prices : List (Row ConsolidatedPrice))
    → All P (instrument_prices i prices)
    → All (λ r. (¬ IsOf i r) ⊎ P r) prices
unfolding instrument_prices filter
All-instrument_prices P i [] h = tt
All-instrument_prices P i (r ∷ prices) h = elim (Bool-cases (r.record_of.instrument == i.pk)) [
  | inl e ↦
      let kept : P r × All P (instrument_prices i prices) =
        rw (instrument_prices, filter, e) at h in
      (inr kept.0, All-instrument_prices P i prices kept.1)
  | inr e ↦
      let kept : All P (instrument_prices i prices) = rw (instrument_prices, filter, e) at h in
      (
        inl (λ own. not_both ((==_iff r.record_of.instrument i.pk).1 own) e),
        All-instrument_prices P i prices kept,
      )
]

none_of :
    (P : Row ConsolidatedPrice → Type 0) (rows : List (Row ConsolidatedPrice))
    → All (λ r. (¬ P r) ⊎ ⊥) rows
    → All (λ r. ¬ P r) rows
none_of P [] h = tt
none_of P (r ∷ rows) (inl n, h) = (n, none_of P rows h)
none_of P (r ∷ rows) (inr x, h) = absurd x

-- The first row of the order is a latest of its instrument; without one the instrument has no price.
first-IsLatest :
    (order_by : List (Row ConsolidatedPrice) → List (Row ConsolidatedPrice))
    → IsOrderBy order_by
    → (i : Instrument) (prices : List (Row ConsolidatedPrice))
    → ((order_by (instrument_prices i prices) ≡ []) × All (λ r. ¬ IsOf i r) prices)
      ⊎ ((row : Row ConsolidatedPrice) × (rest : List (Row ConsolidatedPrice)) × (order_by
              (instrument_prices i prices)
            ≡ row ∷ rest)
          × IsLatest i prices row)
unfolding instrument_prices
first-IsLatest order_by orders i prices =
    go (order_by rows) refl (orders.same_rows rows) (orders.newest_first rows)
  where
    rows : List (Row ConsolidatedPrice)
    rows = instrument_prices i prices

    go :
        (sorted : List (Row ConsolidatedPrice))
        → order_by rows ≡ sorted
        → Permᴰ sorted rows
        → IsNewestFirst sorted
        → ((order_by rows ≡ []) × All (λ r. ¬ IsOf i r) prices)
          ⊎ ((row : Row ConsolidatedPrice) × (rest : List (Row ConsolidatedPrice)) × (order_by rows
                ≡ row ∷ rest)
              × IsLatest i prices row)
    go [] e p n = inl (
      e,
      none_of (IsOf i) prices (All-instrument_prices (λ r. ⊥) i prices (All-perm (λ r. ⊥) p tt)),
    )
    go (row ∷ rest) e p n =
        let member =
          (Any-filter (λ r. r.record_of.instrument == i.pk) row prices).0
            (Any-perm (λ r. r ≡ row) p (inl refl)) in
        let later =
          All-perm (λ r. instant r.record_of.timestamp ≤ℤ instant row.record_of.timestamp) p
            (omega arith, n.0) in
        inr (
          row,
          rest,
          e,
          record {
            there = member.0;
            own = (==_iff row.record_of.instrument i.pk).0 member.1;
            newest = All-instrument_prices _ i prices later;
          },
        )

module _ (F : Fields) (order_by : List (Row ConsolidatedPrice) → List (Row ConsolidatedPrice))
    (orders : IsOrderBy order_by) (instruments : List Instrument)
    (prices : List (Row ConsolidatedPrice)) (query : Query) where
  abbrev answer : Result ApiResponse
  answer = latest F order_by instruments prices query

  -- For rows that the database hands over with the latest first, the view answers 400 without a symbol,
  -- raises Http404 for a symbol that no instrument has, answers 404 if the table has no price of the
  -- instrument, and else shows the fields of a price of it that no other is later than.
  pub latest_lem :
      ((given (query (text "instrument")) ≡ none)
        × (answer ≡ ok (refusal 400 (text "instrument query param required."))))
      ⊎ ((symbol : Text) × (given (query (text "instrument")) ≡ some symbol)
          × (((answer ≡ raise not_found) × All (λ i. i.symbol ≢ symbol) instruments)
              ⊎ ((i : Instrument) × (i.symbol ≡ symbol)
                  × Any (λ j. j ≡ i) instruments
                  × (((answer ≡ ok (refusal 404 (text "no consolidated price yet.")))
                        × All (λ r. ¬ IsOf i r) prices)
                      ⊎ ((row : Row ConsolidatedPrice) × IsLatest i prices row
                          × (answer ≡ (
                              price_fields F row >>= λ fields.
                              ok (record { code = 200; body = object fields }))))))))
  unfolding latest
  latest_lem = elim (Option-cases (given (query (text "instrument")))) [
    | inl n ↦ inl (n, rw (latest, n) refl)
    | inr (symbol, s) ↦ inr (
      symbol,
      s,
      (elim (find_instrument_lem symbol instruments) [
        | inl (n, others) ↦ inl (rw (latest, s, n) refl, others)
        | inr (i, f, same, there) ↦ inr (
          i,
          same,
          there,
          (elim (first-IsLatest order_by orders i prices) [
            | inl (e, others) ↦ inl (rw (latest, s, f, e) refl, others)
            | inr (row, rest, e, is_latest) ↦ inr (row, is_latest, rw (latest, s, f, e) refl)
          ]),
        )
      ]),
    )
  ]
