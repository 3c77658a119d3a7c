-- ===== src/Rest.antt =====
-- apps/pricing/views.py: the views of the API that have code of their own. A response that raises
-- `Http404` is the exception `not_found`.
pub mod Serializers
pub mod Lookup
pub mod Windows
pub mod Latest
pub mod Rows
mod Tests
use pricestream.Base.{
  ℕ, Bool, true, false, Option, none, some, List, [], ◌∷◌, map, ltb, ◌==◌, if◌then◌else◌,
}
use pricestream.Base.Int.{ℤ, pos, negsuc}
use pricestream.Base.Text.{Text, text, text_eq}
use pricestream.Base.Result.{Result, ok, raise, not_found, ◌>>=◌}
use pricestream.Decimal.{Decimal}
use pricestream.Clock.{Datetime}
use pricestream.Models.{
  Instrument, Quote, ConsolidatedPrice, OhlcBar, ArbitrageOpportunity, interval_value,
}
use pricestream.Json.{Json, string, object, end, member}
use pricestream.Consumer.{find_instrument}
use pricestream.Stats.{as_dict, compute_rolling_stats}
use Serializers.{Row, Fields, price_fields}

-- `request.query_params.get`
abbrev pub Query : Type 0
Query = Text → Option Text

pub record ApiResponse : Type 0 where
  pub code : ℕ
  pub body : Json

-- `Response({"detail": …}, status=…)`
abbrev pub refusal : ℕ → Text → ApiResponse
refusal code detail = record {
  code = code;
  body = object (member (text "detail") (string detail) end);
}

-- What passes `if symbol:`.
abbrev pub given : Option Text → Option Text
given none = none
given (some []) = none
given (some (c ∷ s)) = some (c ∷ s)

-- `qs.filter(…)`
unfoldable pub filter {ℓ} : {A : Type ℓ} → (A → Bool) → List A → List A
filter keep [] = []
filter keep (x ∷ xs) = let rest = filter keep xs in if keep x then x ∷ rest else rest

-- `if wanted: qs = qs.filter(field=wanted)`
abbrev pub filter_by {ℓ} : {A : Type ℓ} → (A → Text) → Option Text → List A → List A
filter_by field wanted rows = elim (given wanted) [
  | none ↦ rows
  | some value ↦ filter (λ row. text_eq (field row) value) rows
]

-- `instrument__symbol`
abbrev pub related_symbol {ℓ} : {A : Type ℓ} → Row A → Text
related_symbol row = row.related.symbol

-- `QuoteViewSet.get_queryset`
unfoldable pub quote_queryset : Query → List (Row Quote) → List (Row Quote)
quote_queryset query rows = filter_by related_symbol (query (text "instrument")) rows

-- `OHLCViewSet.get_queryset`
unfoldable pub bar_queryset : Query → List (Row OhlcBar) → List (Row OhlcBar)
bar_queryset query rows =
    let named = filter_by related_symbol (query (text "instrument")) rows in
    filter_by (λ row. interval_value row.record_of.interval) (query (text "interval")) named

-- `ArbitrageOpportunityViewSet.get_queryset`
unfoldable pub opportunity_queryset :
    Query → List (Row ArbitrageOpportunity) → List (Row ArbitrageOpportunity)
opportunity_queryset query rows = filter_by related_symbol (query (text "instrument")) rows

-- `ConsolidatedPrice.objects.filter(instrument=instrument)`
unfoldable pub instrument_prices :
    Instrument → List (Row ConsolidatedPrice) → List (Row ConsolidatedPrice)
instrument_prices i rows = filter (λ row. row.record_of.instrument == i.pk) rows

-- `max(1, min(window, 86400))`
unfoldable pub clamp : ℤ → ℕ
clamp (negsuc n) = 1
clamp (pos n) = let least = if ltb 86_400 n then 86_400 else n in if ltb 1 least then least else 1

-- `int(request.query_params.get("window", "300"))`, where `to_int` is `int` of a text
unfoldable pub window_of : (Text → Option ℤ) → Query → Option ℤ
window_of to_int query = elim (query (text "window")) [
  | none ↦ to_int (text "300")
  | some w ↦ to_int w
]

module _ (F : Fields) (order_by : List (Row ConsolidatedPrice) → List (Row ConsolidatedPrice)) where
  -- What `latest` does with the first row of the order.
  abbrev pub serve_first : List (Row ConsolidatedPrice) → Result ApiResponse
  serve_first [] = ok (refusal 404 (text "no consolidated price yet."))
  serve_first (row ∷ rows) = do
    fields ← price_fields F row
    ok (record { code = 200; body = object fields })

  -- `QuoteViewSet.latest`, where `order_by` is the database's order with the latest row first
  unfoldable pub latest :
      List Instrument → List (Row ConsolidatedPrice) → Query → Result ApiResponse
  latest instruments prices query = elim (given (query (text "instrument"))) [
    | none ↦ ok (refusal 400 (text "instrument query param required."))
    | some symbol ↦ elim (find_instrument symbol instruments) [
      | none ↦ raise not_found
      | some i ↦ serve_first (order_by (instrument_prices i prices))
    ]
  ]

module _ (to_int : Text → Option ℤ) (e : ℕ) (str : Decimal → Text)
    (order_by : List ConsolidatedPrice → List ConsolidatedPrice)
    (stdev : List Decimal → Result Decimal) where
  abbrev pub serve_stats : Datetime → List ConsolidatedPrice → Instrument → ℤ → Result ApiResponse
  serve_stats now prices i window = do
    stats ← compute_rolling_stats e order_by stdev now i window prices
    ok (record { code = 200; body = object (as_dict e str stats) })

  -- `RollingStatsView.get`
  unfoldable pub rolling_stats :
      Datetime → List Instrument → List ConsolidatedPrice → Query → Result ApiResponse
  rolling_stats now instruments prices query = elim (given (query (text "instrument"))) [
    | none ↦ ok (refusal 400 (text "instrument query param required."))
    | some symbol ↦ elim (window_of to_int query) [
      | none ↦ ok (refusal 400 (text "window must be an integer."))
      | some window ↦ elim (find_instrument symbol instruments) [
        | none ↦ raise not_found
        | some i ↦ serve_stats now prices i (pos (clamp window))
      ]
    ]
  ]
