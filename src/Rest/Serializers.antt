-- ===== src/Rest/Serializers.antt =====
-- apps/pricing/serializers.py: the fields of each kind of row, in their order.
use pricestream.Base.{ℕ, List, [], ◌∷◌}
use pricestream.Base.Text.{Text, text}
use pricestream.Base.Result.{Result, ok, ◌>>=◌}
use pricestream.Decimal.{Decimal, from_int}
use pricestream.Clock.{Datetime}
use pricestream.Models.{
  Instrument, Quote, ConsolidatedPrice, OhlcBar, ArbitrageOpportunity, mid_of, interval_value,
}
use pricestream.Json.{Json, boolean, number, string, array, Items, nil, item, Members, end, member}

-- A stored row with its primary key and the instrument that its foreign key points at.
pub record Row {ℓ} (A : Type ℓ) : Type ℓ where
  pub id : ℕ
  pub related : Instrument
  pub record_of : A

-- What the framework's fields show: a `DecimalField` by its digits and decimal places, which raises
-- on a number that does not fit, and a `DateTimeField`.
pub record Fields : Type 0 where
  -- the units of `Decimal`
  pub units : ℕ
  pub decimal : ℕ → ℕ → Decimal → Result Text
  pub datetime : Datetime → Text

abbrev pub members : List (Text × Json) → Members
members [] = end
members ((key, value) ∷ fields) = member key value (members fields)

abbrev pub strings : List Text → Items
strings [] = nil
strings (s ∷ ss) = item (string s) (strings ss)

module _ (F : Fields) where
  abbrev whole_number : ℕ → Json
  whole_number n = number (from_int F.units n)

  -- `InstrumentSerializer`
  unfoldable pub instrument_fields : Instrument → Members
  instrument_fields i = members (
      (text "id", whole_number i.pk)
      ∷ (text "symbol", string i.symbol)
      ∷ (text "base", string i.base)
      ∷ (text "quote", string i.quote)
      ∷ (text "is_active", boolean i.is_active)
      ∷ (text "created_at", string (F.datetime i.created_at))
      ∷ [])

  -- `QuoteSerializer`
  unfoldable pub quote_fields : Row Quote → Result Members
  quote_fields row =
      let q = row.record_of in
      do
        bid ← F.decimal 24 10 q.bid
        ask ← F.decimal 24 10 q.ask
        mid_value ← mid_of F.units q
        mid ← F.decimal 24 10 mid_value
        ok (
            members (
              (text "id", whole_number row.id)
              ∷ (text "instrument", string row.related.symbol)
              ∷ (text "source", string q.source)
              ∷ (text "bid", string bid)
              ∷ (text "ask", string ask)
              ∷ (text "mid", string mid)
              ∷ (text "timestamp", string (F.datetime q.timestamp))
              ∷ []))

  -- `ConsolidatedPriceSerializer`
  unfoldable pub price_fields : Row ConsolidatedPrice → Result Members
  price_fields row =
      let p = row.record_of in
      do
        mid ← F.decimal 24 10 p.mid
        bid ← F.decimal 24 10 p.bid
        ask ← F.decimal 24 10 p.ask
        ok (
            members (
              (text "id", whole_number row.id)
              ∷ (text "instrument", string row.related.symbol)
              ∷ (text "mid", string mid)
              ∷ (text "bid", string bid)
              ∷ (text "ask", string ask)
              ∷ (text "sources", array (strings p.sources))
              ∷ (text "timestamp", string (F.datetime p.timestamp))
              ∷ []))

  -- `OHLCBarSerializer`
  unfoldable pub bar_fields : Row OhlcBar → Result Members
  bar_fields row =
      let b = row.record_of in
      do
        open_price ← F.decimal 24 10 b.open_price
        high ← F.decimal 24 10 b.high
        low ← F.decimal 24 10 b.low
        close ← F.decimal 24 10 b.close
        volume ← F.decimal 24 10 b.volume
        ok (
            members (
              (text "id", whole_number row.id)
              ∷ (text "instrument", string row.related.symbol)
              ∷ (text "interval", string (interval_value b.interval))
              ∷ (text "bucket_start", string (F.datetime b.bucket_start))
              ∷ (text "open", string open_price)
              ∷ (text "high", string high)
              ∷ (text "low", string low)
              ∷ (text "close", string close)
              ∷ (text "volume", string volume)
              ∷ (text "tick_count", whole_number b.tick_count)
              ∷ []))

  -- `ArbitrageOpportunitySerializer`
  unfoldable pub opportunity_fields : Row ArbitrageOpportunity → Result Members
  opportunity_fields row =
      let a = row.record_of in
      do
        buy_price ← F.decimal 24 10 a.buy_price
        sell_price ← F.decimal 24 10 a.sell_price
        spread ← F.decimal 24 10 a.spread
        spread_bps ← F.decimal 12 4 a.spread_bps
        ok (
            members (
              (text "id", whole_number row.id)
              ∷ (text "instrument", string row.related.symbol)
              ∷ (text "buy_venue", string a.buy_venue)
              ∷ (text "buy_price", string buy_price)
              ∷ (text "sell_venue", string a.sell_venue)
              ∷ (text "sell_price", string sell_price)
              ∷ (text "spread", string spread)
              ∷ (text "spread_bps", string spread_bps)
              ∷ (text "timestamp", string (F.datetime a.timestamp))
              ∷ []))
