-- ===== src/Models.antt =====
-- apps/pricing/models.py: the rows, the derived fields of a quote, and the parsing of a symbol. A
-- foreign key is the primary key of the row that it points at.
use pricestream.Base.{ℕ, ◌≤◌, length, Bool, List, [], ◌∷◌}
use pricestream.Base.Text.{Text, text, upper, partition}
use pricestream.Base.Result.{Result, ok, raise, value_error}
use pricestream.Decimal.{Decimal, from_int, add, sub, div}
use pricestream.Clock.{Datetime}

pub record Instrument : Type 0 where
  pub pk : ℕ
  pub symbol : Text
  pub base : Text
  pub quote : Text
  pub is_active : Bool
  pub created_at : Datetime

-- The lengths of the columns of the symbol, the base and the quote.
abbrev pub FitsColumns : Text → Text × Text → Type 0
FitsColumns symbol (base, quote) = (length symbol ≤ 20) × (length base ≤ 10) × (length quote ≤ 10)

-- `Instrument.parse_symbol`
unfoldable pub parse_symbol : Text → Result (Text × Text)
unfolding partition upper
parse_symbol symbol =
    let (base, _, quote) = partition b'-' symbol in
    elim quote [ [] ↦ raise value_error | c ∷ rest ↦ ok (upper base, upper (c ∷ rest)) ]

-- `Quote.Source`
pub data Source : Type 0 where
  binance coinbase kraken : Source

abbrev pub source_value : Source → Text
source_value binance = text "binance"
source_value coinbase = text "coinbase"
source_value kraken = text "kraken"

pub record Quote : Type 0 where
  pub instrument : ℕ
  pub source : Text
  pub bid : Decimal
  pub ask : Decimal
  pub timestamp : Datetime

-- `Quote.mid`
unfoldable pub mid_of : ℕ → Quote → Result Decimal
mid_of e q = div e (add q.bid q.ask) (from_int e 2)

-- `Quote.spread`
unfoldable pub spread_of : Quote → Decimal
spread_of q = sub q.ask q.bid

pub record ConsolidatedPrice : Type 0 where
  pub instrument : ℕ
  pub mid : Decimal
  pub bid : Decimal
  pub ask : Decimal
  pub sources : List Text
  pub timestamp : Datetime

-- `OHLCBar.Interval`
pub data Interval : Type 0 where
  m1 m5 h1 : Interval

abbrev pub interval_value : Interval → Text
interval_value m1 = text "1m"
interval_value m5 = text "5m"
interval_value h1 = text "1h"

pub record OhlcBar : Type 0 where
  pub instrument : ℕ
  pub interval : Interval
  pub bucket_start : Datetime
  pub open_price : Decimal
  pub high : Decimal
  pub low : Decimal
  pub close : Decimal
  pub volume : Decimal
  pub tick_count : ℕ

pub record ArbitrageOpportunity : Type 0 where
  pub instrument : ℕ
  pub buy_venue : Text
  pub buy_price : Decimal
  pub sell_venue : Text
  pub sell_price : Decimal
  pub spread : Decimal
  pub spread_bps : Decimal
  pub timestamp : Datetime
