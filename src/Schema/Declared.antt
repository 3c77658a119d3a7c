-- ===== src/Schema/Declared.antt =====
-- The five models of apps/pricing/models.py, each with its fields in the order of the class.
use pricestream.Base.{true, List, [], ◌∷◌}
use pricestream.Base.Text.{Text, text}
use pricestream.Schema.{
  Field, Table, field, id_field, price_field, boolean, date_time, json, positive_integer, char,
  decimal, foreign_key, default_true, default_zero, default_list, default_now, auto_now_add,
}

abbrev pub source_choices : List (Text × Text)
source_choices =
    (text "binance", text "Binance")
    ∷ (text "coinbase", text "Coinbase")
    ∷ (text "kraken", text "Kraken")
    ∷ []

abbrev pub interval_choices : List (Text × Text)
interval_choices =
    (text "1m", text "1 minute") ∷ (text "5m", text "5 minutes") ∷ (text "1h", text "1 hour") ∷ []

-- `ForeignKey(Instrument, on_delete=models.CASCADE, related_name=…)`
abbrev pub instrument_key : Text → Field
instrument_key related_name =
    field (text "instrument") (foreign_key (text "Instrument") true related_name)

abbrev pub timestamp_field : Field
timestamp_field = record (field (text "timestamp") date_time) {
  db_index = true;
  default = default_now;
}

abbrev pub instrument_model : Table
instrument_model = record {
  name = text "Instrument";
  fields =
      id_field
      ∷ record (field (text "symbol") (char 20)) { unique = true; db_index = true }
      ∷ field (text "base") (char 10)
      ∷ field (text "quote") (char 10)
      ∷ record (field (text "is_active") boolean) { default = default_true }
      ∷ record (field (text "created_at") date_time) { default = auto_now_add }
      ∷ [];
  options = record { ordering = text "symbol" ∷ []; indexes = []; unique_together = [] };
}

abbrev pub quote_model : Table
quote_model = record {
  name = text "Quote";
  fields =
      id_field
      ∷ instrument_key (text "quotes")
      ∷ record (field (text "source") (char 20)) { db_index = true; choices = source_choices }
      ∷ price_field (text "bid")
      ∷ price_field (text "ask")
      ∷ timestamp_field
      ∷ [];
  options = record {
    ordering = text "-timestamp" ∷ [];
    indexes =
        (text "instrument" ∷ text "-timestamp" ∷ [])
        ∷ (text "source" ∷ text "-timestamp" ∷ [])
        ∷ [];
    unique_together = [];
  };
}

abbrev pub consolidated_price_model : Table
consolidated_price_model = record {
  name = text "ConsolidatedPrice";
  fields =
      id_field
      ∷ instrument_key (text "consolidated_prices")
      ∷ price_field (text "mid")
      ∷ price_field (text "bid")
      ∷ price_field (text "ask")
      ∷ record (field (text "sources") json) { default = default_list }
      ∷ timestamp_field
      ∷ [];
  options = record {
    ordering = text "-timestamp" ∷ [];
    indexes = (text "instrument" ∷ text "-timestamp" ∷ []) ∷ [];
    unique_together = [];
  };
}

abbrev pub ohlc_bar_model : Table
ohlc_bar_model = record {
  name = text "OHLCBar";
  fields =
      id_field
      ∷ instrument_key (text "ohlc_bars")
      ∷ record (field (text "interval") (char 8)) { db_index = true; choices = interval_choices }
      ∷ record (field (text "bucket_start") date_time) { db_index = true }
      ∷ price_field (text "open")
      ∷ price_field (text "high")
      ∷ price_field (text "low")
      ∷ price_field (text "close")
      ∷ record (price_field (text "volume")) { default = default_zero }
      ∷ record (field (text "tick_count") positive_integer) { default = default_zero }
      ∷ [];
  options = record {
    ordering = text "-bucket_start" ∷ [];
    indexes = (text "instrument" ∷ text "interval" ∷ text "-bucket_start" ∷ []) ∷ [];
    unique_together = text "instrument" ∷ text "interval" ∷ text "bucket_start" ∷ [];
  };
}

abbrev pub arbitrage_opportunity_model : Table
arbitrage_opportunity_model = record {
  name = text "ArbitrageOpportunity";
  fields =
      id_field
      ∷ instrument_key (text "arbitrage_opportunities")
      ∷ field (text "buy_venue") (char 20)
      ∷ price_field (text "buy_price")
      ∷ field (text "sell_venue") (char 20)
      ∷ price_field (text "sell_price")
      ∷ price_field (text "spread")
      ∷ field (text "spread_bps") (decimal 12 4)
      ∷ timestamp_field
      ∷ [];
  options = record {
    ordering = text "-timestamp" ∷ [];
    indexes = (text "instrument" ∷ text "-timestamp" ∷ []) ∷ [];
    unique_together = [];
  };
}

abbrev pub models : List Table
models =
    instrument_model ∷ quote_model ∷ consolidated_price_model ∷ ohlc_bar_model
    ∷ arbitrage_opportunity_model ∷ []
