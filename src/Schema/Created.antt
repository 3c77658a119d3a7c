-- ===== src/Schema/Created.antt =====
-- The tables of the `CreateModel` operations in apps/pricing/migrations, field by field.
use pricestream.Base.{true, false, [], ◌∷◌}
use pricestream.Base.Text.{Text, text}
use pricestream.Schema.{
  Field, Table, field, id_field, price_field, boolean, date_time, json, positive_integer, char,
  decimal, foreign_key, default_true, default_zero, default_list, default_now, auto_now_add,
  no_default,
}

abbrev migrated_key : Text → Field
migrated_key related_name = record {
  name = text "instrument";
  kind = foreign_key (text "Instrument") true related_name;
  unique = false;
  db_index = false;
  default = no_default;
  choices = [];
}

abbrev migrated_time : Field
migrated_time = record {
  name = text "timestamp";
  kind = date_time;
  unique = false;
  db_index = true;
  default = default_now;
  choices = [];
}

abbrev pub instrument_table : Table
instrument_table = record {
  name = text "Instrument";
  fields =
      id_field
      ∷ record (field (text "symbol") (char 20)) { unique = true; db_index = true }
      ∷ field (text "base") (char 10)
      ∷ field (text "quote") (char 10)
      ∷ record (field (text "is_active") boolean) { default = default_true }
      ∷ record (field (text "created_at") date_time) { default = auto_now_add }
      ∷ [];
  options = record { ordering = text "symbol" ∷ []; indexes = []; unique_together = [] };
}

abbrev pub consolidated_price_table : Table
consolidated_price_table = record {
  name = text "ConsolidatedPrice";
  fields =
      id_field
      ∷ price_field (text "mid")
      ∷ price_field (text "bid")
      ∷ price_field (text "ask")
      ∷ record (field (text "sources") json) { default = default_list }
      ∷ migrated_time
      ∷ migrated_key (text "consolidated_prices")
      ∷ [];
  options = record {
    ordering = text "-timestamp" ∷ [];
    indexes = (text "instrument" ∷ text "-timestamp" ∷ []) ∷ [];
    unique_together = [];
  };
}

abbrev pub ohlc_bar_table : Table
ohlc_bar_table = record {
  name = text "OHLCBar";
  fields =
      id_field
      ∷ record (field (text "interval") (char 8)) {
        db_index = true;
        choices =
            (text "1m", text "1 minute")
            ∷ (text "5m", text "5 minutes")
            ∷ (text "1h", text "1 hour")
            ∷ [];
      }
      ∷ record (field (text "bucket_start") date_time) { db_index = true }
      ∷ price_field (text "open")
      ∷ price_field (text "high")
      ∷ price_field (text "low")
      ∷ price_field (text "close")
      ∷ record (price_field (text "volume")) { default = default_zero }
      ∷ record (field (text "tick_count") positive_integer) { default = default_zero }
      ∷ migrated_key (text "ohlc_bars")
      ∷ [];
  options = record {
    ordering = text "-bucket_start" ∷ [];
    indexes = (text "instrument" ∷ text "interval" ∷ text "-bucket_start" ∷ []) ∷ [];
    unique_together = text "instrument" ∷ text "interval" ∷ text "bucket_start" ∷ [];
  };
}

abbrev pub quote_table : Table
quote_table = record {
  name = text "Quote";
  fields =
      id_field
      ∷ record (field (text "source") (char 20)) {
        db_index = true;
        choices =
            (text "binance", text "Binance")
            ∷ (text "coinbase", text "Coinbase")
            ∷ (text "kraken", text "Kraken")
            ∷ [];
      }
      ∷ price_field (text "bid")
      ∷ price_field (text "ask")
      ∷ migrated_time
      ∷ migrated_key (text "quotes")
      ∷ [];
  options = record {
    ordering = text "-timestamp" ∷ [];
    indexes =
        (text "instrument" ∷ text "-timestamp" ∷ [])
        ∷ (text "source" ∷ text "-timestamp" ∷ [])
        ∷ [];
    unique_together = [];
  };
}

abbrev pub arbitrage_opportunity_table : Table
arbitrage_opportunity_table = record {
  name = text "ArbitrageOpportunity";
  fields =
      id_field
      ∷ field (text "buy_venue") (char 20)
      ∷ price_field (text "buy_price")
      ∷ field (text "sell_venue") (char 20)
      ∷ price_field (text "sell_price")
      ∷ price_field (text "spread")
      ∷ field (text "spread_bps") (decimal 12 4)
      ∷ migrated_time
      ∷ migrated_key (text "arbitrage_opportunities")
      ∷ [];
  options = record {
    ordering = text "-timestamp" ∷ [];
    indexes = (text "instrument" ∷ text "-timestamp" ∷ []) ∷ [];
    unique_together = [];
  };
}
