-- ===== src/Tasks/Samples.antt =====
-- A round in which two exchanges answer, one does not, and Kafka is down, from empty tables.
use pricestream.Base.{ℕ, [], ◌∷◌, true}
use pricestream.Base.Int.{pos}
use pricestream.Base.Text.{text}
use pricestream.Base.Result.{Result, ok, raise, not_found, type_error, value_error}
use pricestream.Json.{Json, number, object, member, end, array, item, nil}
use pricestream.Models.{Source, binance, coinbase, kraken}
use pricestream.Ohlc.Bucket.{at}
use pricestream.Samples.{moment, dollars}
use pricestream.Tasks.Environment.{World, Services}

abbrev pub levels : ℕ → Json
levels n = array (item (array (item (number (dollars n)) nil)) nil)

abbrev pub answers : Source → Result Json
answers binance = ok (
    object (
      member (text "bidPrice") (number (dollars 100))
        (member (text "askPrice") (number (dollars 102)) end)))
answers coinbase =
    ok (object (member (text "bids") (levels 105) (member (text "asks") (levels 107) end)))
answers kraken = raise not_found

abbrev pub services : Services
services = record {
  instruments = text "BTC-USD" ∷ [];
  max_quote_age_seconds = pos 30;
  now = λ t. at moment (pos 0);
  answer = λ t source symbol. answers source;
  to_decimal = λ v. elim v [ number n ↦ ok n | _ ↦ raise type_error ];
  column = λ x. ok x;
  bps_column = λ x. ok x;
  quantize_bps = λ x. ok x;
  publish = λ t s q. raise value_error;
  set_cache = λ t s cp. ok tt;
  send = λ t s cp. ok tt;
  insert_all = λ ps. ok tt;
  new_pk = λ is. 1;
  has_layer = true;
  ordered = λ is. is;
}

abbrev pub empty : World
empty = record {
  time = 0;
  instruments = [];
  quotes = [];
  prices = [];
  opportunities = [];
  quotes_fetched_total = [];
  quotes_failed_total = [];
  consolidated_total = [];
  stale_quotes_total = [];
  rounds_observed = 0;
  arbitrage_detected_total = [];
  kafka_published_total = 0;
  kafka_publish_failed_total = 0;
  last_mid_price = [];
  last_spread = [];
  cache = [];
  broadcasts = [];
  published = [];
}
