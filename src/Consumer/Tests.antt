-- ===== src/Consumer/Tests.antt =====
-- The consumer on the payloads of apps/pricing/tests/test_kafka_consumer.py.
use pricestream.Base.{ℕ, ◌+◌, ◌*◌, ◌-◌, false, List, [], ◌∷◌, leb, ◌&&◌, if◌then◌else◌}
use pricestream.Base.Int.{pos}
use pricestream.Base.Text.{Text, text}
use pricestream.Base.Result.{Result, ok, raise, value_error, type_error}
use pricestream.Decimal.{Decimal}
use pricestream.Models.{Interval, m1, m5, h1, OhlcBar}
use pricestream.Json.{Json, null, string, object, Members, member, end}
use pricestream.Ohlc.{bucket_start}
use pricestream.Ohlc.Bucket.{at}
use pricestream.Samples.{column, moment, dollars}
use pricestream.Consumer.{Platform, nothing, message, Round}

-- Decimals without a point, on the grid of 10 ^ -11, are enough for these payloads.
whole : ℕ → Text → Result Decimal
whole n [] = ok (dollars n)
whole n (c ∷ cs) =
    let rest = whole (n * 10 + (c - 48)) cs in
    if leb 48 c && leb c 57 then rest else raise value_error

abbrev platform : Platform
platform = record {
  column = column;
  to_decimal = λ v. elim v [ string s ↦ whole 0 s | _ ↦ raise type_error ];
  from_iso = λ s. ok (at moment (pos 0));
  as_text = λ v. text "None";
}

abbrev quote_event : Text → Text → Text → Json
quote_event symbol bid ask = object (
    member (text "instrument") (string symbol)
      (member (text "bid") (string bid) (member (text "ask") (string ask) end)))

abbrev unknown : Members
unknown = member (text "instrument") (string (text "NOPE-NOPE")) end

abbrev heard : Json → Round
heard payload = record {
  stopped_before = false;
  stopped_after = false;
  poll = message (ok payload);
  now = at moment (pos 0);
}

abbrev rounds : List Round
rounds =
    record (heard null) { poll = nothing }
    ∷ heard (quote_event (text "BTC-USDT") (text "100") (text "102"))
    ∷ heard (object unknown)
    ∷ heard (quote_event (text "BTC-USDT") (text "110") (text "112"))
    ∷ []

-- The bar that two of the three events make.
abbrev bar : Interval → ℕ → OhlcBar
bar interval start = record {
  instrument = 1;
  interval = interval;
  bucket_start = at start (pos 0);
  open_price = dollars 101;
  high = dollars 111;
  low = dollars 101;
  close = dollars 111;
  volume = pos 0;
  tick_count = 2;
}

abbrev bars : List OhlcBar
bars =
    bar m1 1_767_270_840_000_000 ∷ bar m5 1_767_270_600_000_000 ∷ bar h1 1_767_268_800_000_000 ∷ []
