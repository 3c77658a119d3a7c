-- ===== src/Samples.antt =====
-- Values that the tests of several modules share.
pub mod Sorting
pub mod Wire
use pricestream.Base.Text.{text}
use pricestream.Base.{true, ℕ, ◌*◌, ◌^◌, arith}
use pricestream.Base.Int.{pos}
use pricestream.Base.Result.{Result}
use pricestream.Decimal.{Decimal, quantize}
use pricestream.Decimal.Quantize.{quantize_mono, quantize_stable}
use pricestream.Models.{m1, Instrument}
use pricestream.Ohlc.Bucket.{at}
use pricestream.Ohlc.Summary.{IsColumn}
use pricestream.Ohlc.Bars.{Key}

-- 2026-01-01 12:34:56 UTC, in microseconds
abbrev pub moment : ℕ
moment = 1_767_270_896_000_000

-- A column of 24 digits, 10 of them behind the point, on the grid of 10 ^ -11.
abbrev pub column : Decimal → Result Decimal
column = quantize (10 ^ 24) 10

pub column-IsColumn : IsColumn column
column-IsColumn = record {
  mono = quantize_mono (10 ^ 24) 10 (omega arith);
  stable = quantize_stable (10 ^ 24) 10 (omega arith);
}

abbrev pub dollars : ℕ → Decimal
dollars n = pos (n * 10 ^ 11)

abbrev pub minute : Key
minute = record { instrument = 1; interval = m1; bucket = at 1_767_270_840_000_000 (pos 0) }

abbrev pub btc : Instrument
btc = record {
  pk = 1;
  symbol = text "BTC-USDT";
  base = text "BTC";
  quote = text "USDT";
  is_active = true;
  created_at = at moment (pos 0);
}
