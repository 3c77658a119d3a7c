-- ===== src/Ohlc/Tests.antt =====
-- Buckets and bars on the inputs of apps/pricing/tests/test_kafka_consumer.py.
use pricestream.Base.{ℕ, ◌+◌, ◌*◌, ◌≤◌, ◌<◌, ◌≡◌, refl, List, [], ◌∷◌, arith}
use pricestream.Base.Int.{pos, ◌*ℤ◌, ◌-ℤ◌}
use pricestream.Base.Result.{Result, ok}
use pricestream.Rounding.{round, half_even, excess}
use pricestream.Decimal.{quantize}
use pricestream.Clock.{Datetime, total_seconds, float_div, truncate}
use pricestream.Models.{Interval, m1, m5, h1, OhlcBar}
use pricestream.Ohlc.{
  floor_div, bucket_start, is_row, same_instant, new_bar, tick, upsert, update_bar,
}
use pricestream.Ohlc.Bucket.{at, bucket_start_bounds}
use pricestream.Ohlc.Bars.{find_row}
use pricestream.Ohlc.Rows.{IsUnique}
use pricestream.Samples.{moment, column, column-IsColumn, dollars, minute}
use pricestream.Ohlc.Refinement.{Call, updates, prices_for, Shows, updates-refines}

bucket : Datetime → Interval → Datetime
unfolding bucket_start floor_div total_seconds float_div truncate round half_even excess ◌*ℤ◌
bucket = bucket_start 1074

bucket_1m : bucket (at moment (pos 0)) m1 ≡ at 1_767_270_840_000_000 (pos 0)
unfolding bucket
bucket_1m = refl

bucket_5m : bucket (at moment (pos 0)) m5 ≡ at 1_767_270_600_000_000 (pos 0)
unfolding bucket
bucket_5m = refl

bucket_1h : bucket (at moment (pos 0)) h1 ≡ at 1_767_268_800_000_000 (pos 0)
unfolding bucket
bucket_1h = refl

bucket_start_bounds_example :
    (n : ℕ) × (bucket_start 1074 (at moment (pos 0)) h1 ≡ at (n * 3_600_000_000) (pos 0))
    × (n * 3_600_000_000 ≤ moment)
    × (moment < n * 3_600_000_000 + 3_600_000_000)
bucket_start_bounds_example = bucket_start_bounds 1054 moment (pos 0) h1 (omega arith)

-- test_updates_existing_bar: two ticks of one minute, with mids 101 and 111
abbrev call : ℕ → ℕ → Call
call us price = record {
  instrument = 1;
  interval = m1;
  ts = at (moment + us) (pos 0);
  price = dollars price;
}

abbrev calls : List Call
calls = call 0 101 ∷ call 2_500_000 111 ∷ call 60_000_000 7 ∷ []

run_updates : List Call → Result (List OhlcBar)
unfolding updates update_bar upsert new_bar tick is_row same_instant quantize bucket ◌-ℤ◌
run_updates cs = updates column 1074 cs []

updates_runs :
    run_updates calls
    ≡ ok (
        record {
          instrument = 1;
          interval = m1;
          bucket_start = at 1_767_270_840_000_000 (pos 0);
          open_price = dollars 101;
          high = dollars 111;
          low = dollars 101;
          close = dollars 111;
          volume = pos 0;
          tick_count = 2;
        }
        ∷ record {
          instrument = 1;
          interval = m1;
          bucket_start = at 1_767_270_900_000_000 (pos 0);
          open_price = dollars 7;
          high = dollars 7;
          low = dollars 7;
          close = dollars 7;
          volume = pos 0;
          tick_count = 1;
        }
        ∷ [])
unfolding run_updates
updates_runs = refl

updates-refines_example :
    (bars : List OhlcBar) × (updates column 1074 calls [] ≡ ok bars)
    × IsUnique bars
    × Shows column (prices_for column 1074 minute calls) (find_row minute bars)
unfolding quantize half_even
updates-refines_example =
    updates-refines column column-IsColumn 1074 (pos 0) calls minute refl
      ((dollars 101, refl), ((dollars 111, refl), ((dollars 7, refl), tt)))
