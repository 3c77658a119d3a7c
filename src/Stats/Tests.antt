-- ===== src/Stats/Tests.antt =====
-- The figures of three rows, on a database that sorts by insertion.

use pricestream.Base.{ℕ, ◌+◌, ◌≡◌, refl, ◌⊎◌, some, List, [], ◌∷◌, length, arith}
use pricestream.Base.Int.{ℤ, pos, ◌≤ℤ◌, ◌+ℤ◌, ◌-ℤ◌, ◌*ℤ◌}
use pricestream.Base.Result.{Result, ok, raise, overflow_error}
use pricestream.Rounding.{round, half_even, excess}
use pricestream.Decimal.{sub, mul, div, fix, magnitude, add, sum_from}
use pricestream.Clock.{Datetime}
use pricestream.Models.{ConsolidatedPrice}
use pricestream.Aggregator.{max_from, min_from}
use pricestream.Ohlc.Bucket.{at}
use pricestream.Samples.{moment, dollars, btc}
use pricestream.Stats.{
  RollingStats, starts, since, window_rows, spreads_bps, stats_of, compute_rolling_stats,
}
use pricestream.Samples.Sorting.{sort}
use pricestream.Stats.Samples.{by_time, sort-IsOrderBy, stdev, stdev-IsStdev}
use pricestream.Stats.Range.{IsInRange}
use pricestream.Stats.Window.{IsEmpty, IsWindow, compute_rolling_stats_lem}
use pricestream.Stats.Average.{avg_mid_bounds}

abbrev row : ℕ → ℕ → ConsolidatedPrice
row us mid = record {
  instrument = 1;
  mid = dollars mid;
  bid = dollars mid;
  ask = dollars (mid + 1);
  sources = [];
  timestamp = at (moment + us) (pos 0);
}

abbrev table : List ConsolidatedPrice
table = row 5_000_000 110 ∷ row 0 100 ∷ record (row 1 7) { instrument = 2 } ∷ row 9_000_000 90 ∷ []

abbrev clock : Datetime
clock = at (moment + 10_000_000) (pos 0)

run_stats : ℤ → Result RollingStats
unfolding compute_rolling_stats since stats_of window_rows spreads_bps min_from max_from sum_from
    add sub mul div fix magnitude round half_even excess ◌+ℤ◌ ◌-ℤ◌ ◌*ℤ◌
run_stats window = compute_rolling_stats 11 (sort by_time) stdev clock btc window table

-- Two rows are in the last six seconds, and neither is positive on one side only.
last_two : RollingStats
last_two = record {
  instrument = btc.symbol;
  window_seconds = pos 6;
  samples = 2;
  last_mid = some (dollars 90);
  avg_mid = some (dollars 100);
  min_mid = some (dollars 90);
  max_mid = some (dollars 110);
  mid_stdev = some (pos 0);
  avg_spread_bps = some (pos 10_101_010_100_000);
}

two_samples : run_stats (pos 6) ≡ ok last_two
unfolding run_stats last_two
two_samples = refl

no_samples : (s : RollingStats) × (run_stats (pos 0) ≡ ok s) × (s.samples ≡ 0) × IsEmpty s
unfolding run_stats
no_samples = (
  _,
  refl,
  refl,
  record { last = refl; avg = refl; min = refl; max = refl; stdev = refl; spread = refl },
)

-- A window of 10 ** 11 seconds starts before the year 1.
too_long : run_stats (pos 100_000_000_000) ≡ raise overflow_error
unfolding run_stats
too_long = refl

compute_rolling_stats_lem_example :
    let rows = window_rows btc (starts clock (pos 6)) table in
    ((¬ IsInRange clock (pos 6))
      × (compute_rolling_stats 11 (sort by_time) stdev clock btc (pos 6) table
          ≡ raise overflow_error))
    ⊎ (IsInRange clock (pos 6)
        × (s : RollingStats) × (compute_rolling_stats 11
              (sort by_time)
              stdev
              clock
              btc
              (pos 6)
              table
            ≡ ok s)
        × (s.samples ≡ length rows)
        × (((rows ≡ []) × IsEmpty s) ⊎ IsWindow rows s))
compute_rolling_stats_lem_example =
    compute_rolling_stats_lem 11 (sort by_time) stdev clock btc (pos 6) table sort-IsOrderBy
      stdev-IsStdev

avg_mid_bounds_example : (dollars 90 ≤ℤ dollars 100) × (dollars 100 ≤ℤ dollars 110)
unfolding run_stats last_two window_rows
avg_mid_bounds_example =
    avg_mid_bounds 11 11 (sort by_time) stdev clock btc (pos 6) table last_two (dollars 90)
      (dollars 100) (dollars 110) sort-IsOrderBy stdev-IsStdev
      ((110, omega arith, refl), ((90, omega arith, refl), tt)) (omega arith) two_samples refl refl
      refl
