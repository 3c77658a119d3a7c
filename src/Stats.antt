-- ===== src/Stats.antt =====
-- apps/pricing/stats.py: `compute_rolling_stats` over the table of consolidated prices.
pub mod Range
pub mod Window
pub mod Average
pub mod Samples
mod Tests
use pricestream.Base.{
  ℕ, ◌*◌, Bool, true, false, ◌&&◌, Option, none, some, List, [], ◌∷◌, map, length, ◌==◌,
  if◌then◌else◌,
}
use pricestream.Base.Int.{ℤ, pos, negsuc, ◌-ℤ◌, ◌*ℤ◌, ltb_ℤ, leb_ℤ}
use pricestream.Base.Text.{Text, text}
use pricestream.Base.Result.{Exn, statistics_error, overflow_error, Result, ok, raise, ◌>>=◌}
use pricestream.Decimal.{Decimal, from_int, sub, mul, div, sum_from}
use pricestream.Clock.{Datetime, instant}
use pricestream.Models.{Instrument, ConsolidatedPrice}
use pricestream.Aggregator.{max_from, min_from}
use pricestream.Json.{Json, null, string, number, Members, end, member}

pub record RollingStats : Type 0 where
  pub instrument : Text
  pub window_seconds : ℤ
  pub samples : ℕ
  pub last_mid : Option Decimal
  pub avg_mid : Option Decimal
  pub min_mid : Option Decimal
  pub max_mid : Option Decimal
  pub mid_stdev : Option Decimal
  pub avg_spread_bps : Option Decimal

-- `to_str` of `as_dict`, for the text that `str` gives of a decimal
abbrev to_str : (Decimal → Text) → Option Decimal → Json
to_str str none = null
to_str str (some x) = string (str x)

-- `as_dict`
unfoldable pub as_dict : ℕ → (Decimal → Text) → RollingStats → Members
as_dict e str s = member (text "instrument") (string s.instrument) (
    member (text "window_seconds") (number (s.window_seconds *ℤ from_int e 1)) (
      member (text "samples") (number (from_int e s.samples)) (
        member (text "last_mid") (to_str str s.last_mid) (
          member (text "avg_mid") (to_str str s.avg_mid) (
            member (text "min_mid") (to_str str s.min_mid) (
              member (text "max_mid") (to_str str s.max_mid) (
                member (text "mid_stdev") (to_str str s.mid_stdev)
                  (member (text "avg_spread_bps") (to_str str s.avg_spread_bps) end))))))))

-- The seconds of a `timedelta`, of at most 999999999 days, and the microseconds of a `datetime`, of the
-- years 1 to 9999.
abbrev pub within : ℤ → ℤ → ℤ → Bool
within least largest z = leb_ℤ least z && leb_ℤ z largest

abbrev pub is_timedelta : ℤ → Bool
is_timedelta = within (negsuc 86_399_999_913_599) (pos 86_399_999_999_999)

abbrev pub is_datetime : ℤ → Bool
is_datetime = within (negsuc 62_135_596_799_999_999) (pos 253_402_300_799_999_999)

-- The start of the window, where Python has it.
abbrev pub starts : Datetime → ℤ → Datetime
starts now window = record now { local = now.local -ℤ window *ℤ pos 1_000_000 }

-- `timezone.now() - timedelta(seconds=window_seconds)`
unfoldable pub since : Datetime → ℤ → Result Datetime
since now window =
    if is_timedelta window && is_datetime (starts now window).local
    then ok (starts now window)
    else raise overflow_error

-- `ConsolidatedPrice.objects.filter(instrument=…, timestamp__gte=…)`
abbrev pub in_window : Instrument → Datetime → ConsolidatedPrice → Bool
in_window i from row = row.instrument == i.pk && leb_ℤ (instant from) (instant row.timestamp)

unfoldable pub window_rows : Instrument → Datetime → List ConsolidatedPrice → List ConsolidatedPrice
window_rows i from [] = []
window_rows i from (row ∷ rows) =
    let rest = window_rows i from rows in if in_window i from row then row ∷ rest else rest

-- `mids[-1]`, of a list that is not empty
abbrev pub last_of : ConsolidatedPrice → List ConsolidatedPrice → ConsolidatedPrice
last_of row [] = row
last_of row (next ∷ rows) = last_of next rows

module _ (e : ℕ) where
  -- the loop over the rows that fills `spreads_bps`
  unfoldable pub spreads_bps : List ConsolidatedPrice → Result (List Decimal)
  spreads_bps [] = ok []
  spreads_bps (row ∷ rows) =
      let rest = spreads_bps rows in
      if ltb_ℤ (pos 0) row.mid
      then (do
        ratio ← div e (sub row.ask row.bid) row.mid
        others ← rest
        ok (mul e ratio (from_int e 10_000) ∷ others))
      else rest

  -- `sum(xs, Decimal(0)) / Decimal(len(xs))`
  abbrev pub average : List Decimal → Result Decimal
  average xs = div e (sum_from (pos 0) xs) (from_int e (length xs))

  -- `… if spreads_bps else None`
  abbrev average_or_none : List Decimal → Result (Option Decimal)
  average_or_none [] = ok none
  average_or_none (x ∷ xs) = do avg ← average (x ∷ xs); ok (some avg)

  -- `except StatisticsError: stdev_value = Decimal(0)`
  abbrev or_zero : Result Decimal → Result Decimal
  or_zero (ok x) = ok x
  or_zero (raise statistics_error) = ok (pos 0)
  or_zero (raise x) = raise x

  -- What the rows give, in their order. `stdev` is `Decimal(str(pstdev(float(m) for m in mids)))`.
  unfoldable pub stats_of :
      (List Decimal → Result Decimal)
      → Instrument
      → ℤ
      → List ConsolidatedPrice
      → Result RollingStats
  stats_of stdev i window [] = ok (record {
    instrument = i.symbol;
    window_seconds = window;
    samples = 0;
    last_mid = none;
    avg_mid = none;
    min_mid = none;
    max_mid = none;
    mid_stdev = none;
    avg_spread_bps = none;
  })
  stats_of stdev i window (row ∷ rows) = do
    spreads ← spreads_bps (row ∷ rows)
    avg ← average (map (λ r. r.mid) (row ∷ rows))
    stdev_value ← or_zero (stdev (map (λ r. r.mid) (row ∷ rows)))
    avg_spread ← average_or_none spreads
    ok (record {
      instrument = i.symbol;
      window_seconds = window;
      samples = length (row ∷ rows);
      last_mid = some (last_of row rows).mid;
      avg_mid = some avg;
      min_mid = some (min_from row.mid (map (λ r. r.mid) rows));
      max_mid = some (max_from row.mid (map (λ r. r.mid) rows));
      mid_stdev = some stdev_value;
      avg_spread_bps = avg_spread;
    })

  -- `compute_rolling_stats`, where `order_by` is the database's order by the timestamp.
  unfoldable pub compute_rolling_stats :
      (List ConsolidatedPrice → List ConsolidatedPrice)
      → (List Decimal → Result Decimal)
      → Datetime
      → Instrument
      → ℤ
      → List ConsolidatedPrice
      → Result RollingStats
  compute_rolling_stats order_by stdev now i window table = do
    from ← since now window
    stats_of stdev i window (order_by (window_rows i from table))
