-- ===== src/Ohlc.antt =====
-- The bars of apps/pricing/kafka_consumer.py: `INTERVAL_TO_DELTA`, `_bucket_start`, `_update_bar`. The
-- table is the list of its rows, in the order of their creation. What a `DecimalField` of the
-- database keeps of a value is the parameter `column`, which raises where the value does not fit.
pub mod Bucket
pub mod Summary
pub mod Bars
pub mod Rows
pub mod Refinement
mod Tests
use pricestream.Base.{ℕ, ◌+◌, ◌*◌, ◌/◌, Bool, true, false, ◌&&◌, List, [], ◌∷◌, ◌==◌, if◌then◌else◌}
use pricestream.Base.Int.{ℤ, pos, negsuc, ◌-ℤ◌, ◌*ℤ◌, ltb_ℤ, leb_ℤ}
use pricestream.Base.Result.{Result, ok, ◌>>=◌}
use pricestream.Decimal.{Decimal}
use pricestream.Clock.{Datetime, instant, total_seconds, truncate}
use pricestream.Models.{Interval, m1, m5, h1, OhlcBar}

-- `INTERVAL_TO_DELTA`, in microseconds
abbrev pub delta_of : Interval → ℕ
delta_of m1 = 60_000_000
delta_of m5 = 300_000_000
delta_of h1 = 3_600_000_000

-- Python's `//` by a positive int
unfoldable pub floor_div : ℤ → ℕ → ℤ
floor_div (pos n) b = pos (n / b)
floor_div (negsuc n) b = negsuc (n / b)

-- `_bucket_start`. The epoch has the zone of ts, so the difference is that of the wall clocks.
unfoldable pub bucket_start : ℕ → Datetime → Interval → Datetime
bucket_start g ts interval =
    let seconds = truncate g (total_seconds g ts.local) in
    let bucket_seconds = delta_of interval / 1_000_000 in
    let floored = floor_div seconds bucket_seconds *ℤ pos bucket_seconds in
    record { local = floored *ℤ pos 1_000_000; offset = ts.offset }

-- The row that `get_or_create` looks for: a `DateTimeField` compares instants.
abbrev pub interval_eq : Interval → Interval → Bool
interval_eq m1 m1 = true
interval_eq m5 m5 = true
interval_eq h1 h1 = true
interval_eq _ _ = false

unfoldable pub same_instant : Datetime → Datetime → Bool
same_instant t u = leb_ℤ (instant t) (instant u) && leb_ℤ (instant u) (instant t)

unfoldable pub is_row : ℕ → Interval → Datetime → OhlcBar → Bool
is_row instrument interval bucket bar =
    bar.instrument == instrument
    && interval_eq bar.interval interval
    && same_instant bar.bucket_start bucket

module _ (column : Decimal → Result Decimal) where
  -- `defaults=…` of a new row, as the columns keep it
  unfoldable pub new_bar : ℕ → Interval → Datetime → Decimal → Result OhlcBar
  new_bar instrument interval bucket price = do
    kept ← column price
    none_yet ← column (pos 0)
    ok (record {
      instrument = instrument;
      interval = interval;
      bucket_start = bucket;
      open_price = kept;
      high = kept;
      low = kept;
      close = kept;
      volume = none_yet;
      tick_count = 1;
    })

  -- `if not created: …`
  unfoldable pub tick : OhlcBar → Decimal → Result OhlcBar
  tick bar price = do
    high ← column (if ltb_ℤ bar.high price then price else bar.high)
    low ← column (if ltb_ℤ price bar.low then price else bar.low)
    close ← column price
    ok (record bar { high = high; low = low; close = close; tick_count = bar.tick_count + 1 })

  -- The transaction of `_update_bar` on the rows: it is rolled back where it raises.
  unfoldable pub upsert : ℕ → Interval → Datetime → Decimal → List OhlcBar → Result (List OhlcBar)
  upsert instrument interval bucket price [] = do
    bar ← new_bar instrument interval bucket price
    ok (bar ∷ [])
  upsert instrument interval bucket price (bar ∷ bars) =
      let rest = upsert instrument interval bucket price bars in
      if is_row instrument interval bucket bar
      then (do bar' ← tick bar price; ok (bar' ∷ bars))
      else (do bars' ← rest; ok (bar ∷ bars'))

  -- `_update_bar`
  unfoldable pub update_bar :
      ℕ → ℕ → Interval → Datetime → Decimal → List OhlcBar → Result (List OhlcBar)
  update_bar g instrument interval ts price bars =
      upsert instrument interval (bucket_start g ts interval) price bars
