-- ===== src/Ohlc/Bucket.antt =====
-- `_bucket_start`: the bucket of a timestamp from 1970 to 2242.
use pricestream.Base.{ℕ, ◌+◌, ◌*◌, ◌/◌, ◌^◌, ◌≤◌, ◌<◌, ◌≡◌, sym, ap, ◌∙◌, arith}
use pricestream.Base.Int.{ℤ, pos, pos-*ℤ-pos}
use pricestream.Clock.{Datetime}
use pricestream.Clock.Seconds.{truncate-total_seconds}
use pricestream.Models.{Interval, m1, m5, h1}
use pricestream.Ohlc.{delta_of, floor_div, bucket_start}

-- So many microseconds after the epoch, on the clock of a zone.
abbrev pub at : ℕ → ℤ → Datetime
at us offset = record { local = pos us; offset = offset }

-- The last second that the floats tell apart to the microsecond.
abbrev pub horizon : ℕ
horizon = 2 ^ 33 * 1_000_000

-- The largest multiple of the interval.
abbrev pub floored : Interval → ℕ → ℕ
floored i us = us / delta_of i * delta_of i

bucket_start_lem :
    (g us : ℕ) (offset : ℤ) (i : Interval)
    → us < horizon
    → bucket_start (g + 20) (at us offset) i ≡ at (floored i us) offset
unfolding bucket_start floor_div
bucket_start_lem g us offset m1 h =
    simp (truncate-total_seconds g us h, pos-*ℤ-pos) (ap (λ (n : ℕ). at n offset) (omega arith))
bucket_start_lem g us offset m5 h =
    simp (truncate-total_seconds g us h, pos-*ℤ-pos) (ap (λ (n : ℕ). at n offset) (omega arith))
bucket_start_lem g us offset h1 h =
    simp (truncate-total_seconds g us h, pos-*ℤ-pos) (ap (λ (n : ℕ). at n offset) (omega arith))

floored_bounds : (i : Interval) (us : ℕ) → (floored i us ≤ us) × (us < floored i us + delta_of i)
floored_bounds m1 us = omega arith
floored_bounds m5 us = omega arith
floored_bounds h1 us = omega arith

-- What is floored to a finer interval first is floored to the same.
floored-floored :
    (i j : Interval) (us : ℕ) → delta_of i ≤ delta_of j → floored j (floored i us) ≡ floored j us
floored-floored m1 m1 us h = omega arith
floored-floored m1 m5 us h = omega arith
floored-floored m1 h1 us h = omega arith
floored-floored m5 m1 us h = omega arith
floored-floored m5 m5 us h = omega arith
floored-floored m5 h1 us h = omega arith
floored-floored h1 m1 us h = omega arith
floored-floored h1 m5 us h = omega arith
floored-floored h1 h1 us h = omega arith

-- From 1970 to 2242 the bucket starts at a whole multiple of the interval on the timestamp's own
-- clock, in its zone; the timestamp lies in it.
pub bucket_start_bounds :
    (g us : ℕ) (offset : ℤ) (i : Interval)
    → us < horizon
    → (n : ℕ) × (bucket_start (g + 20) (at us offset) i ≡ at (n * delta_of i) offset)
      × (n * delta_of i ≤ us)
      × (us < n * delta_of i + delta_of i)
bucket_start_bounds g us offset i h = (
  us / delta_of i,
  bucket_start_lem g us offset i h,
  (floored_bounds i us).0,
  (floored_bounds i us).1,
)

-- A bucket of an interval that is a multiple of another's holds the other's buckets whole.
refloor :
    (g us : ℕ) (offset : ℤ) (i j : Interval)
    → us < horizon
    → floored j (floored i us) ≡ floored j us
    → bucket_start (g + 20) (bucket_start (g + 20) (at us offset) i) j
      ≡ bucket_start (g + 20) (at us offset) j
refloor g us offset i j h e =
    let earlier : floored i us < horizon = omega (arith, (floored_bounds i us).0) in
    bucket (g + 20) j (bucket_start_lem g us offset i h)
    ∙ (bucket_start_lem g (floored i us) offset j earlier
        ∙ (ap (λ (n : ℕ). at n offset) e ∙ sym (bucket_start_lem g us offset j h)))
  where
    bucket :
        {t u : Datetime} (g : ℕ) (j : Interval) → t ≡ u → bucket_start g t j ≡ bucket_start g u j
    bucket g j p = ap (λ t. bucket_start g t j) p

-- From 1970 to 2242 the bucket of an interval lies whole in one bucket of any interval that is not
-- shorter: its start has the same bucket there as the timestamp.
bucket_start_nested :
    (g us : ℕ) (offset : ℤ) (i j : Interval)
    → us < horizon
    → delta_of i ≤ delta_of j
    → bucket_start (g + 20) (bucket_start (g + 20) (at us offset) i) j
      ≡ bucket_start (g + 20) (at us offset) j
bucket_start_nested g us offset i j h finer =
    refloor g us offset i j h (floored-floored i j us finer)
