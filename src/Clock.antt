-- ===== src/Clock.antt =====
-- Aware datetimes and time differences, in whole microseconds. A datetime has its wall clock, as
-- microseconds since 1970-01-01 00:00 of its own zone, and the zone's offset from UTC.
pub mod Seconds
use pricestream.Base.{ℕ, ◌+◌, ◌*◌, ◌/◌, ◌^◌, Bool}
use pricestream.Base.Int.{ℤ, pos, negsuc, sub_ℕ, ◌+ℤ◌, ◌-ℤ◌, leb_ℤ}
use pricestream.Rounding.{round}

pub record Datetime : Type 0 where
  pub local : ℤ
  pub offset : ℤ

-- The instant: microseconds since the epoch in UTC.
abbrev pub instant : Datetime → ℤ
instant t = t.local -ℤ t.offset

-- A float is the whole number of its units 2 ^ -g, where g is 1074 for an IEEE double. Its
-- significand has 53 bits.
abbrev pub max_significand : ℕ
max_significand = 2 ^ 53

abbrev pub Float : Type 0
Float = ℤ

-- m / n as a float.
unfoldable pub float_div : ℕ → ℕ → ℕ → ℕ
float_div g m n = round 2 max_significand (m * 2 ^ g) n

-- `timedelta.total_seconds()`: the microseconds divided by 10 ** 6, as a float.
unfoldable pub total_seconds : ℕ → ℤ → Float
total_seconds g (pos us) = pos (float_div g us 1_000_000)
total_seconds g (negsuc us) = sub_ℕ 0 (float_div g (us + 1) 1_000_000)

-- `int(x)` cuts towards zero.
unfoldable pub truncate : ℕ → Float → ℤ
truncate g (pos x) = pos (x / 2 ^ g)
truncate g (negsuc x) = sub_ℕ 0 ((x + 1) / 2 ^ g)

-- The units of an int.
abbrev pub float_of : ℕ → ℤ → Float
float_of g (pos n) = pos (n * 2 ^ g)
float_of g (negsuc n) = sub_ℕ 0 ((n + 1) * 2 ^ g)

-- `x <= n` between a float and an int is exact.
unfoldable pub float_le_int : ℕ → Float → ℤ → Bool
float_le_int g x n = leb_ℤ x (float_of g n)
