-- ===== src/Stats/Range.antt =====
-- For which windows `compute_rolling_stats` has a start, and for which it raises OverflowError.
use pricestream.Base.{Bool, true, ◌&&◌, not_both, Bool-cases, ◌≡◌, ◌↔◌, ◌⊎◌, inl, inr, arith}
use pricestream.Base.Int.{ℤ, pos, negsuc, ◌≤ℤ◌}
use pricestream.Base.Result.{ok, raise, overflow_error}
use pricestream.Clock.{Datetime}
use pricestream.Stats.{within, is_timedelta, is_datetime, starts, since}

-- Python has the span and the time at which the window starts.
abbrev pub IsInRange : Datetime → ℤ → Type 0
IsInRange now window =
    ((negsuc 86_399_999_913_599 ≤ℤ window) × (window ≤ℤ pos 86_399_999_999_999))
    × ((negsuc 62_135_596_799_999_999 ≤ℤ (starts now window).local)
        × ((starts now window).local ≤ℤ pos 253_402_300_799_999_999))

within_iff :
    (least largest z : ℤ) → (within least largest z ≡ true) ↔ ((least ≤ℤ z) × (z ≤ℤ largest))
within_iff least largest z = ((λ h. ground arith), (λ (h, h'). ground arith))

both_true : (a b : Bool) → (a && b ≡ true) ↔ ((a ≡ true) × (b ≡ true))
both_true a b = ((λ h. ground arith), (λ (h, h'). ground arith))

pub since_lem :
    (now : Datetime) (window : ℤ)
    → ((¬ IsInRange now window) × (since now window ≡ raise overflow_error))
      ⊎ (IsInRange now window × (since now window ≡ ok (starts now window)))
unfolding since
since_lem now window =
    let span = is_timedelta window in
    let time = is_datetime (starts now window).local in
    let of_span = within_iff (negsuc 86_399_999_913_599) (pos 86_399_999_999_999) window in
    let of_time =
      within_iff (negsuc 62_135_596_799_999_999) (pos 253_402_300_799_999_999)
        (starts now window).local in
    elim (Bool-cases (span && time)) [
      | inl fits ↦
          let (s, t) = (both_true span time).0 fits in
          inr ((of_span.0 s, of_time.0 t), rw (since, fits))
      | inr off ↦ inl (
        (λ (s, t). not_both ((both_true span time).1 (of_span.1 s, of_time.1 t)) off),
        rw (since, off),
      )
    ]
