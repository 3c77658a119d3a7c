-- ===== src/Rest/Windows.antt =====
-- What the view of the rolling statistics answers, and for which window.
use pricestream.Base.{
  ℕ, zero, suc, ◌≤◌, ◌≡◌, ◌≢◌, refl, ◌⊎◌, inl, inr, Option, Option-cases, Bool-cases, ltb, none,
  some, List, [], All, Any, arith, length,
}
use pricestream.Base.Int.{ℤ, pos, negsuc, ◌≤ℤ◌, pos-*ℤ-pos, int_laws}
use pricestream.Base.Text.{Text, text}
use pricestream.Base.Result.{Result, ok, raise, not_found}
use pricestream.Decimal.{Decimal}
use pricestream.Clock.{Datetime}
use pricestream.Models.{Instrument, ConsolidatedPrice}
use pricestream.Json.{object}
use pricestream.Stats.{RollingStats, as_dict, starts, window_rows, compute_rolling_stats}
use pricestream.Stats.Range.{IsInRange}
use pricestream.Stats.Window.{IsOrderBy, IsStdev, IsEmpty, IsWindow, compute_rolling_stats_lem}
use pricestream.Rest.{Query, ApiResponse, refusal, given, clamp, window_of, rolling_stats}
use pricestream.Rest.Lookup.{find_instrument_lem}

-- A window of less than a second becomes one of a second, and one of more than a day one of a day.
abbrev pub IsClamped : ℤ → ℕ → Type 0
IsClamped wished w =
    ((wished ≤ℤ pos 0) × (w ≡ 1))
    ⊎ (((1 ≤ w) × (w ≤ 86_400) × (wished ≡ pos w)) ⊎ ((pos 86_401 ≤ℤ wished) × (w ≡ 86_400)))

clamp-IsClamped : (wished : ℤ) → IsClamped wished (clamp wished)
unfolding clamp
clamp-IsClamped (negsuc n) = inl (omega arith, refl)
clamp-IsClamped (pos zero) = inl (omega arith, refl)
clamp-IsClamped (pos (suc n)) = elim (Bool-cases (ltb 86_400 (suc n))) [
  | inl e ↦ inr (inr (ground arith))
  | inr e ↦ inr (inl (ground arith))
]

-- The clock stands between 1970 and 9999.
abbrev pub IsClock : Datetime → Type 0
IsClock now = (pos 0 ≤ℤ now.local) × (now.local ≤ℤ pos 253_402_300_799_999_999)

clamp_bounds : (wished : ℤ) (w : ℕ) → IsClamped wished w → w ≤ 86_400
clamp_bounds wished w h = omega arith

-- Python has every window of at most a day.
day-IsInRange : (now : Datetime) (w : ℕ) → IsClock now → w ≤ 86_400 → IsInRange now (pos w)
day-IsInRange now w (past, future) few =
    let span = pos-*ℤ-pos w 1_000_000 in
    ((omega arith, omega arith), (rw span (grind int_laws), rw span (grind int_laws)))

module _ (to_int : Text → Option ℤ) (e : ℕ) (str : Decimal → Text)
    (order_by : List ConsolidatedPrice → List ConsolidatedPrice)
    (stdev : List Decimal → Result Decimal) (orders : IsOrderBy order_by) (fine : IsStdev stdev)
    (now : Datetime) (clock : IsClock now) (instruments : List Instrument)
    (prices : List ConsolidatedPrice) (query : Query) where
  abbrev answer : Result ApiResponse
  answer = rolling_stats to_int e str order_by stdev now instruments prices query

  -- A served body: the statistics of the instrument's rows in a window that ends now.
  abbrev pub IsServed : Instrument → ℕ → Type 0
  IsServed i w =
      let rows = window_rows i (starts now (pos w)) prices in
      (s : RollingStats) × (compute_rolling_stats e order_by stdev now i (pos w) prices ≡ ok s)
      × (answer ≡ ok (record { code = 200; body = object (as_dict e str s) }))
      × (s.samples ≡ length rows)
      × (((rows ≡ []) × IsEmpty s) ⊎ IsWindow rows s)

  clamped_stats :
      (i : Instrument) (wished : ℤ)
      → let rows = window_rows i (starts now (pos (clamp wished))) prices in
        (s : RollingStats) × (compute_rolling_stats e order_by stdev now i
            (pos (clamp wished))
            prices
          ≡ ok s)
        × (s.samples ≡ length rows)
        × (((rows ≡ []) × IsEmpty s) ⊎ IsWindow rows s)
  clamped_stats i wished =
      let bounded = clamp_bounds wished (clamp wished) (clamp-IsClamped wished) in
      elim (compute_rolling_stats_lem e order_by stdev now i (pos (clamp wished)) prices orders
        fine) [
          | inl (far, _) ↦ absurd (far (day-IsInRange now (clamp wished) clock bounded))
          | inr (near, s, run, samples, figures) ↦ (s, run, samples, figures)
        ]

  -- For a clock between 1970 and 9999 the view answers 400 without a symbol or for a window that is no
  -- integer, raises Http404 for a symbol that no instrument has, and else serves the statistics of an
  -- instrument with the symbol, of a window that is the wished one, or 300 seconds, held to between 1
  -- second and 86400.
  pub rolling_stats_lem :
      ((given (query (text "instrument")) ≡ none)
        × (answer ≡ ok (refusal 400 (text "instrument query param required."))))
      ⊎ ((symbol : Text) × (given (query (text "instrument")) ≡ some symbol)
          × (((window_of to_int query ≡ none)
                × (answer ≡ ok (refusal 400 (text "window must be an integer."))))
              ⊎ ((wished : ℤ) × (window_of to_int query ≡ some wished)
                  × (((answer ≡ raise not_found) × All (λ i. i.symbol ≢ symbol) instruments)
                      ⊎ ((i : Instrument) × (i.symbol ≡ symbol)
                          × Any (λ j. j ≡ i) instruments
                          × (w : ℕ) × IsClamped wished w
                          × IsServed i w)))))
  unfolding rolling_stats
  rolling_stats_lem = elim (Option-cases (given (query (text "instrument")))) [
    | inl n ↦ inl (n, rw (rolling_stats, n) refl)
    | inr (symbol, s) ↦ inr (
      symbol,
      s,
      (elim (Option-cases (window_of to_int query)) [
        | inl n ↦ inl (n, rw (rolling_stats, s, n) refl)
        | inr (wished, v) ↦ inr (
          wished,
          v,
          (elim (find_instrument_lem symbol instruments) [
            | inl (n, others) ↦ inl (rw (rolling_stats, s, v, n) refl, others)
            | inr (i, f, same, there) ↦
                let (stats, run, samples, figures) = clamped_stats i wished in
                inr (
                  i,
                  same,
                  there,
                  clamp wished,
                  clamp-IsClamped wished,
                  (stats, run, rw (rolling_stats, s, v, f, run) refl, samples, figures),
                )
          ]),
        )
      ]),
    )
  ]
