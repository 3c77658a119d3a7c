-- ===== src/Stats/Window.antt =====
-- `compute_rolling_stats` on every table: it returns, and what it says of the rows of its window.
use mathlib.Core.List.Permᴰ
use mathlib.Core.List.{Permᴰ}
use pricestream.Base.{
  ℕ, ◌≡◌, refl, ◌∙◌, ◌↔◌, ◌⊎◌, inl, inr, Bool-cases, Option, none, some, List, [], ◌∷◌, map, arith,
  All, Any, IsSorted, length, length-perm, nil_of_length, All-perm, Any-perm,
}
use pricestream.Base.Int.{ℤ, pos, ◌≤ℤ◌, ltb_ℤ}
use pricestream.Base.Result.{Result, ok, raise, overflow_error}
use pricestream.Decimal.{Decimal, from_int, sub, mul, sum_from}
use pricestream.Decimal.Signed.{over, div-from_int, div-positive}
use pricestream.Clock.{Datetime, instant}
use pricestream.Models.{Instrument, ConsolidatedPrice}
use pricestream.Aggregator.Extremes.{IsMax, IsMin, max_from-IsMax, min_from-IsMin}
use pricestream.Aggregator.{max_from, min_from}
use pricestream.Stats.Range.{IsInRange, since_lem}
use pricestream.Stats.{
  RollingStats, starts, window_rows, last_of, spreads_bps, average, average_or_none, stats_of,
  compute_rolling_stats,
}

-- From the earliest to the latest.
abbrev pub IsChronological : List ConsolidatedPrice → Type 0
IsChronological = IsSorted (λ a b. instant a.timestamp ≤ℤ instant b.timestamp)

-- What `order_by("timestamp")` gives: the same rows, in this order. Ties may come in any order.
pub record IsOrderBy (order_by : List ConsolidatedPrice → List ConsolidatedPrice) : Type 0 where
  pub same_rows : (rows : List ConsolidatedPrice) → Permᴰ (order_by rows) rows
  pub chronological : (rows : List ConsolidatedPrice) → IsChronological (order_by rows)

-- `pstdev` raises on no values only.
abbrev pub IsStdev : (List Decimal → Result Decimal) → Type 0
IsStdev stdev = (m : Decimal) (ms : List Decimal) → (s : Decimal) × (stdev (m ∷ ms) ≡ ok s)

-- The last row of a list is one of its latest.
last_of-latest :
    (row : ConsolidatedPrice) (rows : List ConsolidatedPrice)
    → IsChronological (row ∷ rows)
    → Any (λ r. r ≡ last_of row rows) (row ∷ rows)
      × All (λ r. instant r.timestamp ≤ℤ instant (last_of row rows).timestamp) (row ∷ rows)
last_of-latest row [] h = (inl refl, (omega arith, tt))
last_of-latest row (next ∷ rows) h =
    let (there, later) = last_of-latest next rows h.1 in
    let (first, rest) = h.0 in (inr there, (omega arith, later))

-- There is a spread for each row with a positive mid.
spreads_bps_lem :
    (e : ℕ) (rows : List ConsolidatedPrice)
    → (xs : List Decimal) × (spreads_bps e rows ≡ ok xs)
      × ((xs ≡ []) ↔ All (λ r. r.mid ≤ℤ pos 0) rows)
unfolding spreads_bps
spreads_bps_lem e [] = ([], refl, ((λ h. tt), (λ h. refl)))
spreads_bps_lem e (row ∷ rows) =
    let (xs, rest, empty) = spreads_bps_lem e rows in
    elim (Bool-cases (ltb_ℤ (pos 0) row.mid)) [
      | inr low ↦ (xs, rw low rest, ((λ h. (ground arith, empty.0 h)), (λ h. empty.1 h.1)))
      | inl high ↦
          let (ratio, quotient) = div-positive e (sub row.ask row.bid) row.mid high in
          (
            mul e ratio (from_int e 10_000) ∷ xs,
            rw (high, quotient, rest),
            ((λ h. cc), (λ h. absurd (ground (arith, h.0)))),
          )
    ]

-- The figures of a window that is not empty, whatever the order of the rows.
pub record IsWindow (rows : List ConsolidatedPrice) (s : RollingStats) : Type 0 where
  pub latest : ConsolidatedPrice
  pub last : s.last_mid ≡ some latest.mid
  pub last_row : Any (λ r. r ≡ latest) rows
  pub last_instant : All (λ r. instant r.timestamp ≤ℤ instant latest.timestamp) rows
  pub least : Decimal
  pub min : s.min_mid ≡ some least
  pub is_min : IsMin (λ r. r.mid) rows least
  pub largest : Decimal
  pub max : s.max_mid ≡ some largest
  pub is_max : IsMax (λ r. r.mid) rows largest
  pub spread : (s.avg_spread_bps ≡ none) ↔ All (λ r. r.mid ≤ℤ pos 0) rows

-- No figure but the number of samples.
pub record IsEmpty (s : RollingStats) : Type 0 where
  pub last : s.last_mid ≡ none
  pub avg : s.avg_mid ≡ none
  pub min : s.min_mid ≡ none
  pub max : s.max_mid ≡ none
  pub stdev : s.mid_stdev ≡ none
  pub spread : s.avg_spread_bps ≡ none

average-returns :
    (e : ℕ) (x : Decimal) (xs : List Decimal)
    → average e (x ∷ xs) ≡ ok (over (sum_from (pos 0) (x ∷ xs)) (length (x ∷ xs)))
average-returns e x xs = div-from_int e (sum_from (pos 0) (x ∷ xs)) (length (x ∷ xs)) (omega arith)

-- The mean spread is there exactly if there are spreads.
average_or_none-returns :
    (e : ℕ) (xs : List Decimal)
    → (o : Option Decimal) × (average_or_none e xs ≡ ok o) × ((o ≡ none) ↔ (xs ≡ []))
average_or_none-returns e [] = (none, refl, ((λ h. refl), (λ h. refl)))
average_or_none-returns e (x ∷ xs) =
    let mean : Decimal = over (sum_from (pos 0) (x ∷ xs)) (length (x ∷ xs)) in
    let some-ne-none : ¬ (◌≡◌ {A = Option Decimal} (some mean) none) = λ h. cc in
    let cons-ne-nil : ¬ (x ∷ xs ≡ []) = λ h. cc in
    (
      some mean,
      rw (average-returns e x xs),
      ((λ h. absurd (some-ne-none h)), (λ h. absurd (cons-ne-nil h))),
    )

-- The figures do not depend on the order.
IsWindow-perm :
    (rows table : List ConsolidatedPrice) (s : RollingStats)
    → Permᴰ rows table
    → IsWindow rows s
    → IsWindow table s
IsWindow-perm rows table s p w = record {
  latest = w.latest;
  last = w.last;
  least = w.least;
  min = w.min;
  largest = w.largest;
  max = w.max;
  last_row = Any-perm (λ r. r ≡ w.latest) p w.last_row;
  last_instant = All-perm (λ r. instant r.timestamp ≤ℤ instant w.latest.timestamp) p w.last_instant;
  is_min = record {
    bounds = All-perm (λ r. w.least ≤ℤ r.mid) p w.is_min.bounds;
    reached = Any-perm (λ r. w.least ≡ r.mid) p w.is_min.reached;
  };
  is_max = record {
    bounds = All-perm (λ r. r.mid ≤ℤ w.largest) p w.is_max.bounds;
    reached = Any-perm (λ r. w.largest ≡ r.mid) p w.is_max.reached;
  };
  spread = (
    (λ h. All-perm (λ r. r.mid ≤ℤ pos 0) p (w.spread.0 h)),
    (λ h. w.spread.1 (All-perm (λ r. r.mid ≤ℤ pos 0) (Permᴰ.symm p) h)),
  );
}

module _ (e : ℕ) (stdev : List Decimal → Result Decimal) (fine : IsStdev stdev) where
  -- The rows in their order give all figures.
  pub stats_of-row :
      (i : Instrument) (window : ℤ) (row : ConsolidatedPrice) (rows : List ConsolidatedPrice)
      → IsChronological (row ∷ rows)
      → let mids = map (λ r. r.mid) (row ∷ rows) in
        (s : RollingStats) × (stats_of e stdev i window (row ∷ rows) ≡ ok s)
        × (s.samples ≡ length (row ∷ rows))
        × (s.avg_mid ≡ some (over (sum_from (pos 0) mids) (length mids)))
        × IsWindow (row ∷ rows) s
  unfolding stats_of
  stats_of-row i window row rows sorted =
      let mids = map (λ r. r.mid) (row ∷ rows) in
      let (spreads, run, empty) = spreads_bps_lem e (row ∷ rows) in
      let (avg_spread, run', empty') = average_or_none-returns e spreads in
      let (deviation, run'') = fine row.mid (map (λ r. r.mid) rows) in
      let (there, later) = last_of-latest row rows sorted in
      let s : RollingStats = record {
        instrument = i.symbol;
        window_seconds = window;
        samples = length (row ∷ rows);
        last_mid = some (last_of row rows).mid;
        avg_mid = some (over (sum_from (pos 0) mids) (length mids));
        min_mid = some (min_from row.mid (map (λ r. r.mid) rows));
        max_mid = some (max_from row.mid (map (λ r. r.mid) rows));
        mid_stdev = some deviation;
        avg_spread_bps = avg_spread;
      } in
      (
        s,
        rw (run, average-returns e row.mid (map (λ r. r.mid) rows), run'', run'),
        refl,
        refl,
        record {
          latest = last_of row rows;
          last = refl;
          last_row = there;
          last_instant = later;
          least = min_from row.mid (map (λ r. r.mid) rows);
          min = refl;
          is_min = min_from-IsMin (λ r. r.mid) row rows;
          largest = max_from row.mid (map (λ r. r.mid) rows);
          max = refl;
          is_max = max_from-IsMax (λ r. r.mid) row rows;
          spread = ((λ h. empty.0 (empty'.0 h)), (λ h. empty'.1 (empty.1 h)));
        },
      )

-- For rows that the database hands over in the order of their timestamps, and a `pstdev` that fails
-- on no values only: the call raises OverflowError for a window that no `timedelta` has, or that starts
-- before the year 1 or after 9999, and returns for every other window, clock and table. Where the
-- instrument has no row in the window all figures are none and the number of samples is 0. Else the
-- samples are counted, last_mid is the mid of a row with no later one, min_mid and max_mid are the least and the
-- largest mid, and the mean spread is none exactly if no mid is positive. Ties in time do not matter
-- for any of these but which of the latest rows gives last_mid.
pub compute_rolling_stats_lem :
    (e : ℕ) (order_by : List ConsolidatedPrice → List ConsolidatedPrice)
    → (stdev : List Decimal → Result Decimal) (now : Datetime) (i : Instrument) (window : ℤ)
    → (table : List ConsolidatedPrice) → IsOrderBy order_by
    → IsStdev stdev
    → let rows = window_rows i (starts now window) table in
      ((¬ IsInRange now window)
        × (compute_rolling_stats e order_by stdev now i window table ≡ raise overflow_error))
      ⊎ (IsInRange now window
          × (s : RollingStats) × (compute_rolling_stats e order_by stdev now i window table ≡ ok s)
          × (s.samples ≡ length rows)
          × (((rows ≡ []) × IsEmpty s) ⊎ IsWindow rows s))
unfolding compute_rolling_stats stats_of
compute_rolling_stats_lem e order_by stdev now i window table orders fine =
    elim (since_lem now window) [
      | inl (far, over) ↦ inl (far, rw (compute_rolling_stats, over))
      | inr (near, start) ↦
          let (s, run, samples, figures) =
            go (order_by rows) (orders.same_rows rows) (orders.chronological rows) in
          inr (near, s, rw (compute_rolling_stats, start) run, samples, figures)
    ]
  where
    rows : List ConsolidatedPrice
    rows = window_rows i (starts now window) table

    go :
        (sorted : List ConsolidatedPrice)
        → Permᴰ sorted rows
        → IsChronological sorted
        → (s : RollingStats) × (stats_of e stdev i window sorted ≡ ok s)
          × (s.samples ≡ length rows)
          × (((rows ≡ []) × IsEmpty s) ⊎ IsWindow rows s)
    go [] p c =
        let count : 0 ≡ length rows = length-perm p in
        (
          _,
          refl,
          count,
          inl (
            nil_of_length rows (omega (arith, count)),
            record { last = refl; avg = refl; min = refl; max = refl; stdev = refl; spread = refl },
          ),
        )
    go (row ∷ rest) p c =
        let (s, run, samples, avg, figures) = stats_of-row e stdev fine i window row rest c in
        (s, run, samples ∙ length-perm p, inr (IsWindow-perm (row ∷ rest) rows s p figures))
