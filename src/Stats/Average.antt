-- ===== src/Stats/Average.antt =====
-- The mean mid lies between the least and the largest.
use mathlib.Core.List.Permᴰ
use mathlib.Core.List.{Permᴰ}
use native.Mathlib.Nat.{le_of_mul-le-mul_right, one-le-pow}
use mathlib.Core.Path.{subst}
use mathlib.Core.Option.{none-ne-some, some-injective}
use pricestream.Base.{
  ℕ, ◌*◌, ◌^◌, ◌≤◌, ◌<◌, ◌≡◌, refl, sym, ◌∙◌, ap, inl, inr, some, List, [], ◌∷◌, map, arith, All,
  Any, length, length-perm, All-perm,
}
use pricestream.Base.Int.{ℤ, pos, ◌≤ℤ◌}
use pricestream.Base.Result.{Exn, Result, ok, raise, ok-injective}
use pricestream.Decimal.{Decimal, sum_from}
use pricestream.Decimal.Signed.{over}
use pricestream.Decimal.Mean.{Within, mean_bounds}
use pricestream.Clock.{Datetime}
use pricestream.Models.{Instrument, ConsolidatedPrice}
use pricestream.Stats.{RollingStats, starts, window_rows, stats_of, compute_rolling_stats}
use pricestream.Stats.Range.{since_lem}
use pricestream.Stats.Window.{IsOrderBy, IsStdev, IsChronological, IsWindow, stats_of-row}

-- An amount of at most 24 digits, in units of 10 ^ j.
abbrev pub OnUnits : ℕ → Decimal → Type 0
OnUnits j x = (c : ℕ) × (c < 10 ^ 24) × (x ≡ pos (c * 10 ^ j))

reached-OnUnits :
    (j : ℕ) (m : Decimal) (rows : List ConsolidatedPrice)
    → Any (λ r. m ≡ r.mid) rows
    → All (λ r. OnUnits j r.mid) rows
    → OnUnits j m
reached-OnUnits j m [] h all = absurd h
reached-OnUnits j m (row ∷ rows) (inl e) all = rw e all.0
reached-OnUnits j m (row ∷ rows) (inr h) all = reached-OnUnits j m rows h all.1

cancel : (j a b : ℕ) → pos (a * 10 ^ j) ≤ℤ pos (b * 10 ^ j) → a ≤ b
cancel j a b h = le_of_mul-le-mul_right (omega arith) (one-le-pow j 10 (omega arith))

All-Within :
    (j lo hi : ℕ) (rows : List ConsolidatedPrice)
    → All (λ r. OnUnits j r.mid) rows
    → All (λ r. pos (lo * 10 ^ j) ≤ℤ r.mid) rows
    → All (λ r. r.mid ≤ℤ pos (hi * 10 ^ j)) rows
    → All (Within j lo hi) (map (λ r. r.mid) rows)
All-Within j lo hi [] h low high = tt
All-Within j lo hi (row ∷ rows) ((c, small, e), h) (low, lows) (high, highs) = (
  (c, cancel j lo c (rw e at low), cancel j c hi (rw e at high), e),
  All-Within j lo hi rows h lows highs,
)

length-map : (rows : List ConsolidatedPrice) → length (map (λ r. r.mid) rows) ≡ length rows
length-map [] = refl
length-map (row ∷ rows) = omega (arith, length-map rows)

-- In a window that is not empty, in any order of the rows.
IsWindow-mean :
    (j : ℕ) (row : ConsolidatedPrice) (rows : List ConsolidatedPrice) (s : RollingStats)
    → All (λ r. OnUnits j r.mid) (row ∷ rows)
    → length (row ∷ rows) ≤ 10_000
    → (w : IsWindow (row ∷ rows) s)
    → let mean =
        over
          (sum_from (pos 0) (map (λ r. r.mid) (row ∷ rows)))
          (length (map (λ r. r.mid) (row ∷ rows))) in
      (w.least ≤ℤ mean) × (mean ≤ℤ w.largest)
IsWindow-mean j row rows s units few w =
    let (lo, small, e) = reached-OnUnits j w.least (row ∷ rows) w.is_min.reached units in
    let (hi, small', e') = reached-OnUnits j w.largest (row ∷ rows) w.is_max.reached units in
    let counted = length-map (row ∷ rows) in
    let within =
      All-Within j lo hi (row ∷ rows) units
        (subst (λ m. All (λ r. m ≤ℤ r.mid) (row ∷ rows)) e w.is_min.bounds)
        (subst (λ m. All (λ r. r.mid ≤ℤ m) (row ∷ rows)) e' w.is_max.bounds) in
    rw (e, e') (mean_bounds j lo hi row.mid (map (λ r. r.mid) rows) within (grind (arith, counted)))

raise-ne-ok : {x : Exn} (s : RollingStats) → ◌≡◌ {A = Result RollingStats} (raise x) (ok s) → ⊥
raise-ne-ok s h = cc

-- Where the window holds at most 10000 rows, and each mid is an amount that its column holds, 24
-- digits of one unit, the mean that is computed with 28 digits is between the least and the largest.
pub avg_mid_bounds :
    (e j : ℕ) (order_by : List ConsolidatedPrice → List ConsolidatedPrice)
    → (stdev : List Decimal → Result Decimal) (now : Datetime) (i : Instrument) (window : ℤ)
    → (table : List ConsolidatedPrice) (s : RollingStats) (least mean largest : Decimal)
    → IsOrderBy order_by
    → IsStdev stdev
    → All (λ r. OnUnits j r.mid) (window_rows i (starts now window) table)
    → length (window_rows i (starts now window) table) ≤ 10_000
    → compute_rolling_stats e order_by stdev now i window table ≡ ok s
    → s.min_mid ≡ some least
    → s.avg_mid ≡ some mean
    → s.max_mid ≡ some largest
    → (least ≤ℤ mean) × (mean ≤ℤ largest)
unfolding compute_rolling_stats stats_of
avg_mid_bounds e j order_by stdev now i window table s least mean largest orders fine units few run
      min avg max =
    elim (since_lem now window) [
      | inl (far, over) ↦ absurd (raise-ne-ok s (rw (compute_rolling_stats, over) at run))
      | inr (near, start) ↦
          go (order_by rows) (orders.same_rows rows) (orders.chronological rows)
            (rw (compute_rolling_stats, start) at run)
    ]
  where
    rows : List ConsolidatedPrice
    rows = window_rows i (starts now window) table

    go :
        (sorted : List ConsolidatedPrice)
        → Permᴰ sorted rows
        → IsChronological sorted
        → stats_of e stdev i window sorted ≡ ok s
        → (least ≤ℤ mean) × (mean ≤ℤ largest)
    go [] p c got =
        let same : _ ≡ s = ok-injective _ s got in
        absurd (none-ne-some least (ap (λ t. t.min_mid) same ∙ min))
    go (row ∷ rest) p c got =
        let (s', run', samples, avg', w) = stats_of-row e stdev fine i window row rest c in
        let same : s' ≡ s = ok-injective s' s (sym run' ∙ got) in
        let lowest : w.least ≡ least =
          some-injective _ _ (sym w.min ∙ ap (λ t. t.min_mid) same ∙ min) in
        let highest : w.largest ≡ largest =
          some-injective _ _ (sym w.max ∙ ap (λ t. t.max_mid) same ∙ max) in
        let middle : _ ≡ mean = some-injective _ _ (sym avg' ∙ ap (λ t. t.avg_mid) same ∙ avg) in
        let units' = All-perm (λ r. OnUnits j r.mid) (Permᴰ.symm p) units in
        let between = IsWindow-mean j row rest s' units' (grind (arith, length-perm p)) w in
        rw (← lowest, ← highest, ← middle) between
