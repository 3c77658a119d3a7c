-- ===== src/Aggregator/Middle.antt =====
-- The mean of the mids of a crossed book lies between the lowest and the highest of them.
use native.Mathlib.Nat.{le_of_mul-le-mul_right, one-le-pow}
use mathlib.Core.Path.{subst}
use pricestream.Base.{
  ℕ, ◌+◌, ◌*◌, ◌^◌, ◌≤◌, ◌<◌, ◌≡◌, refl, ap, ◌∙◌, List, [], ◌∷◌, map, arith, All, Any-All, All-both,
  inl, inr, some, length,
}
use pricestream.Base.Int.{ℤ, pos, pos_part, neg_part, +ℤ_parts, ◌+ℤ◌, ◌≤ℤ◌}
use pricestream.Base.Result.{ok}
use pricestream.Decimal.{Decimal, add, fix, sum_from}
use pricestream.Decimal.Signed.{over, over-exact, fix-exact}
use pricestream.Decimal.Mean.{Within, mean_bounds}
use pricestream.Models.{Quote}
use pricestream.Clock.{Datetime}
use pricestream.Aggregator.{Consolidated, candidates, consolidate}
use pricestream.Aggregator.Gate.{All-candidates}
use pricestream.Aggregator.Extremes.{IsMax, IsMin}
use pricestream.Aggregator.Book.{IsTight, IsFallback, mids_total}
use pricestream.Aggregator.Consolidation.{
  IsOnGrid, sum-OnGrid, half_exact, tight-mid, Outcome, consolidate_lem,
}

-- `Quote.mid`, which is exact on these amounts
abbrev pub middle : Quote → Decimal
middle q = over (add q.bid q.ask) 2

pub mids_total-sum_from :
    (acc : Decimal) (cs : List Quote) → mids_total acc cs ≡ sum_from acc (map middle cs)
unfolding sum_from
mids_total-sum_from acc [] = refl
mids_total-sum_from acc (c ∷ cs) = mids_total-sum_from (add acc (middle c)) cs

pub length-middle : (cs : List Quote) → length (map middle cs) ≡ length cs
length-middle [] = refl
length-middle (c ∷ cs) = omega (arith, length-middle cs)

abbrev pub Units : ℕ → Decimal → Type 0
Units k x = (c : ℕ) × (c < 10 ^ 26) × (x ≡ pos (c * 10 ^ k))

pub middle-Units : (k : ℕ) (q : Quote) → IsOnGrid k q → Units k (middle q)
unfolding add
middle-Units k q h =
    let (c, hc, e) = sum-OnGrid k q.bid q.ask h.0 h.1 in
    let half = 5 * c * 10 ^ k in
    let whole : fix (pos (half * 2)) ≡ pos (half * 2) =
      fix-exact (pos (half * 2)) (10 * c, k, omega arith, omega arith) in
    (
      5 * c,
      omega arith,
      rw (e, whole) (over-exact half 2 (omega arith) (5 * c, k, omega arith, refl)),
    )

All-Units : (k : ℕ) (cs : List Quote) → All (IsOnGrid k) cs → All (λ q. Units k (middle q)) cs
All-Units k [] h = tt
All-Units k (q ∷ cs) h = (middle-Units k q h.0, All-Units k cs h.1)

cancel : (k a b : ℕ) → pos (a * 10 ^ k) ≤ℤ pos (b * 10 ^ k) → a ≤ b
cancel k a b h = le_of_mul-le-mul_right (omega arith) (one-le-pow k 10 (omega arith))

All-Within :
    (k lo hi : ℕ) (cs : List Quote)
    → All (λ q. Units k (middle q)) cs
    → All (λ q. pos (lo * 10 ^ k) ≤ℤ middle q) cs
    → All (λ q. middle q ≤ℤ pos (hi * 10 ^ k)) cs
    → All (Within k lo hi) (map middle cs)
All-Within k lo hi [] h low high = tt
All-Within k lo hi (q ∷ cs) ((c, small, e), h) (low, lows) (high, highs) = (
  (c, cancel k lo c (rw e at low), cancel k c hi (rw e at high), e),
  All-Within k lo hi cs h lows highs,
)

-- A crossed book: the mean of at most 100 mids.
fallback-middle :
    (k : ℕ) (cs : List Quote) (p : Consolidated) (lowest highest : Decimal)
    → All (IsOnGrid k) cs
    → length cs ≤ 100
    → IsFallback cs p
    → IsMin middle cs lowest
    → IsMax middle cs highest
    → (lowest ≤ℤ p.mid) × (p.mid ≤ℤ highest)
fallback-middle k [] p lowest highest grid few f low high = absurd low.reached
fallback-middle k (c ∷ cs) p lowest highest grid few f low high =
    let units = All-Units k (c ∷ cs) grid in
    let (q, (lo, small, e), is_low) =
      Any-All _ (λ q. lowest ≡ middle q) (c ∷ cs) units low.reached in
    let (q', (hi, small', e'), is_high) =
      Any-All _ (λ q. highest ≡ middle q) (c ∷ cs) units high.reached in
    let bottom : lowest ≡ pos (lo * 10 ^ k) = is_low ∙ e in
    let top : highest ≡ pos (hi * 10 ^ k) = is_high ∙ e' in
    let within =
      All-Within k lo hi (c ∷ cs) units
        (subst (λ m. All (λ q. m ≤ℤ middle q) (c ∷ cs)) bottom low.bounds)
        (subst (λ m. All (λ q. middle q ≤ℤ m) (c ∷ cs)) top high.bounds) in
    let counted = length-middle (c ∷ cs) in
    let between = mean_bounds k lo hi (middle c) (map middle cs) within (grind (arith, counted)) in
    rw (f.mid, bottom, top, mids_total-sum_from (pos 0) (c ∷ cs), ← counted) between

-- Twice the mid is the sum of the sides.
middle_twice : (k : ℕ) (q : Quote) → IsOnGrid k q → middle q +ℤ middle q ≡ q.bid +ℤ q.ask
middle_twice k q h = half_exact k q.bid q.ask h.0 h.1

-- The order of sums of sides is that of the mids.
half_order : (m n a b c d : Decimal) → m +ℤ m ≡ a +ℤ b → n +ℤ n ≡ c +ℤ d → a ≤ℤ c → b ≤ℤ d → m ≤ℤ n
half_order m n a b c d e f le le' = omega (
  arith,
  +ℤ_parts m m,
  +ℤ_parts n n,
  +ℤ_parts a b,
  +ℤ_parts c d,
  ap pos_part e,
  ap neg_part e,
  ap pos_part f,
  ap neg_part f,
)

-- A tight book: the quote with the best bid has no lower mid, that with the best ask no higher.
tight-middle :
    (k : ℕ) (cs : List Quote) (p : Consolidated) (lowest highest : Decimal)
    → All (IsOnGrid k) cs
    → IsTight cs p
    → IsMin middle cs lowest
    → IsMax middle cs highest
    → (lowest ≤ℤ p.mid) × (p.mid ≤ℤ highest)
tight-middle k cs p lowest highest grid t low high =
    let double = tight-mid k cs p grid t in
    let (x, ((gx, ax), mx), bx) =
      Any-All _ (λ q. p.bid ≡ q.bid) cs
        (All-both _ (λ q. middle q ≤ℤ highest) cs
          (All-both (IsOnGrid k) (λ q. p.ask ≤ℤ q.ask) cs grid t.best_ask.bounds) high.bounds)
        t.best_bid.reached in
    let (y, ((gy, ay), my), by) =
      Any-All _ (λ q. p.ask ≡ q.ask) cs
        (All-both _ (λ q. lowest ≤ℤ middle q) cs
          (All-both (IsOnGrid k) (λ q. q.bid ≤ℤ p.bid) cs grid t.best_bid.bounds) low.bounds)
        t.best_ask.reached in
    let above =
      half_order p.mid (middle x) p.bid p.ask x.bid x.ask double (middle_twice k x gx)
        (subst (λ b. p.bid ≤ℤ b) bx (omega arith)) ax in
    let below =
      half_order (middle y) p.mid y.bid y.ask p.bid p.ask (middle_twice k y gy) double ay
        (subst (λ a. a ≤ℤ p.ask) by (omega arith)) in
    (omega (arith, below, my), omega (arith, above, mx))

-- If the quotes are amounts that the database columns hold, and at most 100 of them pass the gate,
-- then the mid that is published lies between the lowest and the highest mid of those quotes,
-- whether or not the book is crossed.
pub consolidate-middle :
    (k g : ℕ) (max_age : ℤ) (now : ℕ → Datetime) (quotes : List Quote) (p : Consolidated)
    → (lowest highest : Decimal)
    → let cs = candidates g max_age now 0 quotes in
      All (IsOnGrid k) quotes
      → length cs ≤ 100
      → consolidate (k + 11) g max_age now quotes ≡ ok (some p)
      → IsMin middle cs lowest
      → IsMax middle cs highest
      → (lowest ≤ℤ p.mid) × (p.mid ≤ℤ highest)
consolidate-middle k g max_age now quotes p lowest highest grid few run low high =
    let cs = candidates g max_age now 0 quotes in
    let (r, run', outcome) = consolidate_lem (k + 11) g max_age now quotes in
    let found : r ≡ some p = cc (run', run) in
    let held = All-candidates g max_age now (IsOnGrid k) 0 quotes grid in
    elim (subst (Outcome cs) found outcome).0 [
      | inl t ↦ tight-middle k cs p lowest highest held t low high
      | inr f ↦ fallback-middle k cs p lowest highest held few f low high
    ]
