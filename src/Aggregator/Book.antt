-- ===== src/Aggregator/Book.antt =====
-- The best prices of a book of candidates, and both branches of `consolidate` on them.
use pricestream.Base.{
  ℕ, ◌≡◌, refl, ◌⊎◌, inl, inr, true, false, Bool-cases, List, [], ◌∷◌, map, arith, length,
}
use pricestream.Base.Int.{pos, ◌≤ℤ◌, ◌<ℤ◌, ltb_ℤ}
use pricestream.Base.Text.{sorted_set}
use pricestream.Base.Result.{ok}
use pricestream.Aggregator.Extremes.{IsMax, IsMin, max_from-IsMax, min_from-IsMin}
use pricestream.Decimal.{Decimal, add}
use pricestream.Decimal.Signed.{over, div-from_int}
use pricestream.Models.{Quote, mid_of}
use pricestream.Aggregator.{Consolidated, max_from, min_from, sum_mids, price_of}

-- The mids are summed from the left; no division fails.
abbrev pub mids_total : Decimal → List Quote → Decimal
mids_total acc [] = acc
mids_total acc (q ∷ qs) = mids_total (add acc (over (add q.bid q.ask) 2)) qs

pub sum_mids_lem :
    (e : ℕ) (acc : Decimal) (qs : List Quote) → sum_mids e acc qs ≡ ok (mids_total acc qs)
unfolding sum_mids mid_of
sum_mids_lem e acc [] = refl
sum_mids_lem e acc (q ∷ qs) =
    rw (div-from_int e (add q.bid q.ask) 2 (omega arith))
      (sum_mids_lem e (add acc (over (add q.bid q.ask) 2)) qs)

-- A book that is not crossed: its best prices, and the mid between them.
pub record IsTight (cs : List Quote) (p : Consolidated) : Type 0 where
  pub best_bid : IsMax (λ q. q.bid) cs p.bid
  pub best_ask : IsMin (λ q. q.ask) cs p.ask
  pub uncrossed : p.bid ≤ℤ p.ask
  pub mid : p.mid ≡ over (add p.bid p.ask) 2

-- A crossed book: the mean of the mids, and the best prices as far as they do not cross it.
pub record IsFallback (cs : List Quote) (p : Consolidated) : Type 0 where
  pub best_bid : Decimal
  pub best_ask : Decimal
  pub is_bid : IsMax (λ q. q.bid) cs best_bid
  pub is_ask : IsMin (λ q. q.ask) cs best_ask
  pub crossed : best_ask <ℤ best_bid
  pub mid : p.mid ≡ over (mids_total (pos 0) cs) (length cs)
  pub bid : ((p.bid ≡ best_bid) × (best_bid ≤ℤ p.mid)) ⊎ ((p.bid ≡ p.mid) × (p.mid ≤ℤ best_bid))
  pub ask : ((p.ask ≡ best_ask) × (p.mid ≤ℤ best_ask)) ⊎ ((p.ask ≡ p.mid) × (best_ask ≤ℤ p.mid))

min_two :
    (a b : Decimal) → let r = min_from a (b ∷ []) in ((r ≡ a) × (a ≤ℤ b)) ⊎ ((r ≡ b) × (b ≤ℤ a))
unfolding min_from
min_two a b = elim (Bool-cases (ltb_ℤ b a)) [
  | inl below ↦ inr (rw below, ground arith)
  | inr above ↦ inl (rw above, ground arith)
]

max_two :
    (a b : Decimal) → let r = max_from a (b ∷ []) in ((r ≡ a) × (b ≤ℤ a)) ⊎ ((r ≡ b) × (a ≤ℤ b))
unfolding max_from
max_two a b = elim (Bool-cases (ltb_ℤ a b)) [
  | inl above ↦ inr (rw above, ground arith)
  | inr below ↦ inl (rw below, ground arith)
]

-- The price of a book, and what it was computed from.
abbrev pub Priced : ℕ → Quote → List Quote → Type 0
Priced e c cs =
    (p : Consolidated) × (price_of e c cs ≡ ok p)
    × (IsTight (c ∷ cs) p ⊎ IsFallback (c ∷ cs) p)
    × (p.sources ≡ sorted_set (map (λ q. q.source) (c ∷ cs)))

tight_price :
    (e : ℕ) (c : Quote) (cs : List Quote)
    → ltb_ℤ (min_from c.ask (map (λ q. q.ask) cs)) (max_from c.bid (map (λ q. q.bid) cs)) ≡ false
    → Priced e c cs
unfolding price_of
tight_price e c cs tight =
    let bid = max_from c.bid (map (λ q. q.bid) cs) in
    let ask = min_from c.ask (map (λ q. q.ask) cs) in
    let p : Consolidated = record {
      mid = over (add bid ask) 2;
      bid = bid;
      ask = ask;
      sources = sorted_set (map (λ q. q.source) (c ∷ cs));
    } in
    (
      p,
      rw (tight, div-from_int e (add bid ask) 2 (omega arith)),
      inl (record {
        best_bid = max_from-IsMax (λ q. q.bid) c cs;
        best_ask = min_from-IsMin (λ q. q.ask) c cs;
        uncrossed = ground arith;
        mid = refl;
      }),
      refl,
    )

crossed_price :
    (e : ℕ) (c : Quote) (cs : List Quote)
    → ltb_ℤ (min_from c.ask (map (λ q. q.ask) cs)) (max_from c.bid (map (λ q. q.bid) cs)) ≡ true
    → Priced e c cs
unfolding price_of
crossed_price e c cs crossed =
    let bid = max_from c.bid (map (λ q. q.bid) cs) in
    let ask = min_from c.ask (map (λ q. q.ask) cs) in
    let total = mids_total (pos 0) (c ∷ cs) in
    let mid = over total (length (c ∷ cs)) in
    let p : Consolidated = record {
      mid = mid;
      bid = min_from bid (mid ∷ []);
      ask = max_from ask (mid ∷ []);
      sources = sorted_set (map (λ q. q.source) (c ∷ cs));
    } in
    (
      p,
      rw (
        crossed,
        sum_mids_lem e (pos 0) (c ∷ cs),
        div-from_int e total (length (c ∷ cs)) (omega arith),
      ),
      inr (record {
        best_bid = bid;
        best_ask = ask;
        is_bid = max_from-IsMax (λ q. q.bid) c cs;
        is_ask = min_from-IsMin (λ q. q.ask) c cs;
        crossed = ground arith;
        mid = refl;
        bid = min_two bid mid;
        ask = max_two ask mid;
      }),
      refl,
    )

-- With a candidate there is a price, on both branches.
pub price_of_lem : (e : ℕ) (c : Quote) (cs : List Quote) → Priced e c cs
price_of_lem e c cs =
    let bid = max_from c.bid (map (λ q. q.bid) cs) in
    let ask = min_from c.ask (map (λ q. q.ask) cs) in
    elim (Bool-cases (ltb_ℤ ask bid)) [
      | inl over_crossed ↦ crossed_price e c cs over_crossed
      | inr tight ↦ tight_price e c cs tight
    ]
