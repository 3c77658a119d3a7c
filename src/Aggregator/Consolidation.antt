-- ===== src/Aggregator/Consolidation.antt =====
-- `consolidate`: it never raises, and what it publishes is in order.
use mathlib.Core.Path.{subst}
use pricestream.Base.{
  ℕ, ◌+◌, ◌*◌, ◌^◌, ◌<◌, ◌≡◌, refl, ap, ◌⊎◌, inl, inr, Option, none, some, List, [], ◌∷◌, map,
  arith, All, Any,
}
use pricestream.Base.Int.{ℤ, pos, pos_part, neg_part, ◌+ℤ◌, ◌≤ℤ◌, +ℤ_parts, eq_of_parts}
use pricestream.Base.Text.{sorted_set}
use pricestream.Base.Result.{ok}
use pricestream.Decimal.{Decimal, add, fix}
use pricestream.Decimal.Signed.{over, over-exact, fix-exact}
use pricestream.Clock.{Datetime}
use pricestream.Models.{Quote}
use pricestream.Aggregator.{Consolidated, candidates, consolidate_candidates, consolidate}
use pricestream.Aggregator.Book.{IsTight, IsFallback, price_of_lem}
use pricestream.Aggregator.Gate.{All-candidates}

-- What the call gives for its candidates.
abbrev pub Outcome : List Quote → Option Consolidated → Type 0
Outcome cs none = cs ≡ []
Outcome cs (some p) =
    (IsTight cs p ⊎ IsFallback cs p) × (p.sources ≡ sorted_set (map (λ q. q.source) cs))

pub consolidate_candidates_lem :
    (e : ℕ) (cs : List Quote)
    → (r : Option Consolidated) × (consolidate_candidates e cs ≡ ok r) × Outcome cs r
unfolding consolidate_candidates
consolidate_candidates_lem e [] = (none, refl, refl)
consolidate_candidates_lem e (c ∷ cs) =
    let (p, priced, branch, sources) = price_of_lem e c cs in (some p, rw priced, (branch, sources))

-- For every list of quotes and every clock the call returns: nothing exactly if no quote passes
-- the gate, else the tight price of the best bid and the best ask if these do not cross, else the
-- mean of the mids with the best prices held to it; the sources are those of the candidates.
pub consolidate_lem :
    (e g : ℕ) (max_age : ℤ) (now : ℕ → Datetime) (quotes : List Quote)
    → (r : Option Consolidated) × (consolidate e g max_age now quotes ≡ ok r)
      × Outcome (candidates g max_age now 0 quotes) r
unfolding consolidate
consolidate_lem e g max_age now quotes =
    consolidate_candidates_lem e (candidates g max_age now 0 quotes)

-- A positive amount that a `DecimalField(max_digits=24, decimal_places=10)` holds, where ten units
-- of 10 ^ k make the tenth decimal place.
abbrev pub OnGrid : ℕ → Decimal → Type 0
OnGrid k x = (c : ℕ) × (c < 10 ^ 24) × (x ≡ pos (c * (10 * 10 ^ k)))

abbrev pub IsOnGrid : ℕ → Quote → Type 0
IsOnGrid k q = OnGrid k q.bid × OnGrid k q.ask

pub sum-OnGrid :
    (k : ℕ) (a b : Decimal)
    → OnGrid k a
    → OnGrid k b
    → (c : ℕ) × (c < 10 ^ 25) × (a +ℤ b ≡ pos (5 * c * 10 ^ k * 2))
sum-OnGrid k a b (c, hc, ea) (d, hd, eb) = (
  c + d,
  omega arith,
  eq_of_parts (a +ℤ b) _
      (omega (arith, +ℤ_parts a b, ap pos_part ea, ap neg_part ea, ap pos_part eb, ap neg_part eb)),
)

-- The sum of two such amounts is halved exactly.
pub half_exact :
    (k : ℕ) (a b : Decimal)
    → OnGrid k a
    → OnGrid k b
    → over (add a b) 2 +ℤ over (add a b) 2 ≡ a +ℤ b
unfolding add
half_exact k a b ha hb =
    let (c, hc, e) = sum-OnGrid k a b ha hb in
    let h = 5 * c * 10 ^ k in
    let whole : fix (pos (h * 2)) ≡ pos (h * 2) =
      fix-exact (pos (h * 2)) (10 * c, k, omega arith, omega arith) in
    let half : over (pos (h * 2)) 2 ≡ pos h =
      over-exact h 2 (omega arith) (5 * c, k, omega arith, refl) in
    rw (e, whole, half) (eq_of_parts _ _ (omega (arith, +ℤ_parts (pos h) (pos h))))

reached-OnGrid :
    (k : ℕ) (f : Quote → Decimal) (m : Decimal) (cs : List Quote)
    → Any (λ q. m ≡ f q) cs
    → All (λ q. OnGrid k (f q)) cs
    → OnGrid k m
reached-OnGrid k f m [] h all = absurd h
reached-OnGrid k f m (q ∷ cs) (inl e) all = rw e all.0
reached-OnGrid k f m (q ∷ cs) (inr h) all = reached-OnGrid k f m cs h all.1

All-side :
    (k : ℕ) (cs : List Quote)
    → All (IsOnGrid k) cs
    → All (λ q. OnGrid k q.bid) cs × All (λ q. OnGrid k q.ask) cs
All-side k [] h = (tt, tt)
All-side k (q ∷ cs) h = let (bids, asks) = All-side k cs h.1 in ((h.0.0, bids), (h.0.1, asks))

-- A price with its mid between its own bid and ask.
pub record IsOrdered (p : Consolidated) : Type 0 where
  pub bid : p.bid ≤ℤ p.mid
  pub ask : p.mid ≤ℤ p.ask

pub tight-mid :
    (k : ℕ) (cs : List Quote) (p : Consolidated)
    → All (IsOnGrid k) cs
    → IsTight cs p
    → p.mid +ℤ p.mid ≡ p.bid +ℤ p.ask
tight-mid k cs p h t =
    let (bids, asks) = All-side k cs h in
    rw t.mid (
      half_exact k p.bid p.ask (reached-OnGrid k (λ q. q.bid) p.bid cs t.best_bid.reached bids)
        (reached-OnGrid k (λ q. q.ask) p.ask cs t.best_ask.reached asks))

tight-IsOrdered :
    (k : ℕ) (cs : List Quote) (p : Consolidated) → All (IsOnGrid k) cs → IsTight cs p → IsOrdered p
tight-IsOrdered k cs p h t =
    let double = tight-mid k cs p h t in
    omega (
      arith,
      t.uncrossed,
      +ℤ_parts p.mid p.mid,
      +ℤ_parts p.bid p.ask,
      ap pos_part double,
      ap neg_part double,
    )

fallback-IsOrdered : (cs : List Quote) (p : Consolidated) → IsFallback cs p → IsOrdered p
fallback-IsOrdered cs p f = record {
  bid = elim f.bid [ inl (e, le) ↦ rw e le | inr (e, le) ↦ rw e (omega arith) ];
  ask = elim f.ask [ inl (e, le) ↦ rw e le | inr (e, le) ↦ rw e (omega arith) ];
}

-- If the quotes are amounts that the database columns hold, then the price that is published has
-- its mid between its bid and its ask, also when the book is crossed.
pub consolidate-IsOrdered :
    (k g : ℕ) (max_age : ℤ) (now : ℕ → Datetime) (quotes : List Quote) (p : Consolidated)
    → All (IsOnGrid k) quotes
    → consolidate (k + 11) g max_age now quotes ≡ ok (some p)
    → IsOrdered p
consolidate-IsOrdered k g max_age now quotes p h e =
    let cs = candidates g max_age now 0 quotes in
    let (r, run, outcome) = consolidate_lem (k + 11) g max_age now quotes in
    let found : r ≡ some p = cc (run, e) in
    elim (subst (Outcome cs) found outcome).0 [
      | inl t ↦ tight-IsOrdered k cs p (All-candidates g max_age now (IsOnGrid k) 0 quotes h) t
      | inr f ↦ fallback-IsOrdered cs p f
    ]
