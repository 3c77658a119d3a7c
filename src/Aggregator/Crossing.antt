-- ===== src/Aggregator/Crossing.antt =====
-- A crossed book and an arbitrage are the same event.
use mathlib.Core.Path.{subst}
use mathlib.Core.Option.{none-ne-some}
use pricestream.Base.{
  ℕ, ◌+◌, Bool-cases, ◌≡◌, ◌≢◌, refl, ◌∙◌, sym, ◌↔◌, ◌⊎◌, inl, inr, Option, none, some, List, [],
  ◌∷◌, All, Any-All, All-both, arith, if◌then◌else◌, ◌&&◌,
}
use pricestream.Base.Int.{ℤ, ◌≤ℤ◌, ◌<ℤ◌}
use pricestream.Base.Result.{ok, ok-injective}
use pricestream.Decimal.{Decimal, sub}
use pricestream.Clock.{Datetime}
use pricestream.Models.{Quote}
use pricestream.Aggregator.{
  Arbitrage, Consolidated, two_sided, is_fresh, candidates, consolidate, detect_arbitrage,
}
use pricestream.Aggregator.Spec.{
  IsTwoSided, Crosses, IsReport, Reaches, CoversSells, Covers, ReportsSell, Reports,
}
use pricestream.Aggregator.Book.{IsTight, IsFallback}
use pricestream.Aggregator.Consolidation.{Outcome, consolidate_lem}
use pricestream.Aggregator.Arbitrages.{detect_arbitrage-largest}

-- No venue crosses itself: of two quotes of one venue, the same one twice included, neither bids
-- above the other's ask.
abbrev pub IsSane : List Quote → Type 0
IsSane cs = All (λ buy. All (λ sell. (buy.source ≢ sell.source) ⊎ (sell.bid ≤ℤ buy.ask)) cs) cs

All-candidates-IsTwoSided :
    (g : ℕ) (max_age : ℤ) (now : ℕ → Datetime) (i : ℕ) (quotes : List Quote)
    → All IsTwoSided (candidates g max_age now i quotes)
unfolding candidates
All-candidates-IsTwoSided g max_age now i [] = tt
All-candidates-IsTwoSided g max_age now i (q ∷ qs) =
    elim (Bool-cases (two_sided q && is_fresh g max_age (now i) q)) [
      | inl e ↦ rw e (
        ground arith,
        All-candidates-IsTwoSided g max_age now (if two_sided q then i + 1 else i) qs,
      )
      | inr e ↦ rw e (All-candidates-IsTwoSided g max_age now (if two_sided q then i + 1 else i) qs)
    ]

module _ (cs : List Quote) (p : Consolidated) where
  -- An opportunity is no more than the best prices allow.
  tight-none : (r : Option Arbitrage) → Reports cs cs r → IsTight cs p → r ≡ none
  tight-none none reports t = refl
  tight-none (some a) reports t =
      let (buy, low, there) =
        Any-All _ (λ buy. ReportsSell buy cs a) cs t.best_ask.bounds reports in
      let (sell, high, report) =
        Any-All _ (λ sell. IsReport buy sell a) cs t.best_bid.bounds there in
      absurd (omega (arith, low, high, t.uncrossed, report.crosses.gain))

  -- The best prices of a crossed book are of two venues.
  fallback-some :
      (r : Option Arbitrage)
      → All IsTwoSided cs
      → IsSane cs
      → Covers cs cs r
      → IsFallback cs p
      → (a : Arbitrage) × (r ≡ some a)
  fallback-some r sided sane covers f =
      let (buy, ((two, own), covered), asked) =
        Any-All _ (λ q. f.best_ask ≡ q.ask) cs
          (All-both _ (λ buy. CoversSells buy cs r) cs (All-both IsTwoSided _ cs sided sane) covers)
          f.is_ask.reached in
      let (sell, ((two', own'), covered'), offered) =
        Any-All _ (λ q. f.best_bid ≡ q.bid) cs
          (All-both _ (λ sell. Crosses buy sell → Reaches (sub sell.bid buy.ask) r) cs
            (All-both IsTwoSided (λ sell. (buy.source ≢ sell.source) ⊎ (sell.bid ≤ℤ buy.ask)) cs
              sided own)
            covered)
          f.is_bid.reached in
      let gain : buy.ask <ℤ sell.bid =
        subst (λ b. buy.ask <ℤ b) offered (subst (λ a. a <ℤ f.best_bid) asked f.crossed) in
      let apart : buy.source ≢ sell.source = elim own' [
        | inl other ↦ other
        | inr le ↦ absurd (omega (arith, gain, le))
      ] in
      some-of r (sub sell.bid buy.ask)
        (covered' (record { buyable = two; sellable = two'; venues = apart; gain = gain }))
    where
      some-of : (r : Option Arbitrage) (s : Decimal) → Reaches s r → (a : Arbitrage) × (r ≡ some a)
      some-of none s h = absurd h
      some-of (some a) s h = (a, refl)

-- Among candidates of which no venue crosses itself, `detect_arbitrage` finds an opportunity exactly
-- if `consolidate` falls back to the mean of the mids, and none exactly if it publishes the mid of
-- the best prices.
pub consolidate-detect_arbitrage :
    (e g : ℕ) (max_age : ℤ) (now : ℕ → Datetime) (quotes : List Quote) (p : Consolidated)
    → (r : Option Arbitrage)
    → let cs = candidates g max_age now 0 quotes in
      IsSane cs
      → consolidate e g max_age now quotes ≡ ok (some p)
      → detect_arbitrage e cs ≡ ok r
      → (((a : Arbitrage) × (r ≡ some a)) ↔ IsFallback cs p) × ((r ≡ none) ↔ IsTight cs p)
consolidate-detect_arbitrage e g max_age now quotes p r sane priced detected =
    let cs = candidates g max_age now 0 quotes in
    let sided = All-candidates-IsTwoSided g max_age now 0 quotes in
    let (o, run, outcome) = consolidate_lem e g max_age now quotes in
    let found : o ≡ some p = cc (run, priced) in
    let branch : IsTight cs p ⊎ IsFallback cs p = (subst (Outcome cs) found outcome).0 in
    let (r', run', covers', reports') = detect_arbitrage-largest e cs in
    let same : r' ≡ r = ok-injective r' r (sym run' ∙ detected) in
    let covers : Covers cs cs r = subst (Covers cs cs) same covers' in
    let reports : Reports cs cs r = subst (Reports cs cs) same reports' in
    (
      (
        (λ h. elim branch [
          | inl t ↦ absurd (none-ne-some h.0 (sym (tight-none cs p r reports t) ∙ h.1))
          | inr f ↦ f
        ]),
        (λ f. fallback-some cs p r sided sane covers f),
      ),
      (
        (λ h. elim branch [
          | inl t ↦ t
          | inr f ↦
              let (a, is_some) = fallback-some cs p r sided sane covers f in
              absurd (none-ne-some a (sym h ∙ is_some))
        ]),
        (λ t. tight-none cs p r reports t),
      ),
    )
