-- ===== src/Aggregator/Arbitrages.antt =====
-- `detect_arbitrage` returns for every list of quotes, and gives the largest opportunity.
use pricestream.Base.{
  ℕ, ◌≡◌, refl, ◌⊎◌, inl, inr, sym, Bool, true, false, if◌then◌else◌, Bool-cases, Option, none,
  some, List, [], ◌∷◌, arith, All, Any, ltb, length,
}
use mathlib.Core.Path.{subst}
use pricestream.Base.Result.{ok}
use pricestream.Decimal.{sub}
use pricestream.Models.{Quote}
use pricestream.Aggregator.{Arbitrage, two_sided, tradable, detect_arbitrage}
use pricestream.Aggregator.Spec.{
  IsTwoSided, Crosses, IsReport, Reaches, CoversSells, Covers, ReportsSell, Reports,
}
use pricestream.Aggregator.Turn.{Scans}
use pricestream.Aggregator.Scan.{scan_buys-Scans}

two_sided-IsTwoSided : (q : Quote) → two_sided q ≡ true → IsTwoSided q
two_sided-IsTwoSided q h = ground arith

IsTwoSided-two_sided : (q : Quote) → IsTwoSided q → two_sided q ≡ true
IsTwoSided-two_sided q h = ground arith

All-tradable : (qs : List Quote) → All IsTwoSided (tradable qs)
unfolding tradable
All-tradable [] = tt
All-tradable (q ∷ qs) = elim (Bool-cases (two_sided q)) [
  | inl h ↦ rw h (two_sided-IsTwoSided q h, All-tradable qs)
  | inr h ↦ rw h (All-tradable qs)
]

-- What holds of some tradable quote holds of some quote.
Any-tradable : (P : Quote → Type 0) (qs : List Quote) → Any P (tradable qs) → Any P qs
unfolding tradable
Any-tradable P [] = λ h. h
Any-tradable P (q ∷ qs) = go (two_sided q) (Any-tradable P qs)
  where
    go :
        (b : Bool)
        → (Any P (tradable qs) → Any P qs)
        → Any P (if b then q ∷ tradable qs else tradable qs)
        → P q ⊎ Any P qs
    go true rest (inl h) = inl h
    go true rest (inr h) = inr (rest h)
    go false rest h = inr (rest h)

-- What holds of all tradable quotes, and of those with a side missing, holds of all quotes.
All-of-tradable :
    (P : Quote → Type 0) (qs : List Quote)
    → ((q : Quote) → ¬ IsTwoSided q → P q)
    → All P (tradable qs)
    → All P qs
unfolding tradable
All-of-tradable P [] other = λ _. tt
All-of-tradable P (q ∷ qs) other = go (two_sided q) refl (All-of-tradable P qs other)
  where
    go :
        (b : Bool)
        → two_sided q ≡ b
        → (All P (tradable qs) → All P qs)
        → All P (if b then q ∷ tradable qs else tradable qs)
        → P q × All P qs
    go true e rest h = (h.0, rest h.1)
    go false e rest h = (other q (λ t. cc (e, IsTwoSided-two_sided q t)), rest h)

-- A quote with a side missing crosses no other.
CoversSells-one_sided :
    (buy : Quote) (sells : List Quote) (r : Option Arbitrage)
    → ¬ IsTwoSided buy
    → CoversSells buy sells r
CoversSells-one_sided buy [] r n = tt
CoversSells-one_sided buy (sell ∷ sells) r n =
    (λ c. absurd (n c.buyable), CoversSells-one_sided buy sells r n)

CoversSells-of_tradable :
    (buy : Quote) (sells : List Quote) (r : Option Arbitrage)
    → CoversSells buy (tradable sells) r
    → CoversSells buy sells r
CoversSells-of_tradable buy sells r =
    All-of-tradable (λ sell. Crosses buy sell → Reaches (sub sell.bid buy.ask) r) sells
      (λ q n c. absurd (n c.sellable))

Covers-sells :
    (buys sells : List Quote) (r : Option Arbitrage)
    → Covers buys (tradable sells) r
    → Covers buys sells r
Covers-sells [] sells r h = tt
Covers-sells (buy ∷ buys) sells r h =
    (CoversSells-of_tradable buy sells r h.0, Covers-sells buys sells r h.1)

Covers-of_tradable :
    (qs : List Quote) (r : Option Arbitrage) → Covers (tradable qs) (tradable qs) r → Covers qs qs r
Covers-of_tradable qs r h =
    All-of-tradable (λ buy. CoversSells buy qs r) qs (λ q n. CoversSells-one_sided q qs r n)
      (Covers-sells (tradable qs) qs r h)

Any-map : (P Q : Quote → Type 0) (qs : List Quote) → ((q : Quote) → P q → Q q) → Any P qs → Any Q qs
Any-map P Q [] f h = h
Any-map P Q (q ∷ qs) f (inl h) = inl (f q h)
Any-map P Q (q ∷ qs) f (inr h) = inr (Any-map P Q qs f h)

Reports-of_tradable :
    (qs : List Quote) (r : Option Arbitrage)
    → Reports (tradable qs) (tradable qs) r
    → Reports qs qs r
Reports-of_tradable qs none h = tt
Reports-of_tradable qs (some a) h =
    Any-map (λ buy. ReportsSell buy (tradable qs) a) (λ buy. ReportsSell buy qs a) qs
      (λ buy. Any-tradable (λ sell. IsReport buy sell a) qs)
      (Any-tradable (λ buy. ReportsSell buy (tradable qs) a) qs h)

-- Fewer than two quotes do not cross: the venues of a pair differ.
Covers-short : (qs : List Quote) → ltb (length qs) 2 ≡ true → Covers qs qs none
Covers-short [] h = tt
Covers-short (q ∷ []) h = ((λ c. absurd (c.venues refl), tt), tt)
Covers-short (q ∷ q' ∷ qs) h = absurd (ground arith)

Scans-Reports :
    (qs : List Quote) (r : Option Arbitrage)
    → Scans (Covers qs qs) (λ a. Any (λ buy. ReportsSell buy qs a) qs) none r
    → Reports qs qs r
Scans-Reports qs none s = tt
Scans-Reports qs (some a) s = elim s.origin [
  | inl p ↦ cc p
  | inr (b, p, report) ↦ subst (λ o. Reports qs qs o) (sym p) report
]

-- For every list of quotes the call returns. It finds an opportunity exactly if two quotes cross,
-- what it reports is such a pair, and no pair that crosses has a larger spread.
pub detect_arbitrage-largest :
    (e : ℕ) (quotes : List Quote)
    → (r : Option Arbitrage) × (detect_arbitrage e quotes ≡ ok r)
      × Covers quotes quotes r
      × Reports quotes quotes r
unfolding detect_arbitrage
detect_arbitrage-largest e quotes =
    let qs = tradable quotes in
    elim (Bool-cases (ltb (length qs) 2)) [
      | inl short ↦ (none, rw short, Covers-of_tradable quotes none (Covers-short qs short), tt)
      | inr long ↦
          let (r, run, s) =
            scan_buys-Scans e qs none qs (All-tradable quotes) (All-tradable quotes) in
          (
            r,
            rw long run,
            Covers-of_tradable quotes r s.covers,
            Reports-of_tradable quotes r (Scans-Reports qs r s),
          )
    ]
