-- ===== src/Aggregator/Scan.antt =====
-- The two loops of `detect_arbitrage` go through all pairs.
use pricestream.Base.{ℕ, ◌≡◌, refl, ◌∙◌, inl, inr, Option, List, [], ◌∷◌, All, Any}
use pricestream.Base.Result.{ok}
use pricestream.Decimal.{Decimal, sub}
use pricestream.Models.{Quote}
use pricestream.Aggregator.{Arbitrage, scan_sells, scan_buys}
use pricestream.Aggregator.Spec.{IsTwoSided, Reaches, CoversSells, Covers, ReportsSell}
use pricestream.Aggregator.Turn.{Scans, consider-Scans}

CoversSells-keeps :
    (buy : Quote) (sells : List Quote) (r r' : Option Arbitrage)
    → ((s : Decimal) → Reaches s r → Reaches s r')
    → CoversSells buy sells r
    → CoversSells buy sells r'
CoversSells-keeps buy [] r r' keep h = tt
CoversSells-keeps buy (sell ∷ sells) r r' keep h =
    (λ c. keep (sub sell.bid buy.ask) (h.0 c), CoversSells-keeps buy sells r r' keep h.1)

-- The inner loop returns, and has gone through all sells.
pub scan_sells-Scans :
    (e : ℕ) (buy : Quote) (best : Option Arbitrage) (sells : List Quote)
    → IsTwoSided buy
    → All IsTwoSided sells
    → (r : Option Arbitrage) × (scan_sells e buy best sells ≡ ok r)
      × Scans (CoversSells buy sells) (ReportsSell buy sells) best r
unfolding scan_sells
scan_sells-Scans e buy best [] tb ts =
    (best, refl, record { keeps = λ s h. h; covers = tt; origin = inl refl })
scan_sells-Scans e buy best (sell ∷ sells) tb ts =
    let (b, step, first) = consider-Scans e buy sell best tb ts.0 in
    let (r, run, rest) = scan_sells-Scans e buy b sells tb ts.1 in
    (
      r,
      rw step run,
      record {
        keeps = λ s h. rest.keeps s (first.keeps s h);
        covers = (λ c. rest.keeps (sub sell.bid buy.ask) (first.covers c), rest.covers);
        origin = elim rest.origin [
          | inr (a, new, report) ↦ inr (a, new, inr report)
          | inl old ↦ elim first.origin [
            | inl older ↦ inl (old ∙ older)
            | inr (a, new, report) ↦ inr (a, old ∙ new, inl report)
          ]
        ];
      },
    )

Covers-keeps :
    (buys sells : List Quote) (r r' : Option Arbitrage)
    → ((s : Decimal) → Reaches s r → Reaches s r')
    → Covers buys sells r
    → Covers buys sells r'
Covers-keeps [] sells r r' keep h = tt
Covers-keeps (buy ∷ buys) sells r r' keep h =
    (CoversSells-keeps buy sells r r' keep h.0, Covers-keeps buys sells r r' keep h.1)

-- The outer loop returns, and has gone through all pairs.
pub scan_buys-Scans :
    (e : ℕ) (qs : List Quote) (best : Option Arbitrage) (buys : List Quote)
    → All IsTwoSided qs
    → All IsTwoSided buys
    → (r : Option Arbitrage) × (scan_buys e qs best buys ≡ ok r)
      × Scans (Covers buys qs) (λ a. Any (λ buy. ReportsSell buy qs a) buys) best r
unfolding scan_buys
scan_buys-Scans e qs best [] ts tb =
    (best, refl, record { keeps = λ s h. h; covers = tt; origin = inl refl })
scan_buys-Scans e qs best (buy ∷ buys) ts tb =
    let (b, step, first) = scan_sells-Scans e buy best qs tb.0 ts in
    let (r, run, rest) = scan_buys-Scans e qs b buys ts tb.1 in
    (
      r,
      rw step run,
      record {
        keeps = λ s h. rest.keeps s (first.keeps s h);
        covers = (CoversSells-keeps buy qs b r rest.keeps first.covers, rest.covers);
        origin = elim rest.origin [
          | inr (a, new, report) ↦ inr (a, new, inr report)
          | inl old ↦ elim first.origin [
            | inl older ↦ inl (old ∙ older)
            | inr (a, new, report) ↦ inr (a, old ∙ new, inl report)
          ]
        ];
      },
    )
