-- ===== src/Aggregator/Sources.antt =====
-- The venues that a consolidated price names.
use mathlib.Core.Path.{subst}
use pricestream.Base.Int.{ℤ}
use pricestream.Base.{ℕ, ◌≡◌, ◌↔◌, inl, inr, some, List, [], ◌∷◌, map, Any, IsSorted}
use pricestream.Base.Text.{Text, sorted_set}
use pricestream.Base.Sets.{Before, Has, sorted_set-IsSorted, Has-sorted_set}
use pricestream.Base.Result.{ok}
use pricestream.Clock.{Datetime}
use pricestream.Models.{Quote}
use pricestream.Aggregator.{Consolidated, candidates, consolidate}
use pricestream.Aggregator.Consolidation.{Outcome, consolidate_lem}

Any-sources :
    (s : Text) (cs : List Quote) → Has s (map (λ q. q.source) cs) ↔ Any (λ q. q.source ≡ s) cs
Any-sources s [] = ((λ h. h), (λ h. h))
Any-sources s (c ∷ cs) =
    let rest = Any-sources s cs in
    (
      (λ h. elim h [ inl e ↦ inl e | inr there ↦ inr (rest.0 there) ]),
      (λ h. elim h [ inl e ↦ inl e | inr there ↦ inr (rest.1 there) ]),
    )

-- The sources of a price that is published are in strictly ascending order, so no venue is named
-- twice, and a venue is named exactly if one of its quotes has passed the gate.
pub consolidate-sources :
    (e g : ℕ) (max_age : ℤ) (now : ℕ → Datetime) (quotes : List Quote) (p : Consolidated)
    (venue : Text)
    → consolidate e g max_age now quotes ≡ ok (some p)
    → IsSorted Before p.sources
      × (Has venue p.sources ↔ Any (λ q. q.source ≡ venue) (candidates g max_age now 0 quotes))
consolidate-sources e g max_age now quotes p venue h =
    let cs = candidates g max_age now 0 quotes in
    let (r, run, outcome) = consolidate_lem e g max_age now quotes in
    let found : r ≡ some p = cc (run, h) in
    let sources : p.sources ≡ sorted_set (map (λ q. q.source) cs) =
      (subst (Outcome cs) found outcome).1 in
    let named = Has-sorted_set venue (map (λ q. q.source) cs) in
    let venues = Any-sources venue cs in
    rw sources (
      sorted_set-IsSorted (map (λ q. q.source) cs),
      ((λ there. venues.0 (named.0 there)), (λ there. named.1 (venues.1 there))),
    )
