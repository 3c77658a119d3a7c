-- ===== src/Aggregator/Gate.antt =====
-- The staleness gate of `consolidate`.
use pricestream.Base.{
  ℕ, ◌+◌, ◌*◌, ◌^◌, ◌<◌, ◌≡◌, inl, inr, Bool, true, ◌&&◌, if◌then◌else◌, Bool-cases, List, [], ◌∷◌,
  arith, All, Any,
}
use pricestream.Base.Int.{ℤ, pos, ◌-ℤ◌, ◌≤ℤ◌}
use pricestream.Clock.{Datetime, instant}
use pricestream.Clock.Seconds.{float_le_int-total_seconds}
use pricestream.Models.{Quote}
use pricestream.Aggregator.{is_fresh, two_sided, candidates}
use pricestream.Aggregator.Spec.{IsTwoSided}

-- At this instant the quote is at most so many seconds old, to the microsecond.
abbrev pub IsRecent : ℕ → Datetime → Quote → Type 0
IsRecent max_age t q = instant t -ℤ instant q.timestamp ≤ℤ pos (max_age * 1_000_000)

-- The float comparison decides the age exactly.
pub is_fresh_sound :
    (g max_age : ℕ) (t : Datetime) (q : Quote)
    → max_age < 2 ^ 33
    → is_fresh (g + 20) (pos max_age) t q ≡ true
    → IsRecent max_age t q
unfolding is_fresh
is_fresh_sound g max_age t q h =
    (float_le_int-total_seconds g max_age (instant t -ℤ instant q.timestamp) h).0

pub is_fresh_complete :
    (g max_age : ℕ) (t : Datetime) (q : Quote)
    → max_age < 2 ^ 33
    → IsRecent max_age t q
    → is_fresh (g + 20) (pos max_age) t q ≡ true
unfolding is_fresh
is_fresh_complete g max_age t q h =
    (float_le_int-total_seconds g max_age (instant t -ℤ instant q.timestamp) h).1

module _ (g : ℕ) (max_age : ℤ) (now : ℕ → Datetime) where
  -- What holds of all quotes holds of those that pass.
  pub All-candidates :
      (P : Quote → Type 0) (i : ℕ) (qs : List Quote)
      → All P qs
      → All P (candidates g max_age now i qs)
  unfolding candidates
  All-candidates P i [] h = tt
  All-candidates P i (q ∷ qs) h =
      let j = if two_sided q then i + 1 else i in
      elim (Bool-cases (two_sided q && is_fresh g max_age (now i) q)) [
        | inl kept ↦ rw kept (h.0, All-candidates P j qs h.1)
        | inr dropped ↦ rw dropped (All-candidates P j qs h.1)
      ]

and_true : (a b : Bool) → (a && b) ≡ true → (a ≡ true) × (b ≡ true)
and_true a b h = ground arith

-- Two positive sides, and recent at some reading of the clock.
abbrev pub Passes : ℕ → (ℕ → Datetime) → Quote → Type 0
Passes max_age now q = IsTwoSided q × ((i : ℕ) × IsRecent max_age (now i) q)

-- Recent at every reading of the clock.
abbrev pub IsAlwaysRecent : ℕ → (ℕ → Datetime) → Quote → Type 0
IsAlwaysRecent max_age now q = (i : ℕ) → IsRecent max_age (now i) q

module _ (g max_age : ℕ) (small : max_age < 2 ^ 33) (now : ℕ → Datetime) where
  two_sided-IsTwoSided : (q : Quote) → two_sided q ≡ true → IsTwoSided q
  two_sided-IsTwoSided q h = ground arith

  -- For a `max_age` of 0 or more and below 2 ^ 33 seconds and whatever the clock reads, each quote that passes has two
  -- positive sides, and at some reading of the clock it was at most `max_age` seconds old, to the
  -- microsecond.
  pub candidates_sound :
      (i : ℕ) (qs : List Quote)
      → All (Passes max_age now) (candidates (g + 20) (pos max_age) now i qs)
  unfolding candidates
  candidates_sound i [] = tt
  candidates_sound i (q ∷ qs) =
      let j = if two_sided q then i + 1 else i in
      elim (Bool-cases (two_sided q && is_fresh (g + 20) (pos max_age) (now i) q)) [
        | inr dropped ↦ rw dropped (candidates_sound j qs)
        | inl kept ↦
            let (sides, fresh) = and_true (two_sided q) _ kept in
            rw kept (
              (two_sided-IsTwoSided q sides, (i, is_fresh_sound g max_age (now i) q small fresh)),
              candidates_sound j qs,
            )
      ]

  -- For a `max_age` of 0 or more and below 2 ^ 33 seconds a quote with two positive sides that is recent at every
  -- reading of the clock is not dropped: what can be said of it can be said of a candidate.
  pub candidates_complete :
      (P : Quote → Type 0) (i : ℕ) (qs : List Quote)
      → Any (λ q. P q × IsTwoSided q × IsAlwaysRecent max_age now q) qs
      → Any P (candidates (g + 20) (pos max_age) now i qs)
  unfolding candidates
  candidates_complete P i [] h = h
  candidates_complete P i (q ∷ qs) (inl (p, sides, recent)) =
      let sided : two_sided q ≡ true = ground (arith, sides.bid, sides.ask) in
      let fresh : is_fresh (g + 20) (pos max_age) (now i) q ≡ true =
        is_fresh_complete g max_age (now i) q small (recent i) in
      rw (sided, fresh) (inl p)
  candidates_complete P i (q ∷ qs) (inr h) =
      let rest = candidates_complete P (if two_sided q then i + 1 else i) qs h in
      elim (Bool-cases (two_sided q && is_fresh (g + 20) (pos max_age) (now i) q)) [
        | inl kept ↦ rw kept (inr rest)
        | inr dropped ↦ rw dropped rest
      ]
