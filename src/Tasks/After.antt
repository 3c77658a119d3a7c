-- ===== src/Tasks/After.antt =====
-- What holds after a step that returned, and what a step adds to the tables and counters.
use pricestream.Base.{ℕ, ◌+◌, ◌≡◌, List, [], ◌∷◌, ◌++◌, arith, length, length-append}
use pricestream.Base.Result.{Exn, Result, ok, raise}
use pricestream.Tasks.Environment.{World, Action, next_of}

-- What holds where the step returned; where R holds, it did.
abbrev pub Holds {ℓ} : {A : Type ℓ} → Type 0 → (A → World → Type 0) → Result A × World → Type 0
Holds R Q (ok a, w) = Q a w
Holds R Q (raise x, w) = ¬ R

pub record After {ℓ} {A : Type ℓ} (R : Type 0) (Q : A → World → Type 0) (r : Result A × World)
    : Type 0 where
  pub holds : Holds R Q r

raise-ok {ℓ} : {A : Type ℓ} (x : Exn) → ¬ ((a : A) × (◌≡◌ {A = Result A} (raise x) (ok a)))
raise-ok x (a, h) = cc

module _ {ℓ κ} {A : Type ℓ} {B : Type κ} where
  pub After-next :
      {R : Type 0} {Q : B → World → Type 0} {r : Result A × World} {k : A → Action B}
      → After R (λ a w. After R Q (k a w)) r
      → After R Q (next_of r k)
  unfolding next_of
  After-next {r = (ok a, w)} h = h.holds
  After-next {r = (raise x, w)} h = record { holds = h.holds }

module _ {ℓ} {A : Type ℓ} where
  pub After-ok :
      {R : Type 0} {Q : A → World → Type 0} {a : A} {w : World} → Q a w → After R Q (ok a, w)
  After-ok h = record { holds = h }

  pub After-lift :
      {R : Type 0} {Q : A → World → Type 0} {r : Result A} {w : World}
      → (R → (a : A) × (r ≡ ok a))
      → ((a : A) → Q a w)
      → After R Q (r, w)
  After-lift {r = ok a} fine h = record { holds = h a }
  After-lift {r = raise x} fine h = record { holds = λ reliable. raise-ok x (fine reliable) }

  pub After-mono :
      {R : Type 0} {Q Q' : A → World → Type 0} {r : Result A × World}
      → After R Q r
      → ((a : A) (w : World) → Q a w → Q' a w)
      → After R Q' r
  After-mono {r = (ok a, w)} h f = record { holds = f a w h.holds }
  After-mono {r = (raise x, w)} h f = record { holds = h.holds }

-- The rows of the three tables, and what the counters count.
pub record Tally : Type 0 where
  pub quotes : ℕ
  pub fetched : ℕ
  pub produced : ℕ
  pub prices : ℕ
  pub totals : ℕ
  pub opportunities : ℕ
  pub detections : ℕ

abbrev pub tally : World → Tally
tally w = record {
  quotes = length w.quotes;
  fetched = length w.quotes_fetched_total;
  produced = w.kafka_published_total + w.kafka_publish_failed_total;
  prices = length w.prices;
  totals = length w.consolidated_total;
  opportunities = length w.opportunities;
  detections = length w.arbitrage_detected_total;
}

pub record Adds (s t : Tally) (q f k p c o d : ℕ) : Type 0 where
  pub quotes : t.quotes ≡ s.quotes + q
  pub fetched : t.fetched ≡ s.fetched + f
  pub produced : t.produced ≡ s.produced + k
  pub prices : t.prices ≡ s.prices + p
  pub totals : t.totals ≡ s.totals + c
  pub opportunities : t.opportunities ≡ s.opportunities + o
  pub detections : t.detections ≡ s.detections + d

pub same : (s : Tally) → Adds s s 0 0 0 0 0 0 0
same s = grind arith

pub snoc {ℓ} : {A : Type ℓ} (xs : List A) (x : A) → length (xs ++ x ∷ []) ≡ length xs + 1
snoc xs x = length-append xs (x ∷ [])
