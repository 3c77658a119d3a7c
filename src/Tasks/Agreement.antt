-- ===== src/Tasks/Agreement.antt =====
-- Two runs that differ only in what Kafka took, and the steps that keep them so.
use mathlib.Core.Path.{subst}
use pricestream.Base.{ℕ, ◌+◌, ◌≡◌, refl, sym, ◌∙◌, ap, []}
use pricestream.Base.Result.{Exn, Result, ok, raise, ok-injective}
use pricestream.Tasks.Environment.{World, Action, next_of}

-- The world without what Kafka took and its two counters.
abbrev pub quiet : World → World
quiet w = record w { kafka_published_total = 0; kafka_publish_failed_total = 0; published = [] }

abbrev pub Same : World → World → Type 0
Same w w' = quiet w ≡ quiet w'

-- Two runs of a step end alike: with the same value or exception, and up to what Kafka took in
-- the same world.
pub record Agree {ℓ} {A : Type ℓ} (r r' : Result A × World) : Type ℓ where
  pub result : r.0 ≡ r'.0
  pub worlds : Same r.1 r'.1

abbrev pub later : World → World
later v = record v { time = v.time + 1 }

module _ {ℓ} {A : Type ℓ} where
  ok-raise : (a : A) (x : Exn) → ok a ≡ raise x → ⊥
  ok-raise a x h = cc

  raise-injective : (x x' : Exn) → ◌≡◌ {A = Result A} (raise x) (raise x') → x ≡ x'
  raise-injective x x' h = cc

  pub Agree-lift : (r : Result A) {w w' : World} → Same w w' → Agree (r, w) (r, w')
  Agree-lift r h = record { result = refl; worlds = h }

  pub Agree-call :
      (f : ℕ → Result A) {w w' : World}
      → Same w w'
      → Agree
          (f w.time, record w { time = w.time + 1 })
          (f w'.time, record w' { time = w'.time + 1 })
  Agree-call f h = record { result = ap (λ v. f v.time) h; worlds = ap later h }

-- A write that does not look at what Kafka took.
pub Agree-write :
    (f : World → World) (w w' : World)
    → ((v : World) → quiet (f v) ≡ quiet (f (quiet v)))
    → Same w w'
    → Agree {A = Unit {0}} (ok tt, f w) (ok tt, f w')
Agree-write f w w' blind h = record {
  result = refl;
  worlds = blind w ∙ ap (λ v. quiet (f v)) h ∙ sym (blind w');
}

module _ {ℓ κ} {A : Type ℓ} {B : Type κ} where
  pub Agree-next :
      {r r' : Result A × World} {k k' : A → Action B}
      → Agree r r'
      → ((a : A) (w w' : World) → Same w w' → Agree (k a w) (k' a w'))
      → Agree (next_of r k) (next_of r' k')
  unfolding next_of
  Agree-next {r = (ok a, w)} {r' = (ok a', w')} {k} {k'} h f =
      subst (λ b. Agree (k a w) (k' b w')) (ok-injective a a' h.result) (f a w w' h.worlds)
  Agree-next {r = (ok a, w)} {r' = (raise x, w')} h f = absurd (ok-raise a x h.result)
  Agree-next {r = (raise x, w)} {r' = (ok a', w')} h f = absurd (ok-raise a' x (sym h.result))
  Agree-next {r = (raise x, w)} {r' = (raise x', w')} h f = record {
    result = ap raise (raise-injective {A = A} x x' h.result);
    worlds = h.worlds;
  }
