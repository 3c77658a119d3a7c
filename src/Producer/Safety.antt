-- ===== src/Producer/Safety.antt =====
-- What every interleaving of `_get_producer` keeps to.
use pricestream.Base.{ℕ, ◌≤◌, ◌≡◌, inl, inr, Option, some, arith}
use pricestream.Producer.{returned, System, Reach}
use pricestream.Producer.Invariant.{Inv, Reach-Inv}

-- In every state that any number of threads reach, in any order of their steps and whether or not a
-- construction raises, at most one producer has been constructed, and each call that has returned
-- gave that one.
pub get_producer-single :
    (s : System)
    → Reach s
    → (s.shared.constructed ≤ 1) × ((i : ℕ) (o : Option ℕ) → s.pc i ≡ returned o → o ≡ some 0)
get_producer-single s r =
    let inv = Reach-Inv r in (count s inv, λ i o here. (rw here at (inv.knows i)).1)
  where
    count : (s : System) → Inv s.shared s.pc → s.shared.constructed ≤ 1
    count s inv = elim inv.counted [
      | inl (stored, one) ↦ omega (arith, one)
      | inr (inl (empty, zero)) ↦ omega (arith, zero)
      | inr (inr (j, there)) ↦ let its = rw there at (inv.knows j) in omega (arith, its.3)
    ]
