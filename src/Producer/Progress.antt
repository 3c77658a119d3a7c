-- ===== src/Producer/Progress.antt =====
-- Every call of `_get_producer` can still come to its end.
use mathlib.Core.Path.{subst}
use pricestream.Base.{
  ℕ, ◌≡◌, ◌≢◌, refl, ◌∙◌, ap, ◌⊎◌, inl, inr, Option-cases, Option, none, some, ◌==◌, Bool-cases,
  ==_iff,
}
use pricestream.Producer.{
  Shared, Pc, start, waiting, holding, making, made, leaving, failing, reading, returned, failed,
  Move, seen, unseen, enter, seen_inside, unseen_inside, construct, store, leave, abort, read,
  update, System, pick, Reach, later,
}
use pricestream.Producer.Invariant.{Inside, Reach-Inv}

-- A call that has returned or failed.
abbrev pub IsDone : Pc → Type 0
IsDone p = ((o : Option ℕ) × (p ≡ returned o)) ⊎ (p ≡ failed)

-- Steps of the threads i and j only.
pub data Leads (i j : ℕ) : System → System → Type 0 where
  arrived : {s : System} → Leads i j s s
  moving :
      {s u : System} {k : ℕ} {m : Shared} {p : Pc}
      → (k ≡ i) ⊎ (k ≡ j)
      → Move k s.shared (s.pc k) m p
      → Leads i j (record { shared = m; pc = update s.pc k p }) u
      → Leads i j s u

joined : {i j : ℕ} {s t u : System} → Leads i j s t → Leads i j t u → Leads i j s u
joined arrived b = b
joined (moving k move a) b = moving k move (joined a b)

update_here : (pc : ℕ → Pc) (k : ℕ) (p : Pc) → update pc k p k ≡ p
update_here pc k p = rw ((==_iff k k).1 refl)

update_apart : (pc : ℕ → Pc) (k l : ℕ) (p : Pc) → k ≢ l → update pc k p l ≡ pc l
update_apart pc k l p apart = elim (Bool-cases (k == l)) [
  | inl same ↦ absurd (apart ((==_iff k l).0 same))
  | inr other ↦ rw other
]

-- Where thread k, being inside, comes to have given the lock back; no other thread has moved.
abbrev Left : ℕ → ℕ → ℕ → System → Type 0
Left i j k s =
    (t : System) × Leads i j s t
    × (t.shared.lock ≡ none)
    × ((t.pc k ≡ reading) ⊎ (t.pc k ≡ failed))
    × ((l : ℕ) → k ≢ l → t.pc l ≡ s.pc l)

module _ (i j k : ℕ) (mover : (k ≡ i) ⊎ (k ≡ j)) where
  -- One step more in front.
  stepped :
      (s : System) (q p : Pc) (m : Shared)
      → s.pc k ≡ q
      → Move k s.shared q m p
      → Left i j k (record { shared = m; pc = update s.pc k p })
      → Left i j k s
  stepped s q p m at_q move (t, leads, free, out, others) = (
    t,
    moving mover (rw at_q move) leads,
    free,
    out,
    λ l apart. others l apart ∙ update_apart s.pc k l p apart,
  )

  Left-leaving : (s : System) → s.pc k ≡ leaving → Left i j k s
  Left-leaving s at_q =
      stepped s leaving reading _ at_q leave
        (_, arrived, refl, inl (update_here s.pc k reading), λ l apart. refl)

  Left-failing : (s : System) → s.pc k ≡ failing → Left i j k s
  Left-failing s at_q =
      stepped s failing failed _ at_q abort
        (_, arrived, refl, inr (update_here s.pc k failed), λ l apart. refl)

  Left-made : (s : System) (n : ℕ) → s.pc k ≡ made n → Left i j k s
  Left-made s n at_q =
      stepped s (made n) leaving _ at_q store (Left-leaving _ (update_here s.pc k leaving))

  Left-making : (s : System) → s.pc k ≡ making → Left i j k s
  Left-making s at_q =
      stepped s making (made s.shared.constructed) _ at_q construct
        (Left-made _ s.shared.constructed (update_here s.pc k _))

  Left-holding : (s : System) → s.pc k ≡ holding → Left i j k s
  Left-holding s at_q = elim (Option-cases s.shared.producer) [
    | inl e ↦
        stepped s holding making s.shared at_q (unseen_inside e)
          (Left-making _ (update_here s.pc k making))
    | inr (p, e) ↦
        stepped s holding leaving s.shared at_q (seen_inside e)
          (Left-leaving _ (update_here s.pc k leaving))
  ]

  -- Who is inside can leave, by steps of its own.
  Inside-leaves : (s : System) (q : Pc) → s.pc k ≡ q → Inside q → Left i j k s
  Inside-leaves s holding e h = Left-holding s e
  Inside-leaves s making e h = Left-making s e
  Inside-leaves s (made n) e h = Left-made s n e
  Inside-leaves s leaving e h = Left-leaving s e
  Inside-leaves s failing e h = Left-failing s e
  Inside-leaves s start e h = elim h [ ]
  Inside-leaves s waiting e h = elim h [ ]
  Inside-leaves s reading e h = elim h [ ]
  Inside-leaves s (returned o) e h = elim h [ ]
  Inside-leaves s failed e h = elim h [ ]

-- Thread i can end by steps of its own and of thread j.
abbrev Ends : ℕ → ℕ → System → Type 0
Ends i j s = (t : System) × Leads i j s t × IsDone (t.pc i)

module _ (i j : ℕ) where
  Ends-after : (s : System) (t : System) → Leads i j s t → Ends i j t → Ends i j s
  Ends-after s t leads (u, more, done) = (u, joined leads more, done)

  Ends-step :
      (s : System) (q p : Pc) (m : Shared)
      → s.pc i ≡ q
      → Move i s.shared q m p
      → Ends i j (record { shared = m; pc = update s.pc i p })
      → Ends i j s
  Ends-step s q p m at_q move (u, more, done) = (u, moving (inl refl) (rw at_q move) more, done)

  Ends-reading : (s : System) → s.pc i ≡ reading → Ends i j s
  Ends-reading s at_q =
      Ends-step s reading (returned s.shared.producer) s.shared at_q read
        (_, arrived, inl (s.shared.producer, update_here s.pc i _))

  Ends-Inside : (s : System) → Inside (s.pc i) → Ends i j s
  Ends-Inside s inside =
      let (t, leads, free, out, others) = Inside-leaves i j i (inl refl) s (s.pc i) refl inside in
      Ends-after s t leads
        (elim out [ inl at_q ↦ Ends-reading t at_q | inr at_q ↦ (t, arrived, inr at_q) ])

  Ends-free : (s : System) → s.pc i ≡ waiting → s.shared.lock ≡ none → Ends i j s
  Ends-free s at_q free =
      Ends-step s waiting holding _ at_q (enter free)
        (Ends-Inside _ (rw (update_here s.pc i holding) tt))

-- A call that waits can end: who holds the lock is inside and can give it back.
Ends-waiting :
    (i j : ℕ) (s : System)
    → s.pc i ≡ waiting
    → s.shared.lock ≡ some j
    → Inside (s.pc j)
    → Ends i j s
Ends-waiting i j s at_q held inside =
    let (t, leads, free, out, others) = Inside-leaves i j j (inr refl) s (s.pc j) refl inside in
    let apart : j ≢ i = λ e. elim (subst Inside (ap s.pc e ∙ at_q) inside) [ ] in
    Ends-after i j s t leads (Ends-free i j t (others i apart ∙ at_q) free)

-- The threads of its way to the end: its own, and the holder's of the lock.
abbrev pub IsHolder : System → ℕ → Type 0
IsHolder s j = s.shared.lock ≡ some j

Ends-queue :
    (i : ℕ) (s : System)
    → ((j : ℕ) → s.shared.lock ≡ some j → Inside (s.pc j))
    → s.pc i ≡ waiting
    → (j : ℕ) × (IsHolder s j ⊎ (j ≡ i)) × Ends i j s
Ends-queue i s held at_q = elim (Option-cases s.shared.lock) [
  | inl free ↦ (i, inr refl, Ends-free i i s at_q free)
  | inr (j, e) ↦ (j, inl e, Ends-waiting i j s at_q e (held j e))
]

Ends-start :
    (i : ℕ) (s : System)
    → Reach s
    → s.pc i ≡ start
    → (j : ℕ) × (IsHolder s j ⊎ (j ≡ i)) × Ends i j s
Ends-start i s r at_q = elim (Option-cases s.shared.producer) [
  | inl e ↦
      let move : Move i s.shared (s.pc i) s.shared waiting = rw at_q (unseen e) in
      let s' : System = record { shared = s.shared; pc = update s.pc i waiting } in
      let (j, whose, ends) =
        Ends-queue i s' (Reach-Inv (later r (pick i move))).held (update_here s.pc i waiting) in
      (j, whose, Ends-step i j s start waiting s.shared at_q (unseen e) ends)
  | inr (p, e) ↦ (
    i,
    inr refl,
    Ends-step i i s start reading s.shared at_q (seen e)
        (Ends-reading i i _ (update_here s.pc i reading)),
  )
]

-- Every call can come to its end from every state that any number of threads reach: at most one
-- other thread has to go on for it, the one that then holds the lock. Some steps of thread i and of
-- this thread lead to a state in which the call of thread i has returned or failed.
pub get_producer_progress :
    (s : System)
    → Reach s
    → (i : ℕ) → (j : ℕ) × (IsHolder s j ⊎ (j ≡ i)) × (t : System) × Leads i j s t × IsDone (t.pc i)
get_producer_progress s r i =
    let (j, whose, (t, leads, done)) = go (s.pc i) refl in (j, whose, t, leads, done)
  where
    inside : (q : Pc) → s.pc i ≡ q → Inside q → (j : ℕ) × (IsHolder s j ⊎ (j ≡ i)) × Ends i j s
    inside q at_q h = (i, inr refl, Ends-Inside i i s (rw at_q h))

    go : (q : Pc) → s.pc i ≡ q → (j : ℕ) × (IsHolder s j ⊎ (j ≡ i)) × Ends i j s
    go start at_q = Ends-start i s r at_q
    go waiting at_q = Ends-queue i s (Reach-Inv r).held at_q
    go holding at_q = inside holding at_q tt
    go making at_q = inside making at_q tt
    go (made p) at_q = inside (made p) at_q tt
    go leaving at_q = inside leaving at_q tt
    go failing at_q = inside failing at_q tt
    go reading at_q = (i, inr refl, Ends-reading i i s at_q)
    go (returned o) at_q = (i, inr refl, (s, arrived, inl (o, at_q)))
    go failed at_q = (i, inr refl, (s, arrived, inr at_q))
