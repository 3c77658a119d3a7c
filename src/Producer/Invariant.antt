-- ===== src/Producer/Invariant.antt =====
-- Under every interleaving there is one producer at most, and every call that returns gives it.
use mathlib.Core.Option.{some-injective}
use pricestream.Base.{
  ℕ, ◌+◌, ◌≡◌, ◌≢◌, refl, sym, ◌∙◌, ap, ◌⊎◌, inl, inr, Bool-cases, ==_iff, none, some, arith, ◌==◌,
}
use pricestream.Producer.{
  Shared, Pc, start, waiting, holding, making, made, leaving, failing, reading, returned, failed,
  Move, seen, unseen, enter, seen_inside, unseen_inside, construct, reject, store, leave, abort,
  read, update, System, pick, Reach, first, later,
}

-- What thread i knows at each place.
abbrev pub Knows : Shared → ℕ → Pc → Type 0
Knows m i start = Unit
Knows m i waiting = Unit
Knows m i holding = m.lock ≡ some i
Knows m i making = (m.lock ≡ some i) × (m.producer ≡ none)
Knows m i (made p) = (m.lock ≡ some i) × (m.producer ≡ none) × (p ≡ 0) × (m.constructed ≡ 1)
Knows m i leaving = (m.lock ≡ some i) × (m.producer ≡ some 0)
Knows m i failing = m.lock ≡ some i
Knows m i reading = m.producer ≡ some 0
Knows m i (returned p) = (m.producer ≡ some 0) × (p ≡ some 0)
Knows m i failed = Unit

-- The producer is stored, or there is none yet, or its thread is about to store it.
abbrev pub Counted : Shared → (ℕ → Pc) → Type 0
Counted m pc =
    ((m.producer ≡ some 0) × (m.constructed ≡ 1))
    ⊎ ((m.producer ≡ none) × (m.constructed ≡ 0))
    ⊎ ((j : ℕ) × (pc j ≡ made 0))

-- The thread is between taking the lock and giving it back.
abbrev pub Inside : Pc → Type 0
Inside holding = Unit
Inside making = Unit
Inside (made p) = Unit
Inside leaving = Unit
Inside failing = Unit
Inside _ = ⊥

pub record Inv (m : Shared) (pc : ℕ → Pc) : Type 0 where
  pub knows : (i : ℕ) → Knows m i (pc i)
  pub counted : Counted m pc
  pub held : (i : ℕ) → m.lock ≡ some i → Inside (pc i)

-- A thread that knows of the lock holds it, so no other one does.
others_enter :
    (m : Shared) (i j : ℕ) (q : Pc)
    → m.lock ≡ none
    → Knows m j q
    → Knows (record m { lock = some i }) j q
others_enter m i j start h k = tt
others_enter m i j q h k = ground arith

others_exit :
    (m : Shared) (i j : ℕ) (q : Pc)
    → i ≢ j
    → m.lock ≡ some i
    → Knows m j q
    → Knows (record m { lock = none }) j q
others_exit m i j start other h k = tt
others_exit m i j q other h k = ground arith

others_construct :
    (m : Shared) (i j n : ℕ) (q : Pc)
    → i ≢ j
    → m.lock ≡ some i
    → Knows m j q
    → Knows (record m { constructed = n }) j q
others_construct m i j n start other h k = tt
others_construct m i j n q other h k = ground arith

others_store :
    (m : Shared) (i j : ℕ) (q : Pc)
    → i ≢ j
    → m.lock ≡ some i
    → m.producer ≡ none
    → Knows m j q
    → Knows (record m { producer = some 0 }) j q
others_store m i j start other h none_yet k = tt
others_store m i j q other h none_yet k = ground arith

-- Two threads that hold the lock are one.
owner : (m : Shared) (i j : ℕ) → m.lock ≡ some i → m.lock ≡ some j → i ≡ j
owner m i j h k = cc

-- At the call of `Producer` none was constructed: who has constructed one holds the lock.
none_constructed : (m : Shared) (pc : ℕ → Pc) (i : ℕ) → Inv m pc → pc i ≡ making → m.constructed ≡ 0
none_constructed m pc i inv here = elim inv.counted [
  | inl (stored, one) ↦ let mine = rw here at (inv.knows i) in absurd (cc (stored, mine.1))
  | inr (inl (empty, zero)) ↦ zero
  | inr (inr (j, there)) ↦
      let mine = rw here at (inv.knows i) in
      let its = rw there at (inv.knows j) in let same = owner m i j mine.0 its.0 in cc
]

module _ (pc : ℕ → Pc) (i : ℕ) where
  -- The thread that moved, and the others.
  update-Knows :
      (m' : Shared) (p' : Pc)
      → Knows m' i p'
      → ((j : ℕ) → i ≢ j → Knows m' j (pc j))
      → (j : ℕ) → Knows m' j (update pc i p' j)
  update-Knows m' p' own rest j = elim (Bool-cases (i == j)) [
    | inl same ↦ rw (same, ← (==_iff i j).0 same) own
    | inr other ↦ rw other (rest j (ground arith))
  ]

  -- A thread that was not storing leaves the count as it is.
  update-Counted :
      (m m' : Shared) (p p' : Pc)
      → pc i ≡ p
      → p ≢ made 0
      → m'.producer ≡ m.producer
      → m'.constructed ≡ m.constructed
      → Counted m pc
      → Counted m' (update pc i p')
  update-Counted m m' p p' here quiet same same' (inl (stored, one)) = inl (cc, cc)
  update-Counted m m' p p' here quiet same same' (inr (inl (empty, zero))) = inr (inl (cc, cc))
  update-Counted m m' p p' here quiet same same' (inr (inr (j, there))) =
      elim (Bool-cases (i == j)) [
        | inl e ↦ absurd (quiet (sym here ∙ ap pc ((==_iff i j).0 e) ∙ there))
        | inr e ↦ inr (inr (j, rw e there))
      ]

  -- Who holds the lock is inside, where the lock stays as it is.
  update-held :
      (m m' : Shared) (p p' : Pc)
      → pc i ≡ p
      → m'.lock ≡ m.lock
      → (Inside p → Inside p')
      → ((j : ℕ) → m.lock ≡ some j → Inside (pc j))
      → (j : ℕ) → m'.lock ≡ some j
      → Inside (update pc i p' j)
  update-held m m' p p' here same stays held j h = elim (Bool-cases (i == j)) [
    | inl e ↦
        let mine : Inside (pc i) = rw ((==_iff i j).0 e) (held j (sym same ∙ h)) in
        rw e (stays (rw here at mine))
    | inr e ↦ rw e (held j (sym same ∙ h))
  ]

  -- A step that changes neither the producer nor the count.
  step-Inv :
      (m m' : Shared) (p p' : Pc)
      → pc i ≡ p
      → p ≢ made 0
      → m'.producer ≡ m.producer
      → m'.constructed ≡ m.constructed
      → Knows m' i p'
      → ((j : ℕ) (q : Pc) → i ≢ j → Knows m j q → Knows m' j q)
      → ((j : ℕ) → m'.lock ≡ some j → Inside (update pc i p' j))
      → Inv m pc
      → Inv m' (update pc i p')
  step-Inv m m' p p' here quiet same same' own rest held inv = record {
    knows = update-Knows m' p' own (λ j other. rest j (pc j) other (inv.knows j));
    counted = update-Counted m m' p p' here quiet same same' inv.counted;
    held = held;
  }

held_by_enter : (pc : ℕ → Pc) (i j : ℕ) → i ≡ j → Inside (update pc i holding j)
held_by_enter pc i j e = rw ((==_iff i j).1 e) tt

-- What is stored is the first producer.
stored_first :
    (m : Shared) (pc : ℕ → Pc) (p : ℕ) → Inv m pc → m.producer ≡ some p → m.producer ≡ some 0
stored_first m pc p inv h = elim inv.counted [
  | inl (stored, one) ↦ stored
  | inr (inl (empty, zero)) ↦ cc
  | inr (inr (j, there)) ↦ let its = rw there at (inv.knows j) in cc (h, its.1)
]

Move-Inv :
    {i : ℕ} {m m' : Shared} {p p' : Pc} (pc : ℕ → Pc)
    → Move i m p m' p'
    → pc i ≡ p
    → Inv m pc
    → Inv m' (update pc i p')
Move-Inv {i} {m} pc (seen {p} h) here inv =
    step-Inv pc i m m start reading here (λ e. cc) refl refl (stored_first m pc p inv h)
      (λ j q other k. k) (update-held pc i m m start reading here refl (λ h. h) inv.held) inv
Move-Inv {i} {m} pc (unseen h) here inv =
    step-Inv pc i m m start waiting here (λ e. cc) refl refl tt (λ j q other k. k)
      (update-held pc i m m start waiting here refl (λ h. h) inv.held) inv
Move-Inv {i} {m} pc (enter h) here inv =
    step-Inv pc i m (record m { lock = some i }) waiting holding here (λ e. cc) refl refl refl
      (λ j q other k. others_enter m i j q h k) (λ j e. held_by_enter pc i j (some-injective i j e))
      inv
Move-Inv {i} {m} pc (seen_inside {p} h) here inv =
    step-Inv pc i m m holding leaving here (λ e. cc) refl refl
      (rw here at (inv.knows i), stored_first m pc p inv h) (λ j q other k. k)
      (update-held pc i m m holding leaving here refl (λ h. h) inv.held) inv
Move-Inv {i} {m} pc (unseen_inside h) here inv =
    step-Inv pc i m m holding making here (λ e. cc) refl refl (rw here at (inv.knows i), h)
      (λ j q other k. k) (update-held pc i m m holding making here refl (λ h. h) inv.held) inv
Move-Inv {i} {m} pc construct here inv =
    let zero = none_constructed m pc i inv here in
    let mine = rw here at (inv.knows i) in
    let m' : Shared = record m { constructed = m.constructed + 1 } in
    record {
      knows =
          update-Knows pc i m' (made m.constructed) (mine.0, mine.1, zero, omega arith)
            (λ j other.
              others_construct m i j (m.constructed + 1) (pc j) other mine.0 (inv.knows j));
      counted = inr (inr (i, rw ((==_iff i i).1 refl, zero)));
      held = update-held pc i m m' making (made m.constructed) here refl (λ h. h) inv.held;
    }
Move-Inv {i} {m} pc reject here inv =
    step-Inv pc i m m making failing here (λ e. cc) refl refl (rw here at (inv.knows i)).0
      (λ j q other k. k) (update-held pc i m m making failing here refl (λ h. h) inv.held) inv
Move-Inv {i} {m} pc (store {p}) here inv =
    let mine = rw here at (inv.knows i) in
    rw mine.2 (record {
      knows =
          update-Knows pc i (record m { producer = some 0 }) leaving (mine.0, refl)
            (λ j other. others_store m i j (pc j) other mine.0 mine.1 (inv.knows j));
      counted = inl (refl, mine.3);
      held =
          update-held pc i m (record m { producer = some 0 }) (made 0) leaving
            (here ∙ ap made mine.2) refl (λ h. h) inv.held;
    })
Move-Inv {i} {m} pc leave here inv =
    let mine = rw here at (inv.knows i) in
    step-Inv pc i m (record m { lock = none }) leaving reading here (λ e. cc) refl refl mine.1
      (λ j q other k. others_exit m i j q other mine.0 k) (λ j e. cc) inv
Move-Inv {i} {m} pc abort here inv =
    let mine = rw here at (inv.knows i) in
    step-Inv pc i m (record m { lock = none }) failing failed here (λ e. cc) refl refl tt
      (λ j q other k. others_exit m i j q other mine k) (λ j e. cc) inv
Move-Inv {i} {m} pc read here inv =
    let mine = rw here at (inv.knows i) in
    step-Inv pc i m m reading (returned m.producer) here (λ e. cc) refl refl (mine, mine)
      (λ j q other k. k)
      (update-held pc i m m reading (returned m.producer) here refl (λ h. h) inv.held) inv

pub Reach-Inv : {s : System} → Reach s → Inv s.shared s.pc
Reach-Inv first = record { knows = λ i. tt; counted = inr (inl (refl, refl)); held = λ i h. cc }
Reach-Inv (later {s} r (pick i move)) = Move-Inv s.pc move refl (Reach-Inv r)
