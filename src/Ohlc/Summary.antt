-- ===== src/Ohlc/Summary.antt =====
-- What a bar says of the prices that it was built from, with no reference to how.
use pricestream.Base.{
  ℕ, ◌+◌, ◌≡◌, refl, ◌⊎◌, inl, inr, Option, none, some, if◌then◌else◌, Bool-cases, List, [], ◌∷◌,
  ◌++◌, arith, length, length-append, All, Any,
}
use pricestream.Base.Int.{pos, ◌≤ℤ◌, ltb_ℤ}
use pricestream.Base.Result.{Result, ok}
use pricestream.Decimal.{Decimal}
use pricestream.Clock.{Datetime}
use pricestream.Models.{Interval, OhlcBar}
use pricestream.Ohlc.{new_bar, tick}

-- What is relied on of a `DecimalField`: it rounds, so that it keeps the order, and what it gave
-- once it gives again.
pub record IsColumn (column : Decimal → Result Decimal) : Type 0 where
  pub mono : (a b a' b' : Decimal) → column a ≡ ok a' → column b ≡ ok b' → a ≤ℤ b → a' ≤ℤ b'
  pub stable : (a a' : Decimal) → column a ≡ ok a' → column a' ≡ ok a'

abbrev pub first : List Decimal → Option Decimal
first [] = none
first (p ∷ ps) = some p

abbrev pub last : List Decimal → Option Decimal
last [] = none
last (p ∷ []) = some p
last (p ∷ q ∷ ps) = last (q ∷ ps)

-- Open, high, low, close and count of the prices, in the order of their arrival.
pub record IsSummary (prices : List Decimal) (bar : OhlcBar) : Type 0 where
  pub opened : first prices ≡ some bar.open_price
  pub closed : last prices ≡ some bar.close
  pub high_bound : All (λ p. p ≤ℤ bar.high) prices
  pub high_reached : Any (λ p. p ≡ bar.high) prices
  pub low_bound : All (λ p. bar.low ≤ℤ p) prices
  pub low_reached : Any (λ p. p ≡ bar.low) prices
  pub ticks : bar.tick_count ≡ length prices

first-snoc : (ps : List Decimal) (p q : Decimal) → first ps ≡ some q → first (ps ++ p ∷ []) ≡ some q
first-snoc [] p q h = cc
first-snoc (x ∷ ps) p q h = h

last-snoc : (ps : List Decimal) (p : Decimal) → last (ps ++ p ∷ []) ≡ some p
last-snoc [] p = refl
last-snoc (x ∷ []) p = refl
last-snoc (x ∷ y ∷ ps) p = last-snoc (y ∷ ps) p

pub All-snoc :
    (P Q : Decimal → Type 0) (ps : List Decimal) (p : Decimal)
    → ((q : Decimal) → P q → Q q)
    → All P ps
    → Q p
    → All Q (ps ++ p ∷ [])
All-snoc P Q [] p f h hp = (hp, tt)
All-snoc P Q (x ∷ ps) p f h hp = (f x h.0, All-snoc P Q ps p f h.1 hp)

Any-snoc :
    (P : Decimal → Type 0) (ps : List Decimal) (p : Decimal) → Any P ps → Any P (ps ++ p ∷ [])
Any-snoc P [] p h = absurd h
Any-snoc P (x ∷ ps) p (inl h) = inl h
Any-snoc P (x ∷ ps) p (inr h) = inr (Any-snoc P ps p h)

Any-last : (P : Decimal → Type 0) (ps : List Decimal) (p : Decimal) → P p → Any P (ps ++ p ∷ [])
Any-last P [] p h = inl h
Any-last P (x ∷ ps) p h = inr (Any-last P ps p h)

reached-All :
    (P : Decimal → Type 0) (m : Decimal) (ps : List Decimal) → Any (λ p. p ≡ m) ps → All P ps → P m
reached-All P m [] h all = absurd h
reached-All P m (x ∷ ps) (inl e) all = rw e at all.0
reached-All P m (x ∷ ps) (inr h) all = reached-All P m ps h all.1

module _ (column : Decimal → Result Decimal) (laws : IsColumn column) where
  -- A price that a column has kept.
  abbrev pub IsStored : Decimal → Type 0
  IsStored p = column p ≡ ok p

  -- The high after a tick: what the column keeps of the larger one.
  pub high_step :
      (h price p : Decimal)
      → IsStored h
      → column price ≡ ok p
      → (h' : Decimal) × (column (if ltb_ℤ h price then price else h) ≡ ok h')
        × (h ≤ℤ h')
        × (p ≤ℤ h')
        × ((h' ≡ h) ⊎ (h' ≡ p))
  high_step h price p stored kept = elim (Bool-cases (ltb_ℤ h price)) [
    | inl above ↦
        (p, rw above kept, laws.mono h price h p stored kept (ground arith), omega arith, inr refl)
    | inr below ↦ (
      h,
      rw below stored,
      omega arith,
      laws.mono price h p h kept stored (ground arith),
      inl refl,
    )
  ]

  pub low_step :
      (l price p : Decimal)
      → IsStored l
      → column price ≡ ok p
      → (l' : Decimal) × (column (if ltb_ℤ price l then price else l) ≡ ok l')
        × (l' ≤ℤ l)
        × (l' ≤ℤ p)
        × ((l' ≡ l) ⊎ (l' ≡ p))
  low_step l price p stored kept = elim (Bool-cases (ltb_ℤ price l)) [
    | inl below ↦
        (p, rw below kept, laws.mono price l p l kept stored (ground arith), omega arith, inr refl)
    | inr above ↦ (
      l,
      rw above stored,
      omega arith,
      laws.mono l price l p stored kept (ground arith),
      inl refl,
    )
  ]

  -- A tick adds the kept price to the summary.
  pub tick-IsSummary :
      (prices : List Decimal) (bar : OhlcBar) (price p : Decimal)
      → All IsStored prices
      → IsSummary prices bar
      → column price ≡ ok p
      → (bar' : OhlcBar) × (tick column bar price ≡ ok bar') × IsSummary (prices ++ p ∷ []) bar'
  unfolding tick
  tick-IsSummary prices bar price p stored s kept =
      let (h', high, hh, hp, which_h) =
        high_step bar.high price p (reached-All IsStored bar.high prices s.high_reached stored)
          kept in
      let (l', low, ll, lp, which_l) =
        low_step bar.low price p (reached-All IsStored bar.low prices s.low_reached stored) kept in
      (
        record bar { high = h'; low = l'; close = p; tick_count = bar.tick_count + 1 },
        rw (high, low, kept),
        record {
          opened = first-snoc prices p bar.open_price s.opened;
          closed = last-snoc prices p;
          high_bound =
              All-snoc (λ q. q ≤ℤ bar.high) (λ q. q ≤ℤ h') prices p (λ q k. omega arith)
                s.high_bound hp;
          high_reached = elim which_h [
            | inl e ↦ rw e (Any-snoc (λ q. q ≡ bar.high) prices p s.high_reached)
            | inr e ↦ rw e (Any-last (λ q. q ≡ p) prices p refl)
          ];
          low_bound =
              All-snoc (λ q. bar.low ≤ℤ q) (λ q. l' ≤ℤ q) prices p (λ q k. omega arith) s.low_bound
                lp;
          low_reached = elim which_l [
            | inl e ↦ rw e (Any-snoc (λ q. q ≡ bar.low) prices p s.low_reached)
            | inr e ↦ rw e (Any-last (λ q. q ≡ p) prices p refl)
          ];
          ticks = omega (arith, s.ticks, length-append {0} prices (p ∷ []));
        },
      )

  -- A new bar is the summary of one price.
  pub new_bar-IsSummary :
      (instrument : ℕ) (interval : Interval) (bucket : Datetime) (price p zero : Decimal)
      → column price ≡ ok p
      → column (pos 0) ≡ ok zero
      → (bar : OhlcBar) × (new_bar column instrument interval bucket price ≡ ok bar)
        × IsSummary (p ∷ []) bar
  unfolding new_bar
  new_bar-IsSummary instrument interval bucket price p zero kept none_yet = (
    record {
      instrument = instrument;
      interval = interval;
      bucket_start = bucket;
      open_price = p;
      high = p;
      low = p;
      close = p;
      volume = zero;
      tick_count = 1;
    },
    rw (kept, none_yet),
    record {
      opened = refl;
      closed = refl;
      high_bound = (omega arith, tt);
      high_reached = inl refl;
      low_bound = (omega arith, tt);
      low_reached = inl refl;
      ticks = refl;
    },
  )
