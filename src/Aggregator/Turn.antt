-- ===== src/Aggregator/Turn.antt =====
-- One turn of the loops of `detect_arbitrage`.
use pricestream.Base.{
  ℕ, ◌≡◌, refl, ◌⊎◌, inl, inr, true, false, Option, none, some, arith, Bool-cases,
}
use pricestream.Base.Int.{pos, ◌≤ℤ◌, ◌<ℤ◌, negsuc, leb_ℤ, ltb_ℤ, ◌+ℤ◌, int_laws}
use pricestream.Base.Text.{text_eq, text_eq_iff, text_ne}
use pricestream.Base.Result.{ok}
use pricestream.Decimal.{Decimal, from_int, add, sub, mul, div, fix}
use pricestream.Decimal.Signed.{
  div-from_int, div-returns, over, over-pos, fix_mono, fix-exact, sub-pos, sub-nonpos,
}
use pricestream.Models.{Quote}
use pricestream.Aggregator.{Arbitrage, opportunity, better, consider}
use pricestream.Aggregator.Spec.{IsTwoSided, Crosses, IsReport, Reaches}

dec_crossed : (a b : Decimal) → (a <ℤ b) ⊎ (b ≤ℤ a)
dec_crossed a b = omega arith

leb_true : (a b : Decimal) → a ≤ℤ b → leb_ℤ a b ≡ true
leb_true a b h = ground arith

leb_false : (a b : Decimal) → b <ℤ a → leb_ℤ a b ≡ false
leb_false a b h = ground arith

-- The mid of the two prices is positive, so nothing is divided by zero.
mid_pos : (a b : Decimal) → pos 0 <ℤ a → a <ℤ b → pos 0 <ℤ over (add a b) 2
unfolding add
mid_pos a b ha hb =
    let two : fix (pos 2) ≡ pos 2 = fix-exact (pos 2) (2, 0, omega arith, omega arith) in
    over-pos (fix (a +ℤ b)) 2 (omega arith) (rw two at (fix_mono (pos 2) (a +ℤ b) (omega int_laws)))

div-ok : (e : ℕ) (a b : Decimal) → pos 0 <ℤ b → (r : Decimal) × (div e a b ≡ ok r)
div-ok e a (pos n) h = div-returns e a n (omega arith)
div-ok e a (negsuc n) h = absurd (omega arith)

opportunity-IsReport :
    (e : ℕ) (buy sell : Quote)
    → Crosses buy sell
    → (a : Arbitrage) × (opportunity e buy sell (sub sell.bid buy.ask) ≡ ok a) × IsReport buy sell a
unfolding opportunity
opportunity-IsReport e buy sell c =
    let mid = over (add buy.ask sell.bid) 2 in
    let half : div e (add buy.ask sell.bid) (from_int e 2) ≡ ok mid =
      div-from_int e _ 2 (omega arith) in
    let (ratio, quotient) =
      div-ok e (sub sell.bid buy.ask) mid (mid_pos buy.ask sell.bid c.buyable.ask c.gain) in
    let made : Arbitrage = record {
      buy_venue = buy.source;
      buy_price = buy.ask;
      sell_venue = sell.source;
      sell_price = sell.bid;
      spread = sub sell.bid buy.ask;
      spread_bps = mul e ratio (from_int e 10_000);
    } in
    (
      made,
      rw (half, quotient),
      record {
        crosses = c;
        buy_venue = refl;
        buy_price = refl;
        sell_venue = refl;
        sell_price = refl;
        spread = refl;
      },
    )

-- A turn on a pair that does not cross keeps the best so far.
consider-skip :
    (e : ℕ) (buy sell : Quote) (best : Option Arbitrage)
    → IsTwoSided buy
    → IsTwoSided sell
    → ¬ Crosses buy sell
    → consider e buy sell best ≡ ok best
unfolding consider
consider-skip e buy sell best tb ts n = elim (Bool-cases (text_eq buy.source sell.source)) [
  | inl same ↦ rw same
  | inr other ↦ elim (dec_crossed buy.ask sell.bid) [
    | inl gain ↦ absurd (
        n (record {
          buyable = tb;
          sellable = ts;
          venues = λ p. cc ((text_eq_iff buy.source sell.source).1 p, other);
          gain = gain;
        }))
    | inr no_gain ↦
        rw (other, leb_true (sub sell.bid buy.ask) (pos 0) (sub-nonpos sell.bid buy.ask no_gain))
  ]
]

consider-take :
    (e : ℕ) (buy sell : Quote) (best : Option Arbitrage)
    → Crosses buy sell
    → (a : Arbitrage) × (consider e buy sell best ≡ ok (better a best)) × IsReport buy sell a
unfolding consider
consider-take e buy sell best c =
    let (a, made, report) = opportunity-IsReport e buy sell c in
    let other : text_eq buy.source sell.source ≡ false = text_ne _ _ c.venues in
    let gain : leb_ℤ (sub sell.bid buy.ask) (pos 0) ≡ false =
      leb_false (sub sell.bid buy.ask) (pos 0) (sub-pos sell.bid buy.ask c.gain) in
    (a, rw (other, gain, made), report)

better-keeps :
    (s : Decimal) (a : Arbitrage) (best : Option Arbitrage)
    → Reaches s best
    → Reaches s (better a best)
better-keeps s a none h = elim h [ ]
better-keeps s a (some b) h = elim (Bool-cases (ltb_ℤ b.spread a.spread)) [
  | inl larger ↦ rw larger (ground arith)
  | inr smaller ↦ rw smaller h
]

better-new : (a : Arbitrage) (best : Option Arbitrage) → Reaches a.spread (better a best)
better-new a none = omega arith
better-new a (some b) = elim (Bool-cases (ltb_ℤ b.spread a.spread)) [
  | inl larger ↦ rw larger (omega arith)
  | inr smaller ↦ rw smaller (ground arith)
]

better-cases :
    (a : Arbitrage) (best : Option Arbitrage) → (better a best ≡ best) ⊎ (better a best ≡ some a)
better-cases a none = inr refl
better-cases a (some b) = elim (Bool-cases (ltb_ℤ b.spread a.spread)) [
  | inl larger ↦ inr (rw larger)
  | inr smaller ↦ inl (rw smaller)
]

-- What a run that began with `best` gives: nothing that was reached is lost, the pairs in it are
-- reached, and what is new is a report of one of them.
pub record Scans (Covered : Option Arbitrage → Type 0) (Reported : Arbitrage → Type 0)
    (best r : Option Arbitrage) : Type 0 where
  pub keeps : (s : Decimal) → Reaches s best → Reaches s r
  pub covers : Covered r
  pub origin : (r ≡ best) ⊎ ((a : Arbitrage) × (r ≡ some a) × Reported a)

Crosses-cases :
    (buy sell : Quote) → IsTwoSided buy → IsTwoSided sell → Crosses buy sell ⊎ (¬ Crosses buy sell)
Crosses-cases buy sell tb ts = elim (Bool-cases (text_eq buy.source sell.source)) [
  | inl same ↦ inr (λ c. c.venues ((text_eq_iff buy.source sell.source).0 same))
  | inr other ↦ elim (dec_crossed buy.ask sell.bid) [
    | inl gain ↦ inl (record {
      buyable = tb;
      sellable = ts;
      venues = λ p. cc ((text_eq_iff buy.source sell.source).1 p, other);
      gain = gain;
    })
    | inr no_gain ↦ inr (λ c. absurd (omega (arith, c.gain)))
  ]
]

pub consider-Scans :
    (e : ℕ) (buy sell : Quote) (best : Option Arbitrage)
    → IsTwoSided buy
    → IsTwoSided sell
    → (r : Option Arbitrage) × (consider e buy sell best ≡ ok r)
      × Scans (λ r. Crosses buy sell → Reaches (sub sell.bid buy.ask) r) (IsReport buy sell) best r
consider-Scans e buy sell best tb ts = elim (Crosses-cases buy sell tb ts) [
  | inr apart ↦ (
    best,
    consider-skip e buy sell best tb ts apart,
    record { keeps = λ s h. h; covers = λ c. absurd (apart c); origin = inl refl },
  )
  | inl c ↦
      let (a, step, report) = consider-take e buy sell best c in
      (
        better a best,
        step,
        record {
          keeps = λ s h. better-keeps s a best h;
          covers = λ _. rw (← report.spread) (better-new a best);
          origin = elim (better-cases a best) [
            | inl old ↦ inl old
            | inr new ↦ inr (a, new, report)
          ];
        },
      )
]
