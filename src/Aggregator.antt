-- ===== src/Aggregator.antt =====
-- apps/pricing/aggregator.py: the consolidated price of a round of quotes, and the largest
-- arbitrage between two venues. The clock is read once for each quote with two positive sides, so
-- `now` gives the reading of each call; e and g are the grids of `Decimal` and of the floats.
pub mod Spec
pub mod Extremes
pub mod Book
pub mod Gate
pub mod Consolidation
pub mod Sources
pub mod Crossing
pub mod Middle
pub mod Order
mod Tests
mod Turn
mod Scan
pub mod Arbitrages
use pricestream.Base.{
  ℕ, ◌+◌, Bool, true, false, ◌&&◌, Option, none, some, List, [], ◌∷◌, map, ltb, if◌then◌else◌,
  length,
}
use pricestream.Base.Int.{ℤ, pos, ◌-ℤ◌, ltb_ℤ, leb_ℤ}
use pricestream.Base.Text.{Text, text_eq, sorted_set}
use pricestream.Base.Result.{Result, ok, ◌>>=◌}
use pricestream.Decimal.{Decimal, from_int, add, sub, mul, div}
use pricestream.Clock.{Datetime, instant, total_seconds, float_le_int}
use pricestream.Models.{Quote, mid_of}

pub record Consolidated : Type 0 where
  pub mid : Decimal
  pub bid : Decimal
  pub ask : Decimal
  pub sources : List Text

pub record Arbitrage : Type 0 where
  pub buy_venue : Text
  pub buy_price : Decimal
  pub sell_venue : Text
  pub sell_price : Decimal
  pub spread : Decimal
  pub spread_bps : Decimal

-- `_is_fresh`, at a reading of the clock
unfoldable pub is_fresh : ℕ → ℤ → Datetime → Quote → Bool
is_fresh g max_age now q =
    float_le_int g (total_seconds g (instant now -ℤ instant q.timestamp)) max_age

-- `q.bid > 0 and q.ask > 0`
abbrev pub two_sided : Quote → Bool
two_sided q = ltb_ℤ (pos 0) q.bid && ltb_ℤ (pos 0) q.ask

-- The quotes that pass the gate; i counts the readings of the clock. A one-sided quote is dropped
-- before its age is looked at.
unfoldable pub candidates : ℕ → ℤ → (ℕ → Datetime) → ℕ → List Quote → List Quote
candidates g max_age now i [] = []
candidates g max_age now i (q ∷ qs) =
    let rest = candidates g max_age now (if two_sided q then i + 1 else i) qs in
    if two_sided q && is_fresh g max_age (now i) q then q ∷ rest else rest

-- `max(…)` and `min(…)` of a first item and the others
unfoldable pub max_from : Decimal → List Decimal → Decimal
max_from m [] = m
max_from m (x ∷ xs) = max_from (if ltb_ℤ m x then x else m) xs

unfoldable pub min_from : Decimal → List Decimal → Decimal
min_from m [] = m
min_from m (x ∷ xs) = min_from (if ltb_ℤ x m then x else m) xs

-- `sum((q.mid for q in candidates), Decimal(0))`
unfoldable pub sum_mids : ℕ → Decimal → List Quote → Result Decimal
sum_mids e acc [] = ok acc
sum_mids e acc (q ∷ qs) = do m ← mid_of e q; sum_mids e (add acc m) qs

-- The prices of the candidates c ∷ cs.
unfoldable pub price_of : ℕ → Quote → List Quote → Result Consolidated
price_of e c cs =
    let best_bid = max_from c.bid (map (λ q. q.bid) cs) in
    let best_ask = min_from c.ask (map (λ q. q.ask) cs) in
    let sources = sorted_set (map (λ q. q.source) (c ∷ cs)) in
    if ltb_ℤ best_ask best_bid
    then (do
      total ← sum_mids e (pos 0) (c ∷ cs)
      mid ← div e total (from_int e (length (c ∷ cs)))
      ok (record {
        mid = mid;
        bid = min_from best_bid (mid ∷ []);
        ask = max_from best_ask (mid ∷ []);
        sources = sources;
      }))
    else (do
      mid ← div e (add best_bid best_ask) (from_int e 2)
      ok (record { mid = mid; bid = best_bid; ask = best_ask; sources = sources }))

unfoldable pub consolidate_candidates : ℕ → List Quote → Result (Option Consolidated)
unfolding price_of
consolidate_candidates e [] = ok none
consolidate_candidates e (c ∷ cs) = do p ← price_of e c cs; ok (some p)

unfoldable pub consolidate : ℕ → ℕ → ℤ → (ℕ → Datetime) → List Quote → Result (Option Consolidated)
unfolding consolidate_candidates
consolidate e g max_age now quotes = consolidate_candidates e (candidates g max_age now 0 quotes)

-- `[q for q in quotes if q.bid > 0 and q.ask > 0]`
unfoldable pub tradable : List Quote → List Quote
tradable [] = []
tradable (q ∷ qs) = if two_sided q then q ∷ tradable qs else tradable qs

-- The opportunity to buy at one quote's ask and sell at another's bid, with its spread.
unfoldable pub opportunity : ℕ → Quote → Quote → Decimal → Result Arbitrage
opportunity e buy sell spread = do
  mid ← div e (add buy.ask sell.bid) (from_int e 2)
  ratio ← div e spread mid
  ok (record {
    buy_venue = buy.source;
    buy_price = buy.ask;
    sell_venue = sell.source;
    sell_price = sell.bid;
    spread = spread;
    spread_bps = mul e ratio (from_int e 10_000);
  })

-- `if best is None or arb.spread > best.spread: best = arb`
abbrev better : Arbitrage → Option Arbitrage → Option Arbitrage
better arb none = some arb
better arb (some best) = if ltb_ℤ best.spread arb.spread then some arb else some best

-- One turn of the inner loop.
unfoldable pub consider : ℕ → Quote → Quote → Option Arbitrage → Result (Option Arbitrage)
unfolding opportunity
consider e buy sell best =
    let spread = sub sell.bid buy.ask in
    if text_eq buy.source sell.source
    then ok best
    else if leb_ℤ spread (pos 0)
    then ok best
    else do arb ← opportunity e buy sell spread; ok (better arb best)

-- `for sell in qs`
unfoldable pub scan_sells : ℕ → Quote → Option Arbitrage → List Quote → Result (Option Arbitrage)
scan_sells e buy best [] = ok best
scan_sells e buy best (sell ∷ sells) = do
  best' ← consider e buy sell best
  scan_sells e buy best' sells

-- `for buy in qs`
unfoldable pub scan_buys :
    ℕ → List Quote → Option Arbitrage → List Quote → Result (Option Arbitrage)
scan_buys e qs best [] = ok best
scan_buys e qs best (buy ∷ buys) = do best' ← scan_sells e buy best qs; scan_buys e qs best' buys

unfoldable pub detect_arbitrage : ℕ → List Quote → Result (Option Arbitrage)
detect_arbitrage e quotes =
    let qs = tradable quotes in if ltb (length qs) 2 then ok none else scan_buys e qs none qs
