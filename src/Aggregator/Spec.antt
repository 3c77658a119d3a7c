-- ===== src/Aggregator/Spec.antt =====
-- What `detect_arbitrage` promises, with no loop: the pairs of quotes that cross, and the largest.
use pricestream.Base.{◌≡◌, ◌≢◌, Option, none, some, List}
use pricestream.Base.{All, Any}
use pricestream.Base.Int.{pos, ◌≤ℤ◌, ◌<ℤ◌}
use pricestream.Decimal.{Decimal, sub}
use pricestream.Models.{Quote}
use pricestream.Aggregator.{Arbitrage}

-- Both sides of the quote are positive.
pub record IsTwoSided (q : Quote) : Type 0 where
  pub bid : pos 0 <ℤ q.bid
  pub ask : pos 0 <ℤ q.ask

-- One can buy at the ask of one venue and sell at a higher bid of another.
pub record Crosses (buy sell : Quote) : Type 0 where
  pub buyable : IsTwoSided buy
  pub sellable : IsTwoSided sell
  pub venues : buy.source ≢ sell.source
  pub gain : buy.ask <ℤ sell.bid

-- The report of such a pair.
pub record IsReport (buy sell : Quote) (a : Arbitrage) : Type 0 where
  pub crosses : Crosses buy sell
  pub buy_venue : a.buy_venue ≡ buy.source
  pub buy_price : a.buy_price ≡ buy.ask
  pub sell_venue : a.sell_venue ≡ sell.source
  pub sell_price : a.sell_price ≡ sell.bid
  pub spread : a.spread ≡ sub sell.bid buy.ask

-- The report is there, and its spread is at least s.
abbrev pub Reaches : Decimal → Option Arbitrage → Type 0
Reaches s none = ⊥
Reaches s (some a) = s ≤ℤ a.spread

-- Every pair that crosses is reached.
abbrev pub CoversSells : Quote → List Quote → Option Arbitrage → Type 0
CoversSells buy sells r = All (λ sell. Crosses buy sell → Reaches (sub sell.bid buy.ask) r) sells

abbrev pub Covers : List Quote → List Quote → Option Arbitrage → Type 0
Covers buys sells r = All (λ buy. CoversSells buy sells r) buys

-- What is reported is one of the pairs that cross.
abbrev pub ReportsSell : Quote → List Quote → Arbitrage → Type 0
ReportsSell buy sells a = Any (λ sell. IsReport buy sell a) sells

abbrev pub Reports : List Quote → List Quote → Option Arbitrage → Type 0
Reports buys sells none = Unit
Reports buys sells (some a) = Any (λ buy. ReportsSell buy sells a) buys
