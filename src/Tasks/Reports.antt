-- ===== src/Tasks/Reports.antt =====
-- What a round is to write for an instrument, with no state: from the answers of the exchanges to
-- the rows.
use pricestream.Base.{
  ℕ, ◌+◌, ◌≡◌, none, some, List, [], ◌∷◌, ◌++◌, if◌then◌else◌, length, true, false,
}
use pricestream.Base.Text.{Text}
use pricestream.Base.Result.{Result, ok, raise}
use pricestream.Clock.{Datetime}
use pricestream.Decimal.{Decimal}
use pricestream.Models.{
  Instrument, Source, source_value, Quote, ConsolidatedPrice, ArbitrageOpportunity,
}
use pricestream.Aggregator.{Consolidated, Arbitrage, consolidate, detect_arbitrage}
use pricestream.Exchanges.{fetch, symbol_for, all_clients}
use pricestream.Tasks.{Counts, plus, has_symbol, parse_all, polled}
use pricestream.Tasks.Environment.{World, Services}
use pricestream.Tasks.Effects.{Rows, nothing, both, rows}

abbrev pub quote_of : Instrument → Source → Decimal → Decimal → Datetime → Quote
quote_of i source bid ask at = record {
  instrument = i.pk;
  source = source_value source;
  bid = bid;
  ask = ask;
  timestamp = at;
}

abbrev pub price_at : Instrument → Consolidated → Datetime → ConsolidatedPrice
price_at i c at = record {
  instrument = i.pk;
  mid = c.mid;
  bid = c.bid;
  ask = c.ask;
  sources = c.sources;
  timestamp = at;
}

-- A message is there where the call returned.
abbrev pub taken : Result (Unit {0}) → Text → Quote → List (Text × Quote)
taken (ok u) symbol quote = (symbol, quote) ∷ []
taken (raise x) symbol quote = []

module _ (S : Services) (e g : ℕ) where
  abbrev pub new_instrument : List Instrument → Text → Text → Text → ℕ → Instrument
  new_instrument is s base quote t = record {
    pk = S.new_pk is;
    symbol = s;
    base = base;
    quote = quote;
    is_active = true;
    created_at = S.now t;
  }

  -- The row holds what the columns keep.
  pub record IsQuoteRow (q row : Quote) : Type 0 where
    pub bid : Decimal
    pub ask : Decimal
    pub bid_kept : S.column q.bid ≡ ok bid
    pub ask_kept : S.column q.ask ≡ ok ask
    pub same : row ≡ record q { bid = bid; ask = ask }

  pub record IsPriceRow (cp row : ConsolidatedPrice) : Type 0 where
    pub mid : Decimal
    pub bid : Decimal
    pub ask : Decimal
    pub mid_kept : S.column cp.mid ≡ ok mid
    pub bid_kept : S.column cp.bid ≡ ok bid
    pub ask_kept : S.column cp.ask ≡ ok ask
    pub same : row ≡ record cp { mid = mid; bid = bid; ask = ask }

  pub record IsOpportunityRow (i : Instrument) (a : Arbitrage) (row : ArbitrageOpportunity)
      : Type 0 where
    pub bps : Decimal
    pub quantized : S.quantize_bps a.spread_bps ≡ ok bps
    pub buy_kept : S.column a.buy_price ≡ ok row.buy_price
    pub sell_kept : S.column a.sell_price ≡ ok row.sell_price
    pub spread_kept : S.column a.spread ≡ ok row.spread
    pub bps_kept : S.bps_column bps ≡ ok row.spread_bps
    pub instrument : row.instrument ≡ i.pk
    pub buy_venue : row.buy_venue ≡ a.buy_venue
    pub sell_venue : row.sell_venue ≡ a.sell_venue

  -- The exchanges in their order, each with its answer at some time: the quotes that are read, their
  -- rows, and the messages of those that Kafka took at some time.
  pub data Polled (i : Instrument)
      : List Source → List Quote → List Quote → List (Text × Quote) → Type 0 where
    finished : Polled i [] [] [] []
    missed :
        {source : Source} {sources : List Source} {quotes rows : List Quote}
        {messages : List (Text × Quote)} (t : ℕ)
        → fetch S.to_decimal source (S.answer t source (symbol_for source i.symbol)) ≡ none
        → Polled i sources quotes rows messages
        → Polled i (source ∷ sources) quotes rows messages
    quoted :
        {source : Source} {sources : List Source} {quotes rows : List Quote} {row : Quote}
        {messages : List (Text × Quote)}
        → (t t' t'' : ℕ) (bid ask : Decimal)
        → fetch S.to_decimal source (S.answer t source (symbol_for source i.symbol))
          ≡ some (bid, ask)
        → IsQuoteRow (quote_of i source bid ask (S.now t')) row
        → Polled i sources quotes rows messages
        → Polled i (source ∷ sources) (quote_of i source bid ask (S.now t') ∷ quotes) (row ∷ rows) (
            taken
              (S.publish t'' i.symbol (quote_of i source bid ask (S.now t')))
              i.symbol
              (quote_of i source bid ask (S.now t'))
            ++ messages)

  -- The opportunity among the quotes, if there is one.
  pub data Detected (i : Instrument) (quotes : List Quote)
      : List ArbitrageOpportunity → Type 0 where
    none_found : detect_arbitrage e quotes ≡ ok none → Detected i quotes []
    one_found :
        {row : ArbitrageOpportunity} (a : Arbitrage)
        → detect_arbitrage e quotes ≡ ok (some a)
        → IsOpportunityRow i a row
        → Detected i quotes (row ∷ [])

  -- The price of the quotes at some time, which is cached and sent, and the opportunity.
  pub data Settled (i : Instrument) (quotes : List Quote)
      : List ConsolidatedPrice
        → List (Text × ConsolidatedPrice)
        → List ArbitrageOpportunity
        → Type 0 where
    unpriced :
        (t : ℕ)
        → consolidate e g S.max_quote_age_seconds (λ k. S.now (t + k)) quotes ≡ ok none
        → Settled i quotes [] [] []
    priced :
        {row : ConsolidatedPrice} {opportunities : List ArbitrageOpportunity} (t t' : ℕ)
        → (c : Consolidated)
        → consolidate e g S.max_quote_age_seconds (λ k. S.now (t + k)) quotes ≡ ok (some c)
        → IsPriceRow (price_at i c (S.now t')) row
        → Detected i quotes opportunities
        → Settled i quotes (row ∷ []) ((i.symbol, price_at i c (S.now t')) ∷ []) opportunities

  -- All that a round writes for one instrument.
  pub record Report (i : Instrument) (d : Rows) (counts : Counts) : Type 0 where
    pub quotes : List Quote
    pub polled : Polled i all_clients quotes d.quotes d.published
    pub settled : Settled i quotes d.prices d.cached d.opportunities
    pub sent : d.sent ≡ (if S.has_layer then d.cached else [])
    pub instruments : d.instruments ≡ []
    pub counted : counts ≡ record {
      quotes = length d.quotes;
      consolidated = length d.prices;
      arbitrages = length d.opportunities;
    }

  -- The instruments in their order, each with what is written for it and its counts.
  pub data Reports : List Instrument → Rows → Counts → Type 0 where
    no_more : Reports [] nothing (record { quotes = 0; consolidated = 0; arbitrages = 0 })
    report :
        {i : Instrument} {is : List Instrument} {d ds : Rows} {counts others : Counts}
        → Report i d counts
        → Reports is ds others
        → Reports (i ∷ is) (both d ds) (plus counts others)

  -- The new instruments: one at some time for each symbol that has no row yet.
  pub data Created : List Instrument → List (Text × Text × Text) → List Instrument → Type 0 where
    all_there : {is : List Instrument} → Created is [] []
    has_row :
        {is new : List Instrument} {s base quote : Text} {ps : List (Text × Text × Text)}
        → has_symbol s is ≡ true
        → Created is ps new
        → Created is ((s, base, quote) ∷ ps) new
    gets_row :
        {is new : List Instrument} {s base quote : Text} {ps : List (Text × Text × Text)} (t : ℕ)
        → has_symbol s is ≡ false
        → Created (is ++ new_instrument is s base quote t ∷ []) ps new
        → Created is ((s, base, quote) ∷ ps) (new_instrument is s base quote t ∷ new)

  -- What a round that returned these counts has written: a row for each listed symbol that had none,
  -- and the reports of the instruments that are then polled.
  abbrev pub Written : World → Counts → World → Type 0
  Written w counts w' =
      (ps : List (Text × Text × Text)) × (new : List Instrument) × (d : Rows) × (parse_all S e g
          S.instruments
        ≡ ok ps)
      × Created w.instruments ps new
      × Reports (S.ordered (polled S e g (w.instruments ++ new))) d counts
      × (rows w' ≡ both (rows w) (both (record nothing { instruments = new }) d))
