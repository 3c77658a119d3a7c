-- ===== src/Tasks.antt =====
-- apps/pricing/tasks.py: `fetch_quotes`, the round over all instruments and exchanges.
pub mod Environment
pub mod After
pub mod Counting
pub mod Agreement
pub mod Steps
pub mod Kafka
pub mod Extension
pub mod Growth
pub mod Effects
pub mod Reports
pub mod Lineage
pub mod Columns
pub mod Samples
mod Tests
use pricestream.Base.{
  ℕ, ◌+◌, Bool, true, false, Option, none, some, List, [], ◌∷◌, ◌++◌, if◌then◌else◌, length,
}
use pricestream.Base.Int.{pos, ltb_ℤ}
use pricestream.Base.Text.{Text, text, text_eq}
use pricestream.Base.Result.{Result, ok, raise}
use pricestream.Decimal.{Decimal, sub, div}
use pricestream.Models.{
  Instrument, parse_symbol, Source, source_value, Quote, ConsolidatedPrice, ArbitrageOpportunity,
}
use pricestream.Aggregator.{Consolidated, Arbitrage, consolidate, tradable, detect_arbitrage}
use pricestream.Exchanges.{symbol_for, fetch, all_clients}
use pricestream.Tasks.Environment.{World, Services, Action, done, ◌>>=◌, lift, call, write}

-- What a loop has counted: quotes, consolidated prices, arbitrages.
pub record Counts : Type 0 where
  pub quotes : ℕ
  pub consolidated : ℕ
  pub arbitrages : ℕ

abbrev pub plus : Counts → Counts → Counts
plus a b = record {
  quotes = a.quotes + b.quotes;
  consolidated = a.consolidated + b.consolidated;
  arbitrages = a.arbitrages + b.arbitrages;
}

abbrev pub has_symbol : Text → List Instrument → Bool
has_symbol s [] = false
has_symbol s (i ∷ is) = if text_eq i.symbol s then true else has_symbol s is

-- `symbol__in=settings.INSTRUMENTS`
abbrev is_listed : Text → List Text → Bool
is_listed s [] = false
is_listed s (t ∷ ts) = if text_eq s t then true else is_listed s ts

module _ (S : Services) (e g : ℕ) where
  -- The list of the new instruments: a symbol that cannot be parsed raises before any is written.
  unfoldable pub parse_all : List Text → Result (List (Text × Text × Text))
  parse_all [] = ok []
  parse_all (s ∷ ss) =
      let rest = parse_all ss in
      elim (parse_symbol s) [
        | raise x ↦ raise x
        | ok (base, quote) ↦ elim rest [ raise x ↦ raise x | ok ps ↦ ok ((s, base, quote) ∷ ps) ]
      ]

  -- The rows of a statement that the database takes, with `ignore_conflicts=True`: a symbol that has a
  -- row keeps it.
  unfoldable pub create_missing : List (Text × Text × Text) → Action (Unit {0})
  create_missing [] = done tt
  create_missing ((s, base, quote) ∷ ps) = do
    at ← call (λ t. ok (S.now t))
    _ ← write (λ w. if has_symbol s w.instruments then w else record w {
      instruments =
          w.instruments
          ++ record {
            pk = S.new_pk w.instruments;
            symbol = s;
            base = base;
            quote = quote;
            is_active = true;
            created_at = at;
          }
            ∷ [];
    })
    create_missing ps

  -- `Instrument.objects.bulk_create(…)`
  unfoldable pub bulk_create : List (Text × Text × Text) → Action (Unit {0})
  bulk_create ps = do _ ← lift (S.insert_all ps); create_missing ps

  -- `Instrument.objects.filter(is_active=True, symbol__in=…)`
  unfoldable pub polled : List Instrument → List Instrument
  polled [] = []
  polled (i ∷ is) =
      let rest = polled is in
      if i.is_active then (if is_listed i.symbol S.instruments then i ∷ rest else rest) else rest

  -- `_publish_to_kafka`: nothing is raised.
  unfoldable pub publish_to_kafka : Text → Quote → Action (Unit {0})
  publish_to_kafka symbol quote w =
      let w' = record w { time = w.time + 1 } in
      elim (S.publish w.time symbol quote) [
        | ok _ ↦ (
          ok tt,
          record w' {
            kafka_published_total = w.kafka_published_total + 1;
            published = w.published ++ (symbol, quote) ∷ [];
          },
        )
        | raise x ↦
            (ok tt, record w' { kafka_publish_failed_total = w.kafka_publish_failed_total + 1 })
      ]

  -- `_broadcast_ws`
  unfoldable pub broadcast_ws : Text → ConsolidatedPrice → Action (Unit {0})
  broadcast_ws symbol cp =
      if S.has_layer
      then (do
        _ ← call (λ t. S.send t symbol cp)
        write (λ w. record w { broadcasts = w.broadcasts ++ (symbol, cp) ∷ [] }))
      else done tt

  -- `Quote.objects.create(…)`: the row holds what the columns keep, the object what it was given.
  unfoldable pub create_quote : Quote → Action (Unit {0})
  create_quote quote = do
    bid ← lift (S.column quote.bid)
    ask ← lift (S.column quote.ask)
    write (λ w. record w { quotes = w.quotes ++ record quote { bid = bid; ask = ask } ∷ [] })

  -- What a client's `fetch` returned: a failure is counted, a quote is kept, counted and published.
  unfoldable pub take_result :
      Instrument → Source → Option (Decimal × Decimal) → Action (List Quote)
  take_result i source none = do
    _ ← write (λ w. record w {
      quotes_failed_total = w.quotes_failed_total ++ (i.symbol, source_value source) ∷ [];
    })
    done []
  take_result i source (some (bid, ask)) = do
    at ← call (λ t. ok (S.now t))
    let quote : Quote = record {
      instrument = i.pk;
      source = source_value source;
      bid = bid;
      ask = ask;
      timestamp = at;
    }
    _ ← create_quote quote
    _ ← write (λ w. record w {
      quotes_fetched_total = w.quotes_fetched_total ++ (i.symbol, source_value source) ∷ [];
    })
    _ ← publish_to_kafka i.symbol quote
    done (quote ∷ [])

  -- `for client in clients`
  unfoldable pub poll_clients : Instrument → List Source → Action (List Quote)
  poll_clients i [] = done []
  poll_clients i (source ∷ sources) = do
    result ←
        call (λ t. ok (fetch S.to_decimal source (S.answer t source (symbol_for source i.symbol))))
    quote ← take_result i source result
    quotes ← poll_clients i sources
    done (quote ++ quotes)

  -- `ConsolidatedPrice.objects.create(…)`
  unfoldable pub create_price : ConsolidatedPrice → Action (Unit {0})
  create_price cp = do
    mid ← lift (S.column cp.mid)
    bid ← lift (S.column cp.bid)
    ask ← lift (S.column cp.ask)
    write
        (λ w. record w { prices = w.prices ++ record cp { mid = mid; bid = bid; ask = ask } ∷ [] })

  -- The gauge of the spread shows 10000 times the float of the ratio that is kept here.
  unfoldable pub measure_spread : Instrument → ConsolidatedPrice → Action (Unit {0})
  measure_spread i cp =
      if ltb_ℤ (pos 0) cp.mid
      then (do
        ratio ← lift (div e (sub cp.ask cp.bid) cp.mid)
        write (λ w. record w { last_spread = w.last_spread ++ (i.symbol, ratio) ∷ [] }))
      else done tt

  -- The counter and the gauges of a price.
  unfoldable pub measure : Instrument → ConsolidatedPrice → Action (Unit {0})
  measure i cp = do
    _ ← write (λ w. record w {
      consolidated_total = w.consolidated_total ++ i.symbol ∷ [];
      last_mid_price = w.last_mid_price ++ (i.symbol, cp.mid) ∷ [];
    })
    measure_spread i cp

  unfoldable pub set_cache : Text → ConsolidatedPrice → Action (Unit {0})
  set_cache symbol cp = do
    _ ← call (λ t. S.set_cache t symbol cp)
    write (λ w. record w { cache = w.cache ++ (symbol, cp) ∷ [] })

  -- `ArbitrageOpportunity.objects.create(…)` and its counter
  unfoldable pub create_opportunity : Instrument → Arbitrage → Action (Unit {0})
  create_opportunity i arb = do
    bps ← lift (S.quantize_bps arb.spread_bps)
    at ← call (λ t. ok (S.now t))
    buy_price ← lift (S.column arb.buy_price)
    sell_price ← lift (S.column arb.sell_price)
    spread ← lift (S.column arb.spread)
    spread_bps ← lift (S.bps_column bps)
    _ ← write (λ w. record w {
      opportunities =
          w.opportunities
          ++ record {
            instrument = i.pk;
            buy_venue = arb.buy_venue;
            buy_price = buy_price;
            sell_venue = arb.sell_venue;
            sell_price = sell_price;
            spread = spread;
            spread_bps = spread_bps;
            timestamp = at;
          }
            ∷ [];
    })
    write (λ w. record w {
      arbitrage_detected_total =
          w.arbitrage_detected_total ++ (i.symbol, arb.buy_venue, arb.sell_venue) ∷ [];
    })

  -- The gate of `consolidate` reads the clock once for each quote with two positive sides.
  unfoldable pub run_consolidate : List Quote → Action (Option Consolidated)
  run_consolidate quotes w =
      let readings = length (tradable quotes) in
      (
        consolidate e g S.max_quote_age_seconds (λ k. S.now (w.time + k)) quotes,
        record w { time = w.time + readings },
      )

  abbrev pub record_found : Instrument → Option Arbitrage → Action ℕ
  record_found i none = done 0
  record_found i (some a) = do _ ← create_opportunity i a; done 1

  -- What follows a price: 1 if an arbitrage was recorded, else 0.
  unfoldable pub record_arbitrage : Instrument → List Quote → Action ℕ
  record_arbitrage i quotes = do arb ← lift (detect_arbitrage e quotes); record_found i arb

  unfoldable pub publish_price : Instrument → Consolidated → Action (Unit {0})
  publish_price i c = do
    at ← call (λ t. ok (S.now t))
    let cp : ConsolidatedPrice = record {
      instrument = i.pk;
      mid = c.mid;
      bid = c.bid;
      ask = c.ask;
      sources = c.sources;
      timestamp = at;
    }
    _ ← create_price cp
    _ ← measure i cp
    _ ← set_cache i.symbol cp
    broadcast_ws i.symbol cp

  -- `if consolidated is None: continue`, and what follows.
  abbrev pub settle : Instrument → List Quote → Option Consolidated → Action Counts
  settle i quotes none = done (record { quotes = length quotes; consolidated = 0; arbitrages = 0 })
  settle i quotes (some c) = do
    _ ← publish_price i c
    arbs ← record_arbitrage i quotes
    done (record { quotes = length quotes; consolidated = 1; arbitrages = arbs })

  -- The body of the outer loop.
  unfoldable pub poll_instrument : Instrument → Action Counts
  poll_instrument i = do
    quotes ← poll_clients i all_clients
    consolidated ← run_consolidate quotes
    settle i quotes consolidated

  unfoldable pub poll_instruments : List Instrument → Action Counts
  poll_instruments [] = done (record { quotes = 0; consolidated = 0; arbitrages = 0 })
  poll_instruments (i ∷ is) = do
    first ← poll_instrument i
    others ← poll_instruments is
    done (plus first others)

  -- `fetch_quotes`
  unfoldable pub fetch_quotes : Action Counts
  fetch_quotes = do
    missing ← lift (parse_all S.instruments)
    _ ← bulk_create missing
    is ← (λ w. (ok (S.ordered (polled w.instruments)), w))
    counts ← poll_instruments is
    _ ← write (λ w. record w { rounds_observed = w.rounds_observed + 1 })
    done counts
