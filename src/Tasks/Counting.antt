-- ===== src/Tasks/Counting.antt =====
-- A round that returned counts what it wrote.
use pricestream.Base.{
  ℕ, ◌+◌, ◌≡◌, Option, none, some, List, [], ◌∷◌, ◌++◌, arith, length, length-append, Bool-cases,
  inl, inr,
}
use pricestream.Base.Int.{pos, ltb_ℤ}
use pricestream.Base.Text.{Text}
use pricestream.Base.Result.{Result-cases, ok}
use pricestream.Models.{
  ArbitrageOpportunity, source_value, Instrument, Source, Quote, ConsolidatedPrice,
}
use pricestream.Aggregator.{Consolidated, Arbitrage}
use pricestream.Decimal.Signed.{div-positive}
use pricestream.Decimal.{Decimal, sub}
use pricestream.Aggregator.Arbitrages.{detect_arbitrage-largest}
use pricestream.Aggregator.Consolidation.{consolidate_lem}
use pricestream.Exchanges.{all_clients}
use pricestream.Tasks.Environment.{World, Services}
use pricestream.Tasks.{
  Counts, create_missing, bulk_create, publish_to_kafka, broadcast_ws, create_quote, take_result,
  poll_clients, settle, record_found, create_price, measure, measure_spread, set_cache,
  create_opportunity, run_consolidate, record_arbitrage, publish_price, poll_instrument,
  poll_instruments, has_symbol, fetch_quotes,
}
use pricestream.Tasks.Effects.{returned-holds}
use pricestream.Tasks.After.{
  After, After-next, After-ok, After-lift, After-mono, tally, Adds, same, snoc,
}

module _ (S : Services) (e g : ℕ) where
  create_quote-Adds :
      (q : Quote) (w : World)
      → After ⊥ (λ _ w'. Adds (tally w) (tally w') 1 0 0 0 0 0 0) (create_quote S e g q w)
  unfolding create_quote
  create_quote-Adds q w = After-next (
      After-lift absurd (λ bid. After-next (
        After-lift absurd (λ ask.
          let fact = snoc w.quotes (record q { bid = bid; ask = ask }) in After-ok (grind arith)))))

  publish_to_kafka-Adds :
      (s : Text) (q : Quote) (w : World)
      → After ⊥ (λ _ w'. Adds (tally w) (tally w') 0 0 1 0 0 0 0) (publish_to_kafka S e g s q w)
  unfolding publish_to_kafka
  publish_to_kafka-Adds s q w = elim (Result-cases (S.publish w.time s q)) [
    | inl (_, h) ↦ rw (publish_to_kafka, h) (After-ok (grind arith))
    | inr (x, h) ↦ rw (publish_to_kafka, h) (After-ok (grind arith))
  ]

  create_price-Adds :
      (cp : ConsolidatedPrice) (w : World)
      → After ⊥ (λ _ w'. Adds (tally w) (tally w') 0 0 0 1 0 0 0) (create_price S e g cp w)
  unfolding create_price
  create_price-Adds cp w = After-next (
      After-lift absurd (λ mid. After-next (
        After-lift absurd (λ bid. After-next (
          After-lift absurd (λ ask.
            let fact = snoc w.prices (record cp { mid = mid; bid = bid; ask = ask }) in
            After-ok (grind arith)))))))

  create_opportunity-Adds :
      (i : Instrument) (a : Arbitrage) (w : World)
      → After ⊥ (λ _ w'. Adds (tally w) (tally w') 0 0 0 0 0 1 1) (create_opportunity S e g i a w)
  unfolding create_opportunity
  create_opportunity-Adds i a w = After-next (
      After-lift absurd (λ bps. After-next (
        After-ok (
          After-next (
            After-lift absurd (λ buy. After-next (
              After-lift absurd (λ sell. After-next (
                After-lift absurd (λ spread. After-next (
                  After-lift absurd (λ kept. After-next (
                    After-ok (
                      After-ok (
                        let label : Text × Text × Text = (i.symbol, a.buy_venue, a.sell_venue) in
                        let fact = snoc w.arbitrage_detected_total label in
                        let fact' : (o : ArbitrageOpportunity)
                            → length (w.opportunities ++ o ∷ []) ≡ length w.opportunities + 1 =
                          λ o. snoc w.opportunities o in
                        grind (arith, fact'))))))))))))))))

  record_found-Adds :
      (i : Instrument) (o : Option Arbitrage) (w : World)
      → After ⊥ (λ a w'. Adds (tally w) (tally w') 0 0 0 0 0 a a) (record_found S e g i o w)
  record_found-Adds i none w = After-ok (same (tally w))
  record_found-Adds i (some a) w =
      After-next (After-mono (create_opportunity-Adds i a w) (λ _ w' h. After-ok h))

  record_arbitrage-Adds :
      (i : Instrument) (qs : List Quote) (w : World)
      → After ⊥ (λ a w'. Adds (tally w) (tally w') 0 0 0 0 0 a a) (record_arbitrage S e g i qs w)
  unfolding record_arbitrage
  record_arbitrage-Adds i qs w =
      let (found, run, _, _) = detect_arbitrage-largest e qs in
      After-next (After-lift (λ _. (found, run)) (λ o. record_found-Adds i o w))

  measure_spread-Adds :
      (i : Instrument) (cp : ConsolidatedPrice) (w : World)
      → After ⊥ (λ _ w'. Adds (tally w) (tally w') 0 0 0 0 0 0 0) (measure_spread S e g i cp w)
  unfolding measure_spread
  measure_spread-Adds i cp w = elim (Bool-cases (ltb_ℤ (pos 0) cp.mid)) [
    | inl positive ↦
        rw (measure_spread, positive)
          (After-next (
            After-lift (λ _. div-positive e (sub cp.ask cp.bid) cp.mid positive)
              (λ ratio. After-ok (same (tally w)))))
    | inr off ↦ rw (measure_spread, off) (After-ok (same (tally w)))
  ]

  broadcast_ws-Adds :
      (s : Text) (cp : ConsolidatedPrice) (w : World)
      → After ⊥ (λ _ w'. Adds (tally w) (tally w') 0 0 0 0 0 0 0) (broadcast_ws S e g s cp w)
  unfolding broadcast_ws
  broadcast_ws-Adds s cp w = elim (Bool-cases S.has_layer) [
    | inl layer ↦
        rw (broadcast_ws, layer)
          (After-next (After-lift absurd (λ sent. After-ok (same (tally w)))))
    | inr off ↦ rw (broadcast_ws, off) (After-ok (same (tally w)))
  ]

  publish_price-Adds :
      (i : Instrument) (c : Consolidated) (w : World)
      → After ⊥ (λ _ w'. Adds (tally w) (tally w') 0 0 0 1 1 0 0) (publish_price S e g i c w)
  unfolding publish_price measure set_cache
  publish_price-Adds i c w = After-next (
      After-ok (
        After-next (
          After-mono (create_price-Adds _ _) (λ _ w1 h1. After-next (
            After-next (
              After-ok (
                After-mono (measure_spread-Adds i _ _) (λ _ w2 h2. After-next (
                  After-next (
                    After-lift absurd (λ set. After-ok (
                      After-mono (broadcast_ws-Adds i.symbol _ _) (λ _ w3 h3.
                        let fact = snoc w1.consolidated_total i.symbol in grind arith)))))))))))))

  -- n quotes were written, counted and handed to Kafka.
  abbrev Polls : World → List Quote → World → Type 0
  Polls w qs w' = let n = length qs in Adds (tally w) (tally w') n n n 0 0 0 0

  take_result-Adds :
      (i : Instrument) (source : Source) (r : Option (Decimal × Decimal)) (w : World)
      → After ⊥ (Polls w) (take_result S e g i source r w)
  unfolding take_result
  take_result-Adds i source none w = After-next (After-ok (After-ok (same (tally w))))
  take_result-Adds i source (some (bid, ask)) w = After-next (
      After-ok (
        After-next (
          After-mono (create_quote-Adds _ _) (λ _ w1 h1. After-next (
            After-ok (
              After-next (
                After-mono (publish_to_kafka-Adds i.symbol _ _) (λ _ w2 h2.
                  let label : Text × Text = (i.symbol, source_value source) in
                  let fact = snoc w1.quotes_fetched_total label in After-ok (grind arith)))))))))

  poll_clients-Adds :
      (i : Instrument) (sources : List Source) (w : World)
      → After ⊥ (Polls w) (poll_clients S e g i sources w)
  unfolding poll_clients
  poll_clients-Adds i [] w = After-ok (same (tally w))
  poll_clients-Adds i (source ∷ sources) w = After-next (
      After-ok (
        After-next (
          After-mono (take_result-Adds i source _ _) (λ q w1 h1. After-next (
            After-mono (poll_clients-Adds i sources w1)
              (λ qs w2 h2. let fact = length-append q qs in After-ok (grind arith)))))))

  -- The counts are those of what was written.
  abbrev pub Wrote : World → Counts → World → Type 0
  Wrote w c w' =
      Adds (tally w) (tally w') c.quotes c.quotes c.quotes c.consolidated c.consolidated
        c.arbitrages c.arbitrages

  settle-Adds :
      (i : Instrument) (w0 w : World) (qs : List Quote) (o : Option Consolidated)
      → Polls w0 qs w
      → After ⊥ (Wrote w0) (settle S e g i qs o w)
  settle-Adds i w0 w qs none h = After-ok h
  settle-Adds i w0 w qs (some c) h = After-next (
      After-mono (publish_price-Adds i c w) (λ _ w1 h1.
        After-next
          (After-mono (record_arbitrage-Adds i qs w1) (λ a w2 h2. After-ok (grind arith)))))

  poll_instrument-Adds :
      (i : Instrument) (w : World) → After ⊥ (Wrote w) (poll_instrument S e g i w)
  unfolding poll_instrument run_consolidate
  poll_instrument-Adds i w = After-next (
      After-mono (poll_clients-Adds i all_clients w) (λ qs w1 h1. After-next (
        After-lift
          (λ _.
            let (o, run, _) =
              consolidate_lem e g S.max_quote_age_seconds (λ k. S.now (w1.time + k)) qs in
            (o, run))
          (λ o. settle-Adds i w _ qs o (grind arith)))))

  poll_instruments-Adds :
      (is : List Instrument) (w : World) → After ⊥ (Wrote w) (poll_instruments S e g is w)
  unfolding poll_instruments
  poll_instruments-Adds [] w = After-ok (same (tally w))
  poll_instruments-Adds (i ∷ is) w = After-next (
      After-mono (poll_instrument-Adds i w) (λ c w1 h1.
        After-next (After-mono (poll_instruments-Adds is w1) (λ d w2 h2. After-ok (grind arith)))))

  create_missing-Adds :
      (ps : List (Text × Text × Text)) (w : World)
      → After ⊥ (λ _ w'. Adds (tally w) (tally w') 0 0 0 0 0 0 0) (create_missing S e g ps w)
  unfolding create_missing
  create_missing-Adds [] w = After-ok (same (tally w))
  create_missing-Adds ((s, base, quote) ∷ ps) w = After-next (
      After-ok (
        After-next (
          After-ok (
            After-mono (create_missing-Adds ps _) (λ _ w' h.
              elim (Bool-cases (has_symbol s w.instruments)) [
                | inl known ↦ (rw known at h)
                | inr new ↦ (rw new at h)
              ])))))

  bulk_create-Adds :
      (ps : List (Text × Text × Text)) (w : World)
      → After ⊥ (λ _ w'. Adds (tally w) (tally w') 0 0 0 0 0 0 0) (bulk_create S e g ps w)
  unfolding bulk_create
  bulk_create-Adds ps w = After-next (After-lift absurd (λ _. create_missing-Adds ps w))

  fetch_quotes-After : (w : World) → After ⊥ (Wrote w) (fetch_quotes S e g w)
  unfolding fetch_quotes
  fetch_quotes-After w = After-next (
      After-lift absurd (λ ps. After-next (
        After-mono (bulk_create-Adds ps w) (λ _ w1 h1. After-next (
          After-ok (
            After-next (
              After-mono (poll_instruments-Adds _ w1)
                (λ c w2 h2. After-next (After-ok (After-ok (grind arith)))))))))))

  -- Of a round that returned, whatever exchanges and Kafka did in it: the counts that it returned are
  -- the numbers of rows that it added to the three tables; each counter of them grew by as much, and
  -- each new quote was counted as published or as failed to publish.
  pub fetch_quotes-counts :
      (w w' : World) (c : Counts) → fetch_quotes S e g w ≡ (ok c, w') → Wrote w c w'
  fetch_quotes-counts w w' c run =
      returned-holds {Q = Wrote w} (fetch_quotes S e g w) c w' run (fetch_quotes-After w)
