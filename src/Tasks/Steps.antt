-- ===== src/Tasks/Steps.antt =====
-- The steps for one instrument, in two environments that differ only in Kafka.
use pricestream.Base.{
  ℕ, ◌+◌, ◌≡◌, refl, sym, ◌∙◌, ap, inl, inr, Bool-cases, Option, none, some, List, [], ◌∷◌, ◌++◌,
  length,
}
use pricestream.Base.Int.{pos, ltb_ℤ}
use pricestream.Base.Text.{Text}
use pricestream.Base.Result.{Result, Result-cases, ok}
use pricestream.Decimal.{Decimal, div, sub}
use pricestream.Models.{Instrument, Source, Quote, ConsolidatedPrice, source_value}
use pricestream.Aggregator.{Arbitrage, Consolidated, consolidate, tradable, detect_arbitrage}
use pricestream.Exchanges.{fetch, symbol_for}
use pricestream.Tasks.Environment.{World, Services}
use pricestream.Tasks.{
  publish_to_kafka, broadcast_ws, create_quote, take_result, poll_clients, settle, record_found,
  create_price, measure, measure_spread, set_cache, create_opportunity, run_consolidate,
  record_arbitrage, publish_price,
}
use pricestream.Tasks.Agreement.{
  quiet, later, Same, Agree, Agree-lift, Agree-call, Agree-write, Agree-next,
}

-- Publishing returns, and the world is that of a later call.
publish_to_kafka-quiet :
    (S : Services) (e g : ℕ) (s : Text) (q : Quote) (w : World)
    → let r = publish_to_kafka S e g s q w in (r.0 ≡ ok tt) × (quiet r.1 ≡ quiet (later w))
unfolding publish_to_kafka
publish_to_kafka-quiet S e g s q w = elim (Result-cases (S.publish w.time s q)) [
  | inl (_, p) ↦ (rw (publish_to_kafka, p) refl, rw (publish_to_kafka, p) refl)
  | inr (_, p) ↦ (rw (publish_to_kafka, p) refl, rw (publish_to_kafka, p) refl)
]

abbrev forward : ℕ → World → World
forward n v = record v { time = v.time + n }

module _ (S : Services) (publish : ℕ → Text → Quote → Result (Unit {0})) (e g : ℕ) where
  -- The same environment with another Kafka.
  abbrev pub other : Services
  other = record S { publish = publish }

  publish_to_kafka-Agree :
      (s : Text) (q : Quote) (w w' : World)
      → Same w w'
      → Agree (publish_to_kafka S e g s q w) (publish_to_kafka other e g s q w')
  publish_to_kafka-Agree s q w w' h =
      let (result, worlds) = publish_to_kafka-quiet S e g s q w in
      let (result', worlds') = publish_to_kafka-quiet other e g s q w' in
      record { result = result ∙ sym result'; worlds = worlds ∙ ap later h ∙ sym worlds' }

  create_quote-Agree :
      (q : Quote) (w w' : World)
      → Same w w'
      → Agree (create_quote S e g q w) (create_quote other e g q w')
  unfolding create_quote
  create_quote-Agree q w w' h = Agree-next (Agree-lift (S.column q.bid) h) (λ bid w w' h.
      Agree-next (Agree-lift (S.column q.ask) h) (λ ask w w' h.
        Agree-write (λ v. record v { quotes = v.quotes ++ record q { bid = bid; ask = ask } ∷ [] })
          w w' (λ v. refl) h))

  create_price-Agree :
      (cp : ConsolidatedPrice) (w w' : World)
      → Same w w'
      → Agree (create_price S e g cp w) (create_price other e g cp w')
  unfolding create_price
  create_price-Agree cp w w' h = Agree-next (Agree-lift (S.column cp.mid) h) (λ mid w w' h.
      Agree-next (Agree-lift (S.column cp.bid) h) (λ bid w w' h.
        Agree-next (Agree-lift (S.column cp.ask) h) (λ ask w w' h.
          Agree-write
            (λ v. record v {
              prices = v.prices ++ record cp { mid = mid; bid = bid; ask = ask } ∷ [];
            })
            w w' (λ v. refl) h)))

  take_result-Agree :
      (i : Instrument) (source : Source) (r : Option (Decimal × Decimal)) (w w' : World)
      → Same w w'
      → Agree (take_result S e g i source r w) (take_result other e g i source r w')
  unfolding take_result
  take_result-Agree i source none w w' h =
      Agree-next
        (Agree-write
          (λ v. record v {
            quotes_failed_total = v.quotes_failed_total ++ (i.symbol, source_value source) ∷ [];
          })
          w w' (λ v. refl) h)
        (λ _ w w' h. Agree-lift (ok []) h)
  take_result-Agree i source (some (bid, ask)) w w' h =
      Agree-next (Agree-call (λ t. ok (S.now t)) h) (λ at w w' h.
        Agree-next (create_quote-Agree _ w w' h) (λ _ w w' h.
          Agree-next
            (Agree-write
              (λ v. record v {
                quotes_fetched_total =
                    v.quotes_fetched_total ++ (i.symbol, source_value source) ∷ [];
              })
              w w' (λ v. refl) h)
            (λ _ w w' h.
              Agree-next (publish_to_kafka-Agree _ _ w w' h) (λ _ w w' h. Agree-lift (ok _) h))))

  pub poll_clients-Agree :
      (i : Instrument) (sources : List Source) (w w' : World)
      → Same w w'
      → Agree (poll_clients S e g i sources w) (poll_clients other e g i sources w')
  unfolding poll_clients
  poll_clients-Agree i [] w w' h = Agree-lift (ok []) h
  poll_clients-Agree i (source ∷ sources) w w' h =
      Agree-next
        (Agree-call
          (λ t. ok (fetch S.to_decimal source (S.answer t source (symbol_for source i.symbol)))) h)
        (λ result w w' h. Agree-next (take_result-Agree i source result w w' h) (λ quote w w' h.
          Agree-next (poll_clients-Agree i sources w w' h)
            (λ quotes w w' h. Agree-lift (ok (quote ++ quotes)) h)))

  measure-Agree :
      (i : Instrument) (cp : ConsolidatedPrice) (w w' : World)
      → Same w w'
      → Agree (measure S e g i cp w) (measure other e g i cp w')
  unfolding measure measure_spread
  measure-Agree i cp w w' h =
      Agree-next
        (Agree-write
          (λ v. record v {
            consolidated_total = v.consolidated_total ++ i.symbol ∷ [];
            last_mid_price = v.last_mid_price ++ (i.symbol, cp.mid) ∷ [];
          })
          w w' (λ v. refl) h)
        (λ _ w w' h. elim (Bool-cases (ltb_ℤ (pos 0) cp.mid)) [
          | inl high ↦
              rw (measure_spread, high)
                (Agree-next (Agree-lift (div e (sub cp.ask cp.bid) cp.mid) h) (λ ratio w w' h.
                  Agree-write
                    (λ v. record v { last_spread = v.last_spread ++ (i.symbol, ratio) ∷ [] }) w w'
                    (λ v. refl) h))
          | inr low ↦ rw (measure_spread, low) (Agree-lift (ok tt) h)
        ])

  set_cache-Agree :
      (s : Text) (cp : ConsolidatedPrice) (w w' : World)
      → Same w w'
      → Agree (set_cache S e g s cp w) (set_cache other e g s cp w')
  unfolding set_cache
  set_cache-Agree s cp w w' h = Agree-next (Agree-call (λ t. S.set_cache t s cp) h) (λ _ w w' h.
      Agree-write (λ v. record v { cache = v.cache ++ (s, cp) ∷ [] }) w w' (λ v. refl) h)

  broadcast_ws-Agree :
      (s : Text) (cp : ConsolidatedPrice) (w w' : World)
      → Same w w'
      → Agree (broadcast_ws S e g s cp w) (broadcast_ws other e g s cp w')
  unfolding broadcast_ws
  broadcast_ws-Agree s cp w w' h = elim (Bool-cases S.has_layer) [
    | inl layer ↦
        rw (broadcast_ws, layer)
          (Agree-next (Agree-call (λ t. S.send t s cp) h) (λ _ w w' h.
            Agree-write (λ v. record v { broadcasts = v.broadcasts ++ (s, cp) ∷ [] }) w w'
              (λ v. refl) h))
    | inr off ↦ rw (broadcast_ws, off) (Agree-lift (ok tt) h)
  ]

  create_opportunity-Agree :
      (i : Instrument) (a : Arbitrage) (w w' : World)
      → Same w w'
      → Agree (create_opportunity S e g i a w) (create_opportunity other e g i a w')
  unfolding create_opportunity
  create_opportunity-Agree i a w w' h =
      Agree-next (Agree-lift (S.quantize_bps a.spread_bps) h) (λ bps w w' h.
        Agree-next (Agree-call (λ t. ok (S.now t)) h) (λ at w w' h.
          Agree-next (Agree-lift (S.column a.buy_price) h) (λ buy w w' h.
            Agree-next (Agree-lift (S.column a.sell_price) h) (λ sell w w' h.
              Agree-next (Agree-lift (S.column a.spread) h) (λ spread w w' h.
                Agree-next (Agree-lift (S.bps_column bps) h) (λ kept w w' h.
                  Agree-next
                    (Agree-write
                      (λ v. record v {
                        opportunities =
                            v.opportunities
                            ++ record {
                              instrument = i.pk;
                              buy_venue = a.buy_venue;
                              buy_price = buy;
                              sell_venue = a.sell_venue;
                              sell_price = sell;
                              spread = spread;
                              spread_bps = kept;
                              timestamp = at;
                            }
                              ∷ [];
                      })
                      w w' (λ v. refl) h)
                    (λ _ w w' h.
                      Agree-write
                        (λ v. record v {
                          arbitrage_detected_total =
                              v.arbitrage_detected_total
                              ++ (i.symbol, a.buy_venue, a.sell_venue) ∷ [];
                        })
                        w w' (λ v. refl) h)))))))

  record_arbitrage-Agree :
      (i : Instrument) (quotes : List Quote) (w w' : World)
      → Same w w'
      → Agree (record_arbitrage S e g i quotes w) (record_arbitrage other e g i quotes w')
  unfolding record_arbitrage
  record_arbitrage-Agree i quotes w w' h =
      Agree-next (Agree-lift (detect_arbitrage e quotes) h) (λ arb w w' h. go arb w w' h)
    where
      go :
          (arb : Option Arbitrage) (w w' : World)
          → Same w w'
          → Agree (record_found S e g i arb w) (record_found other e g i arb w')
      go none w w' h = Agree-lift (ok 0) h
      go (some a) w w' h =
          Agree-next (create_opportunity-Agree i a w w' h) (λ _ w w' h. Agree-lift (ok 1) h)

  pub run_consolidate-Agree :
      (quotes : List Quote) (w w' : World)
      → Same w w'
      → Agree (run_consolidate S e g quotes w) (run_consolidate other e g quotes w')
  unfolding run_consolidate
  run_consolidate-Agree quotes w w' h = record {
    result = ap (λ v. consolidate e g S.max_quote_age_seconds (λ k. S.now (v.time + k)) quotes) h;
    worlds = ap (forward (length (tradable quotes))) h;
  }

  publish_price-Agree :
      (i : Instrument) (c : Consolidated) (w w' : World)
      → Same w w'
      → Agree (publish_price S e g i c w) (publish_price other e g i c w')
  unfolding publish_price
  publish_price-Agree i c w w' h = Agree-next (Agree-call (λ t. ok (S.now t)) h) (λ at w w' h.
      Agree-next (create_price-Agree _ w w' h) (λ _ w w' h.
        Agree-next (measure-Agree i _ w w' h) (λ _ w w' h.
          Agree-next (set_cache-Agree i.symbol _ w w' h)
            (λ _ w w' h. broadcast_ws-Agree i.symbol _ w w' h))))

  pub settle-Agree :
      (i : Instrument) (quotes : List Quote) (c : Option Consolidated) (w w' : World)
      → Same w w'
      → Agree (settle S e g i quotes c w) (settle other e g i quotes c w')
  settle-Agree i quotes none w w' h = Agree-lift (ok _) h
  settle-Agree i quotes (some c) w w' h = Agree-next (publish_price-Agree i c w w' h) (λ _ w w' h.
      Agree-next (record_arbitrage-Agree i quotes w w' h) (λ arbs w w' h. Agree-lift (ok _) h))
