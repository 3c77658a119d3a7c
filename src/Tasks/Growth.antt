-- ===== src/Tasks/Growth.antt =====
-- A round only adds rows, also where it ends early.
use pricestream.Base.{ℕ, refl, inl, inr, Bool-cases, Option, none, some, List, [], ◌∷◌}
use pricestream.Base.Int.{pos, ltb_ℤ}
use pricestream.Base.Text.{Text}
use pricestream.Base.Result.{Result-cases, ok}
use pricestream.Decimal.{Decimal, div, sub}
use pricestream.Models.{Instrument, Source, Quote, ConsolidatedPrice}
use pricestream.Aggregator.{Arbitrage, Consolidated, detect_arbitrage}
use pricestream.Exchanges.{all_clients}
use pricestream.Tasks.Environment.{World, Services}
use pricestream.Tasks.{
  has_symbol, parse_all, polled, create_missing, bulk_create, publish_to_kafka, broadcast_ws,
  create_quote, take_result, poll_clients, settle, record_found, create_price, measure,
  measure_spread, set_cache, create_opportunity, run_consolidate, record_arbitrage, publish_price,
  poll_instrument, poll_instruments, fetch_quotes,
}
use pricestream.Tasks.Extension.{kept, added, Grows, Grows-next, Grows-still, Grows-aside, called}

module _ (S : Services) (e g : ℕ) where
  publish_to_kafka-Grows :
      (s : Text) (q : Quote) (w : World) → Grows w (publish_to_kafka S e g s q w)
  unfolding publish_to_kafka
  publish_to_kafka-Grows s q w = elim (Result-cases (S.publish w.time s q)) [
    | inl (_, p) ↦ rw (publish_to_kafka, p) (Grows-aside (ok tt) w _ refl)
    | inr (_, p) ↦ rw (publish_to_kafka, p) (Grows-aside (ok tt) w _ refl)
  ]

  create_quote-Grows : (q : Quote) (w : World) → Grows w (create_quote S e g q w)
  unfolding create_quote
  create_quote-Grows q w = Grows-next (Grows-still (S.column q.bid) w) (λ bid w.
      Grows-next (Grows-still (S.column q.ask) w) (λ ask w. record {
        grown = record {
          instruments = kept w.instruments;
          quotes = added w.quotes (record q { bid = bid; ask = ask });
          prices = kept w.prices;
          opportunities = kept w.opportunities;
        };
      }))

  create_price-Grows : (cp : ConsolidatedPrice) (w : World) → Grows w (create_price S e g cp w)
  unfolding create_price
  create_price-Grows cp w = Grows-next (Grows-still (S.column cp.mid) w) (λ mid w.
      Grows-next (Grows-still (S.column cp.bid) w) (λ bid w.
        Grows-next (Grows-still (S.column cp.ask) w) (λ ask w. record {
          grown = record {
            instruments = kept w.instruments;
            quotes = kept w.quotes;
            prices = added w.prices (record cp { mid = mid; bid = bid; ask = ask });
            opportunities = kept w.opportunities;
          };
        })))

  take_result-Grows :
      (i : Instrument) (source : Source) (r : Option (Decimal × Decimal)) (w : World)
      → Grows w (take_result S e g i source r w)
  unfolding take_result
  take_result-Grows i source none w =
      Grows-next {r = (ok tt, _)} (Grows-aside (ok tt) w _ refl) (λ _ w. Grows-still (ok []) w)
  take_result-Grows i source (some (bid, ask)) w =
      Grows-next (called (ok (S.now w.time)) w) (λ at w. Grows-next (create_quote-Grows _ w) (λ _ w.
        Grows-next {r = (ok tt, _)} (Grows-aside (ok tt) w _ refl)
          (λ _ w. Grows-next (publish_to_kafka-Grows _ _ w) (λ _ w. Grows-still (ok _) w))))

  poll_clients-Grows :
      (i : Instrument) (sources : List Source) (w : World)
      → Grows w (poll_clients S e g i sources w)
  unfolding poll_clients
  poll_clients-Grows i [] w = Grows-still (ok []) w
  poll_clients-Grows i (source ∷ sources) w = Grows-next (called (ok _) w) (λ result w.
      Grows-next (take_result-Grows i source result w)
        (λ quote w. Grows-next (poll_clients-Grows i sources w) (λ quotes w. Grows-still (ok _) w)))

  measure-Grows :
      (i : Instrument) (cp : ConsolidatedPrice) (w : World) → Grows w (measure S e g i cp w)
  unfolding measure measure_spread
  measure-Grows i cp w = Grows-next {r = (ok tt, _)} (Grows-aside (ok tt) w _ refl) (λ _ w.
      elim (Bool-cases (ltb_ℤ (pos 0) cp.mid)) [
        | inl high ↦
            rw (measure_spread, high)
              (Grows-next (Grows-still (div e (sub cp.ask cp.bid) cp.mid) w)
                (λ ratio w. Grows-aside (ok tt) w _ refl))
        | inr low ↦ rw (measure_spread, low) (Grows-still (ok tt) w)
      ])

  set_cache-Grows :
      (s : Text) (cp : ConsolidatedPrice) (w : World) → Grows w (set_cache S e g s cp w)
  unfolding set_cache
  set_cache-Grows s cp w =
      Grows-next (called (S.set_cache w.time s cp) w) (λ _ w. Grows-aside (ok tt) w _ refl)

  broadcast_ws-Grows :
      (s : Text) (cp : ConsolidatedPrice) (w : World) → Grows w (broadcast_ws S e g s cp w)
  unfolding broadcast_ws
  broadcast_ws-Grows s cp w = elim (Bool-cases S.has_layer) [
    | inl layer ↦
        rw (broadcast_ws, layer)
          (Grows-next (called (S.send w.time s cp) w) (λ _ w. Grows-aside (ok tt) w _ refl))
    | inr off ↦ rw (broadcast_ws, off) (Grows-still (ok tt) w)
  ]

  create_opportunity-Grows :
      (i : Instrument) (a : Arbitrage) (w : World) → Grows w (create_opportunity S e g i a w)
  unfolding create_opportunity
  create_opportunity-Grows i a w =
      Grows-next (Grows-still (S.quantize_bps a.spread_bps) w) (λ bps w.
        Grows-next (called (ok (S.now w.time)) w) (λ at w.
          Grows-next (Grows-still (S.column a.buy_price) w) (λ buy w.
            Grows-next (Grows-still (S.column a.sell_price) w) (λ sell w.
              Grows-next (Grows-still (S.column a.spread) w) (λ spread w.
                Grows-next (Grows-still (S.bps_column bps) w) (λ bps_kept w.
                  Grows-next {r = (ok tt, _)}
                    (record {
                      grown = record {
                        instruments = kept w.instruments;
                        quotes = kept w.quotes;
                        prices = kept w.prices;
                        opportunities = added w.opportunities _;
                      };
                    })
                    (λ _ w. Grows-aside (ok tt) w _ refl)))))))

  record_found-Grows :
      (i : Instrument) (a : Option Arbitrage) (w : World) → Grows w (record_found S e g i a w)
  record_found-Grows i none w = Grows-still (ok 0) w
  record_found-Grows i (some a) w =
      Grows-next (create_opportunity-Grows i a w) (λ _ w. Grows-still (ok 1) w)

  record_arbitrage-Grows :
      (i : Instrument) (quotes : List Quote) (w : World)
      → Grows w (record_arbitrage S e g i quotes w)
  unfolding record_arbitrage
  record_arbitrage-Grows i quotes w =
      Grows-next (Grows-still (detect_arbitrage e quotes) w) (λ a w. record_found-Grows i a w)

  run_consolidate-Grows :
      (quotes : List Quote) (w : World) → Grows w (run_consolidate S e g quotes w)
  unfolding run_consolidate
  run_consolidate-Grows quotes w = Grows-aside _ w _ refl

  publish_price-Grows :
      (i : Instrument) (c : Consolidated) (w : World) → Grows w (publish_price S e g i c w)
  unfolding publish_price
  publish_price-Grows i c w = Grows-next (called (ok (S.now w.time)) w) (λ at w.
      Grows-next (create_price-Grows _ w) (λ _ w. Grows-next (measure-Grows i _ w) (λ _ w.
        Grows-next (set_cache-Grows i.symbol _ w) (λ _ w. broadcast_ws-Grows i.symbol _ w))))

  settle-Grows :
      (i : Instrument) (quotes : List Quote) (c : Option Consolidated) (w : World)
      → Grows w (settle S e g i quotes c w)
  settle-Grows i quotes none w = Grows-still (ok _) w
  settle-Grows i quotes (some c) w =
      Grows-next (publish_price-Grows i c w)
        (λ _ w. Grows-next (record_arbitrage-Grows i quotes w) (λ arbs w. Grows-still (ok _) w))

  poll_instruments-Grows :
      (is : List Instrument) (w : World) → Grows w (poll_instruments S e g is w)
  unfolding poll_instruments poll_instrument
  poll_instruments-Grows [] w = Grows-still (ok _) w
  poll_instruments-Grows (i ∷ is) w =
      Grows-next
        (Grows-next (poll_clients-Grows i all_clients w) (λ quotes w.
          Grows-next (run_consolidate-Grows quotes w) (λ c w. settle-Grows i quotes c w)))
        (λ first w. Grows-next (poll_instruments-Grows is w) (λ others w. Grows-still (ok _) w))

  create_missing-Grows :
      (ps : List (Text × Text × Text)) (w : World) → Grows w (create_missing S e g ps w)
  unfolding create_missing
  create_missing-Grows [] w = Grows-still (ok tt) w
  create_missing-Grows ((s, base, quote) ∷ ps) w =
      Grows-next (called (ok (S.now w.time)) w) (λ at w.
        Grows-next {r = (ok tt, _)}
          (elim (Bool-cases (has_symbol s w.instruments)) [
            | inl old ↦ rw old (Grows-still (ok tt) w)
            | inr new ↦ rw new (record {
              grown = record {
                instruments = added w.instruments _;
                quotes = kept w.quotes;
                prices = kept w.prices;
                opportunities = kept w.opportunities;
              };
            })
          ])
          (λ _ w. create_missing-Grows ps w))

  bulk_create-Grows :
      (ps : List (Text × Text × Text)) (w : World) → Grows w (bulk_create S e g ps w)
  unfolding bulk_create
  bulk_create-Grows ps w =
      Grows-next (Grows-still (S.insert_all ps) w) (λ _ w. create_missing-Grows ps w)

  -- A round, whether it returns or raises, on whatever failure of its environment, leaves the rows of
  -- the four tables as they were and in their order, and only adds rows behind them.
  pub fetch_quotes-Grows : (w : World) → Grows w (fetch_quotes S e g w)
  unfolding fetch_quotes
  fetch_quotes-Grows w = Grows-next (Grows-still (parse_all S e g S.instruments) w) (λ missing w.
      Grows-next (bulk_create-Grows missing w) (λ _ w.
        Grows-next (Grows-still (ok (S.ordered (polled S e g w.instruments))) w) (λ is w.
          Grows-next (poll_instruments-Grows is w) (λ counts w.
            Grows-next {r = (ok tt, _)} (Grows-aside (ok tt) w _ refl)
              (λ _ w. Grows-still (ok counts) w)))))
