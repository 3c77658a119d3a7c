-- ===== src/Tasks/Lineage.antt =====
-- Where the rows of a round come from: the steps of `fetch_quotes` write what Reports says.
mod Quotes
mod Opportunities
mod Prices
use mathlib.Core.Path.{subst}
use mathlib.Core.List.{append-nil}
use pricestream.Base.{
  ℕ, ◌+◌, ◌≡◌, refl, sym, ◌∙◌, ap, Bool-cases, inl, inr, Option, none, some, List, [], ◌∷◌, ◌++◌,
  if◌then◌else◌, length, length-append, true, false,
}
use pricestream.Base.Int.{pos, ltb_ℤ}
use pricestream.Base.Text.{Text, text}
use pricestream.Base.Result.{Result-cases, ok}
use pricestream.Clock.{Datetime}
use pricestream.Decimal.{Decimal, div, sub}
use pricestream.Models.{Instrument, Source, Quote, ConsolidatedPrice, ArbitrageOpportunity}
use pricestream.Aggregator.{Arbitrage, Consolidated, detect_arbitrage, consolidate}
use pricestream.Exchanges.{all_clients, fetch, symbol_for}
use pricestream.Tasks.Environment.{World, Services}
use pricestream.Tasks.After.{After, After-next, After-ok, After-mono}
use pricestream.Tasks.Effects.{
  Rows, nothing, both, rows, both_assoc, both-nothing, both_steps, only_quotes, only_prices,
  only_opportunities, only_cached, only_sent, only_instruments, After-result, returned-holds,
}
use pricestream.Tasks.Reports.{
  quote_of, price_at, IsQuoteRow, IsPriceRow, IsOpportunityRow, Polled, Detected, Settled, Report,
  Reports, Created, new_instrument, Written, none_found, one_found, unpriced, priced, finished,
  missed, quoted, no_more, report, all_there, has_row, gets_row,
}
use pricestream.Tasks.{
  Counts, has_symbol, parse_all, polled, create_missing, bulk_create, publish_to_kafka,
  broadcast_ws, create_quote, take_result, poll_clients, settle, record_found, create_price,
  measure, measure_spread, set_cache, create_opportunity, run_consolidate, record_arbitrage,
  publish_price, poll_instrument, poll_instruments, fetch_quotes,
}
use pricestream.Tasks.Lineage.Quotes.{quotes_and, poll_clients-Polled, length-Polled}
use pricestream.Tasks.Lineage.Prices.{round_rows, settle-Settled}

module _ (S : Services) (e g : ℕ) where
  poll_instrument-Report :
      (i : Instrument) (w : World)
      → After ⊥
          (λ counts w'. (d : Rows) × Report S e g i d counts × (rows w' ≡ both (rows w) d))
          (poll_instrument S e g i w)
  unfolding poll_instrument run_consolidate
  poll_instrument-Report i w = After-next (
      After-mono (poll_clients-Polled S e g i all_clients w) (λ qs w1 (ks, ms, polls, e1).
        After-next (
          After-result (consolidate e g S.max_quote_age_seconds (λ k. S.now (w1.time + k)) qs) _
            (λ o h.
              After-mono (settle-Settled S e g i qs o _ w1.time h)
                (λ counts w2 (ps, cs, os, settled, counted, e2). (
                  both (quotes_and ks ms) (round_rows S e g ps cs os),
                  record {
                    quotes = qs;
                    polled = rw (append-nil ks, append-nil ms) polls;
                    settled = settled;
                    sent = refl;
                    instruments = refl;
                    counted =
                        (let ends = append-nil ks in let paired = length-Polled S e g polls in cc);
                  },
                  both_steps (rows w) (rows w1) (rows w2) _ _ e1 e2,
                ))))))

  poll_instruments-Reports :
      (is : List Instrument) (w : World)
      → After ⊥
          (λ counts w'. (d : Rows) × Reports S e g is d counts × (rows w' ≡ both (rows w) d))
          (poll_instruments S e g is w)
  unfolding poll_instruments
  poll_instruments-Reports [] w = After-ok (nothing, no_more, sym (both-nothing (rows w)))
  poll_instruments-Reports (i ∷ is) w = After-next (
      After-mono (poll_instrument-Report i w) (λ c w1 (d, first, e1). After-next (
        After-mono (poll_instruments-Reports is w1) (λ cs w2 (ds, others, e2).
          After-ok
            (both d ds, report first others, both_steps (rows w) (rows w1) (rows w2) d ds e1 e2)))))

  create_missing-Created :
      (ps : List (Text × Text × Text)) (w : World)
      → After ⊥
          (λ _ w'.
            (new : List Instrument) × Created S e g w.instruments ps new
            × (rows w' ≡ both (rows w) (record nothing { instruments = new })))
          (create_missing S e g ps w)
  unfolding create_missing
  create_missing-Created [] w = After-ok ([], all_there, sym (both-nothing (rows w)))
  create_missing-Created ((s, base, quote) ∷ ps) w = After-next (
      After-ok (
        After-next (
          After-ok (elim (Bool-cases (has_symbol s w.instruments)) [
            | inl known ↦ rw known (
                After-mono (create_missing-Created ps _)
                  (λ _ w' (new, created, e1). (new, has_row known created, e1)))
            | inr fresh ↦ rw fresh (
                After-mono (create_missing-Created ps _) (λ _ w' (new, created, e1). (
                  new_instrument S e g w.instruments s base quote w.time ∷ new,
                  gets_row w.time fresh created,
                  both_steps (rows w) _ (rows w') _ _ (only_instruments (rows w) _) e1,
                )))
          ]))))

  bulk_create-Created :
      (ps : List (Text × Text × Text)) (w : World)
      → After ⊥
          (λ _ w'.
            (new : List Instrument) × Created S e g w.instruments ps new
            × (rows w' ≡ both (rows w) (record nothing { instruments = new })))
          (bulk_create S e g ps w)
  unfolding bulk_create
  bulk_create-Created ps w =
      After-next (After-result (S.insert_all ps) w (λ _ _. create_missing-Created ps w))

  -- A round that returned, on any failures of the exchanges and of Kafka, wrote this and nothing else
  -- to the tables, the cache, the clients and Kafka: a row for each listed symbol that had none, and
  -- then for each active listed instrument, in the order of the query, one report. Its quotes are the
  -- rows of the exchanges that answered, in the order of the exchanges, with the messages of those that
  -- Kafka took; if the consolidation of these quotes gives a price, its row, its entry in the cache
  -- and, where there is a channel layer, its message; and the row of the arbitrage that was detected
  -- among the same quotes. The counts that it returns are the sums of the lengths.
  pub fetch_quotes-Reports :
      (w w' : World) (counts : Counts)
      → fetch_quotes S e g w ≡ (ok counts, w')
      → Written S e g w counts w'
  unfolding fetch_quotes
  fetch_quotes-Reports w w' counts returned =
      returned-holds {Q = Written S e g w} (fetch_quotes S e g w) counts w' returned (
        After-next (
          After-result (parse_all S e g S.instruments) w (λ ps parsed. After-next (
            After-mono (bulk_create-Created ps w) (λ _ w1 (new, created, e1). After-next (
              After-ok (
                After-next (
                  After-mono (poll_instruments-Reports _ w1) (λ c w2 (d, reports, e2). After-next (
                    After-ok (
                      After-ok (
                        ps,
                        new,
                        d,
                        parsed,
                        created,
                        subst (λ is. Reports S e g (S.ordered (polled S e g is)) d c)
                            (ap (λ t. t.instruments) e1) reports,
                        both_steps (rows w) (rows w1) (rows w2) _ d e1 e2,
                      ))))))))))))
