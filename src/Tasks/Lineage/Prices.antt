-- ===== src/Tasks/Lineage/Prices.antt =====
-- What the quotes of an instrument lead to: its price, in the table, the cache and the messages, and
-- the arbitrage among them.
use mathlib.Core.Path.{subst}
use mathlib.Core.List.{append-nil}
use pricestream.Base.{
  ℕ, ◌+◌, ◌≡◌, refl, sym, ◌∙◌, ap, Bool-cases, inl, inr, Option, none, some, List, [], ◌∷◌,
  if◌then◌else◌, length,
}
use pricestream.Base.Int.{pos, ltb_ℤ}
use pricestream.Base.Text.{Text}
use pricestream.Base.Result.{ok}
use pricestream.Decimal.{div, sub}
use pricestream.Models.{Instrument, Quote, ConsolidatedPrice, ArbitrageOpportunity}
use pricestream.Aggregator.{Consolidated, consolidate}
use pricestream.Tasks.Environment.{World, Services}
use pricestream.Tasks.After.{After, After-next, After-ok, After-mono}
use pricestream.Tasks.Effects.{
  Rows, nothing, both, rows, both-nothing, both_steps, only_prices, only_cached, only_sent,
  After-result,
}
use pricestream.Tasks.Reports.{price_at, IsPriceRow, Settled, unpriced, priced}
use pricestream.Tasks.{
  Counts, broadcast_ws, settle, create_price, measure, measure_spread, set_cache, publish_price,
}
use pricestream.Tasks.Lineage.Opportunities.{record_arbitrage-Detected}

module _ (S : Services) (e g : ℕ) where
  abbrev prices_only : ConsolidatedPrice → Rows
  prices_only row = record nothing { prices = row ∷ [] }

  create_price-IsPriceRow :
      (cp : ConsolidatedPrice) (w : World)
      → After ⊥
          (λ _ w'.
            (row : ConsolidatedPrice) × IsPriceRow S e g cp row
            × (rows w' ≡ both (rows w) (prices_only row)))
          (create_price S e g cp w)
  unfolding create_price
  create_price-IsPriceRow cp w = After-next (
      After-result (S.column cp.mid) w (λ mid mid_kept. After-next (
        After-result (S.column cp.bid) w (λ bid bid_kept. After-next (
          After-result (S.column cp.ask) w (λ ask ask_kept. After-ok (
            record cp { mid = mid; bid = bid; ask = ask },
            record {
              mid = mid;
              bid = bid;
              ask = ask;
              mid_kept = mid_kept;
              bid_kept = bid_kept;
              ask_kept = ask_kept;
              same = refl;
            },
            only_prices (rows w) _,
          )))))))

  measure-rows :
      (i : Instrument) (cp : ConsolidatedPrice) (w : World)
      → After ⊥ (λ _ w'. rows w' ≡ rows w) (measure S e g i cp w)
  unfolding measure measure_spread
  measure-rows i cp w = After-next (
      After-ok (elim (Bool-cases (ltb_ℤ (pos 0) cp.mid)) [
        | inl high ↦
            rw (measure_spread, high)
              (After-next
                (After-result (div e (sub cp.ask cp.bid) cp.mid) _ (λ ratio _. After-ok refl)))
        | inr low ↦ rw (measure_spread, low) (After-ok refl)
      ]))

  abbrev broadcast : Text → ConsolidatedPrice → List (Text × ConsolidatedPrice)
  broadcast s cp = if S.has_layer then (s, cp) ∷ [] else []

  broadcast_ws-rows :
      (s : Text) (cp : ConsolidatedPrice) (w : World)
      → After ⊥
          (λ _ w'. rows w' ≡ both (rows w) (record nothing { sent = broadcast s cp }))
          (broadcast_ws S e g s cp w)
  unfolding broadcast_ws
  broadcast_ws-rows s cp w = elim (Bool-cases S.has_layer) [
    | inl layer ↦
        rw (broadcast_ws, layer)
          (After-next
            (After-result (S.send w.time s cp) _ (λ _ _. After-ok (only_sent (rows w) _))))
    | inr off ↦ rw (broadcast_ws, off) (After-ok (sym (both-nothing (rows w))))
  ]

  -- The price's row, its entry in the cache, and its message.
  abbrev price_rows : Text → ConsolidatedPrice → ConsolidatedPrice → Rows
  price_rows s cp row = record nothing {
    prices = row ∷ [];
    cached = (s, cp) ∷ [];
    sent = broadcast s cp;
  }

  publish_price-rows :
      (i : Instrument) (c : Consolidated) (w : World)
      → After ⊥
          (λ _ w'.
            (row : ConsolidatedPrice) × (t : ℕ) × IsPriceRow S e g (price_at i c (S.now t)) row
            × (rows w' ≡ both (rows w) (price_rows i.symbol (price_at i c (S.now t)) row)))
          (publish_price S e g i c w)
  unfolding publish_price set_cache
  publish_price-rows i c w = After-next (
      After-ok (
        After-next (
          After-mono (create_price-IsPriceRow _ _) (λ _ w1 (row, kept, e1). After-next (
            After-mono (measure-rows i _ w1) (λ _ w2 e2. After-next (
              After-next (
                After-result (S.set_cache w2.time i.symbol _) _ (λ _ _. After-ok (
                  After-mono (broadcast_ws-rows i.symbol _ _) (λ _ w3 e3. (
                    row,
                    w.time,
                    kept,
                    let kept_rows =
                          both_steps (rows w) (rows w2) _ _ _ (e2 ∙ e1) (only_cached (rows w2) _) in
                        both_steps (rows w) _ _ _ _ kept_rows e3,
                  ))))))))))))

  abbrev pub round_rows :
      List ConsolidatedPrice → List (Text × ConsolidatedPrice) → List ArbitrageOpportunity → Rows
  round_rows ps cs os = record nothing {
    prices = ps;
    opportunities = os;
    cached = cs;
    sent = if S.has_layer then cs else [];
  }

  -- What `settle` writes after the price was computed.
  pub settle-Settled :
      (i : Instrument) (quotes : List Quote) (o : Option Consolidated) (w : World) (t : ℕ)
      → consolidate e g S.max_quote_age_seconds (λ k. S.now (t + k)) quotes ≡ ok o
      → After ⊥
          (λ counts w'.
            (ps : List ConsolidatedPrice) × (cs : List (Text × ConsolidatedPrice)) × (os : List
              ArbitrageOpportunity)
            × Settled S e g i quotes ps cs os
            × (counts ≡ record {
              quotes = length quotes;
              consolidated = length ps;
              arbitrages = length os;
            })
            × (rows w' ≡ both (rows w) (round_rows ps cs os)))
          (settle S e g i quotes o w)
  settle-Settled i quotes none w t h = After-ok (
    [],
    [],
    [],
    unpriced t h,
    refl,
    (elim (Bool-cases S.has_layer) [
      | inl layer ↦ rw layer (sym (both-nothing (rows w)))
      | inr off ↦ rw off (sym (both-nothing (rows w)))
    ]),
  )
  settle-Settled i quotes (some c) w t h = After-next (
      After-mono (publish_price-rows i c w) (λ _ w1 (row, t', kept, e1). After-next (
        After-mono (record_arbitrage-Detected S e g i quotes w1)
          (λ n w2 (os, detected, counted, e2). After-ok (
            _,
            _,
            os,
            priced t t' c h kept detected,
            ap {B = Counts}
                (λ n. record { quotes = length quotes; consolidated = 1; arbitrages = n }) counted,
            subst
                (λ s.
                  rows w2
                  ≡ both (rows w)
                      (record (round_rows (row ∷ []) ((i.symbol, price_at i c (S.now t')) ∷ [])
                        os) { sent = s }))
                (append-nil (broadcast i.symbol (price_at i c (S.now t'))))
                (both_steps (rows w) (rows w1) _ _ _ e1 e2),
          )))))
