-- ===== src/Tasks/Lineage/Opportunities.antt =====
-- What is recorded of an arbitrage among the quotes of an instrument.
use pricestream.Base.{ℕ, ◌≡◌, refl, sym, Option, none, some, List, [], ◌∷◌, length}
use pricestream.Base.Result.{ok}
use pricestream.Models.{Instrument, Quote, ArbitrageOpportunity}
use pricestream.Aggregator.{Arbitrage, detect_arbitrage}
use pricestream.Tasks.Environment.{World, Services}
use pricestream.Tasks.After.{After, After-next, After-ok, After-mono}
use pricestream.Tasks.Effects.{
  Rows, nothing, both, rows, both-nothing, only_opportunities, After-result,
}
use pricestream.Tasks.Reports.{IsOpportunityRow, Detected, none_found, one_found}
use pricestream.Tasks.{record_found, create_opportunity, record_arbitrage}

module _ (S : Services) (e g : ℕ) where
  abbrev pub opportunities_only : List ArbitrageOpportunity → Rows
  opportunities_only os = record nothing { opportunities = os }

  create_opportunity-IsOpportunityRow :
      (i : Instrument) (a : Arbitrage) (w : World)
      → After ⊥
          (λ _ w'.
            (row : ArbitrageOpportunity) × IsOpportunityRow S e g i a row
            × (rows w' ≡ both (rows w) (opportunities_only (row ∷ []))))
          (create_opportunity S e g i a w)
  unfolding create_opportunity
  create_opportunity-IsOpportunityRow i a w = After-next (
      After-result (S.quantize_bps a.spread_bps) w (λ bps quantized. After-next (
        After-ok (
          After-next (
            After-result (S.column a.buy_price) _ (λ buy buy_kept. After-next (
              After-result (S.column a.sell_price) _ (λ sell sell_kept. After-next (
                After-result (S.column a.spread) _ (λ spread spread_kept. After-next (
                  After-result (S.bps_column bps) _ (λ kept bps_kept. After-next (
                    After-ok (
                      After-ok (
                        _,
                        record {
                          bps = bps;
                          quantized = quantized;
                          buy_kept = buy_kept;
                          sell_kept = sell_kept;
                          spread_kept = spread_kept;
                          bps_kept = bps_kept;
                          instrument = refl;
                          buy_venue = refl;
                          sell_venue = refl;
                        },
                        only_opportunities (rows w) _,
                      )))))))))))))))

  -- What `record_arbitrage` writes, and its result.
  record_found-Detected :
      (i : Instrument) (quotes : List Quote) (o : Option Arbitrage) (w : World)
      → detect_arbitrage e quotes ≡ ok o
      → After ⊥
          (λ n w'.
            (os : List ArbitrageOpportunity) × Detected S e g i quotes os
            × (n ≡ length os)
            × (rows w' ≡ both (rows w) (opportunities_only os)))
          (record_found S e g i o w)
  record_found-Detected i quotes none w h =
      After-ok ([], none_found h, refl, sym (both-nothing (rows w)))
  record_found-Detected i quotes (some a) w h = After-next (
      After-mono (create_opportunity-IsOpportunityRow i a w)
        (λ _ w' (row, kept, wrote). After-ok (row ∷ [], one_found a h kept, refl, wrote)))

  pub record_arbitrage-Detected :
      (i : Instrument) (quotes : List Quote) (w : World)
      → After ⊥
          (λ n w'.
            (os : List ArbitrageOpportunity) × Detected S e g i quotes os
            × (n ≡ length os)
            × (rows w' ≡ both (rows w) (opportunities_only os)))
          (record_arbitrage S e g i quotes w)
  unfolding record_arbitrage
  record_arbitrage-Detected i quotes w =
      After-next
        (After-result (detect_arbitrage e quotes) w (λ o h. record_found-Detected i quotes o w h))
