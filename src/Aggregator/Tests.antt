-- ===== src/Aggregator/Tests.antt =====
-- The aggregator on concrete rounds of quotes, and its theorems at them.
use pricestream.Base.{
  ℕ, ◌*◌, ◌^◌, ◌≡◌, refl, Option, none, some, List, [], ◌∷◌, arith, length, ◌≤◌, All, Any, IsSorted,
  ◌≢◌, ◌↔◌, inl, inr,
}
use pricestream.Base.Int.{pos, ◌≤ℤ◌, ◌-ℤ◌, ◌+ℤ◌}
use pricestream.Base.Text.{Text, text, text_eq, sorted_set}
use pricestream.Base.Result.{Result, ok}
use pricestream.Decimal.{Decimal, sub, fix, add, mul, div, magnitude}
use pricestream.Rounding.{round, half_even, excess}
use pricestream.Clock.{Datetime, total_seconds, float_div, float_le_int}
use pricestream.Models.{Quote, mid_of}
use pricestream.Aggregator.{
  Arbitrage, Consolidated, is_fresh, candidates, max_from, min_from, sum_mids, price_of,
  consolidate, tradable, consider, scan_sells, scan_buys, detect_arbitrage,
}
use pricestream.Base.Sets.{Before, Has}
use pricestream.Aggregator.Book.{IsTight, IsFallback}
use pricestream.Aggregator.Sources.{consolidate-sources}
use pricestream.Aggregator.Crossing.{IsSane, consolidate-detect_arbitrage}
use pricestream.Decimal.Signed.{over}
use pricestream.Aggregator.Extremes.{IsMin, IsMax}
use pricestream.Aggregator.Middle.{middle, consolidate-middle}
use mathlib.Core.List.Permᴰ
use pricestream.Aggregator.{consolidate_candidates}
use pricestream.Aggregator.Order.{consolidate_candidates-perm}
use pricestream.Aggregator.Gate.{Passes, candidates_sound, candidates_complete}
use pricestream.Aggregator.Spec.{Covers, Reports}
use pricestream.Aggregator.Arbitrages.{detect_arbitrage-largest}
use pricestream.Aggregator.Consolidation.{
  Outcome, IsOnGrid, IsOrdered, consolidate_lem, consolidate-IsOrdered,
}

-- Tenths, on the grid of 10 ^ -30.
abbrev tenths : ℕ → Decimal
tenths n = pos (n * 10 ^ 29)

-- Noon, and so many seconds before it.
abbrev noon : Datetime
noon = record { local = pos 43_200_000_000; offset = pos 0 }

abbrev quoted : Text → ℕ → ℕ → Quote
quoted source bid ask = record {
  instrument = 1;
  source = source;
  bid = tenths bid;
  ask = tenths ask;
  timestamp = noon;
}

abbrev clock : ℕ → Datetime
clock i = noon

-- test_best_bid_best_ask
abbrev tight_round : List Quote
tight_round =
    quoted (text "kraken") 998 1009
    ∷ quoted (text "binance") 1000 1010
    ∷ quoted (text "coinbase") 1005 1012
    ∷ quoted (text "binance") 0 0
    ∷ []

-- `consolidate` and `detect_arbitrage` with all that they call.
run_consolidate : List Quote → Result (Option Consolidated)
unfolding consolidate candidates is_fresh total_seconds float_div float_le_int price_of max_from
    min_from sum_mids mid_of add div fix magnitude round half_even excess sorted_set ◌-ℤ◌ ◌+ℤ◌
run_consolidate = consolidate 30 1074 (pos 30) clock

run_arbitrage : List Quote → Result (Option Arbitrage)
unfolding detect_arbitrage tradable scan_buys scan_sells consider add sub mul div fix magnitude
    round half_even excess text_eq ◌-ℤ◌ ◌+ℤ◌
run_arbitrage = detect_arbitrage 30

consolidate_tight :
    run_consolidate tight_round
    ≡ ok (
        some (record {
          mid = tenths 1007;
          bid = tenths 1005;
          ask = tenths 1009;
          sources = text "binance" ∷ text "coinbase" ∷ text "kraken" ∷ [];
        }))
unfolding run_consolidate
consolidate_tight = refl

-- test_crossed_book_falls_back_to_mid_of_mids
abbrev crossed_round : List Quote
crossed_round = quoted (text "binance") 1050 1060 ∷ quoted (text "coinbase") 990 1000 ∷ []

consolidate_crossed :
    run_consolidate crossed_round
    ≡ ok (
        some (record {
          mid = tenths 1025;
          bid = tenths 1025;
          ask = tenths 1025;
          sources = text "binance" ∷ text "coinbase" ∷ [];
        }))
unfolding run_consolidate
consolidate_crossed = refl

-- A quote of 31 seconds ago is dropped.
abbrev old_quote : Quote
old_quote = record (quoted (text "kraken") 999 1001) {
  timestamp = record { local = pos 43_169_000_000; offset = pos 0 };
}

consolidate_stale : run_consolidate (old_quote ∷ []) ≡ ok none
unfolding run_consolidate
consolidate_stale = refl

-- test_detects_cross_venue_opportunity: 5 / 102.5 * 10000, to 28 digits at each step
detect_arbitrage_crossed :
    run_arbitrage crossed_round
    ≡ ok (
        some (record {
          buy_venue = text "coinbase";
          buy_price = tenths 1000;
          sell_venue = text "binance";
          sell_price = tenths 1050;
          spread = tenths 50;
          spread_bps = pos 487_804_878_048_780_487_804_878_048_800_000;
        }))
unfolding run_arbitrage
detect_arbitrage_crossed = refl

-- test_returns_none_when_book_is_tight
detect_arbitrage_tight : run_arbitrage tight_round ≡ ok none
unfolding run_arbitrage
detect_arbitrage_tight = refl

detect_arbitrage-largest_example :
    (r : Option Arbitrage) × (detect_arbitrage 30 crossed_round ≡ ok r)
    × Covers crossed_round crossed_round r
    × Reports crossed_round crossed_round r
detect_arbitrage-largest_example = detect_arbitrage-largest 30 crossed_round

consolidate_lem_example :
    (r : Option Consolidated) × (consolidate 30 1074 (pos 30) clock tight_round ≡ ok r)
    × Outcome (candidates 1074 (pos 30) clock 0 tight_round) r
consolidate_lem_example = consolidate_lem 30 1074 (pos 30) clock tight_round

crossed_round-IsOnGrid : All (IsOnGrid 19) crossed_round
crossed_round-IsOnGrid = (
  ((1050 * 10 ^ 9, omega arith, refl), (1060 * 10 ^ 9, omega arith, refl)),
  (((990 * 10 ^ 9, omega arith, refl), (1000 * 10 ^ 9, omega arith, refl)), tt),
)

abbrev crossed_price : Consolidated
crossed_price = record {
  mid = tenths 1025;
  bid = tenths 1025;
  ask = tenths 1025;
  sources = text "binance" ∷ text "coinbase" ∷ [];
}

consolidate-IsOrdered_example : IsOrdered crossed_price
unfolding run_consolidate
consolidate-IsOrdered_example =
    consolidate-IsOrdered 19 1074 (pos 30) clock crossed_round crossed_price crossed_round-IsOnGrid
      consolidate_crossed

candidates_sound_example : All (Passes 30 clock) (candidates 1074 (pos 30) clock 0 crossed_round)
candidates_sound_example = candidates_sound 1054 30 (omega arith) clock 0 crossed_round

candidates_complete_example :
    Any (λ q. q.source ≡ text "coinbase") (candidates 1074 (pos 30) clock 0 crossed_round)
unfolding ◌-ℤ◌
candidates_complete_example =
    candidates_complete 1054 30 (omega arith) clock (λ q. q.source ≡ text "coinbase") 0
      crossed_round
      (inr (inl (refl, record { bid = omega arith; ask = omega arith }, λ i. omega arith)))

consolidate-sources_example :
    IsSorted Before crossed_price.sources
    × (Has (text "binance") crossed_price.sources
        ↔ Any (λ q. q.source ≡ text "binance") (candidates 1074 (pos 30) clock 0 crossed_round))
unfolding run_consolidate
consolidate-sources_example =
    consolidate-sources 30 1074 (pos 30) clock crossed_round crossed_price (text "binance")
      consolidate_crossed

venues_differ : text "binance" ≢ text "coinbase"
venues_differ h = cc

venues_differ_too : text "coinbase" ≢ text "binance"
venues_differ_too h = cc

crossed_round-IsSane : IsSane (candidates 1074 (pos 30) clock 0 crossed_round)
unfolding candidates is_fresh total_seconds float_div float_le_int round half_even excess ◌-ℤ◌
crossed_round-IsSane = (
  (inr (omega arith), (inl venues_differ, tt)),
  ((inl venues_differ_too, (inr (omega arith), tt)), tt),
)

consolidate-detect_arbitrage_example :
    let cs = candidates 1074 (pos 30) clock 0 crossed_round in
    let found = detect_arbitrage-largest 30 cs in
    (((a : Arbitrage) × (found.0 ≡ some a)) ↔ IsFallback cs crossed_price)
    × ((found.0 ≡ none) ↔ IsTight cs crossed_price)
unfolding run_consolidate
consolidate-detect_arbitrage_example =
    consolidate-detect_arbitrage 30 1074 (pos 30) clock crossed_round crossed_price
      (detect_arbitrage-largest 30 (candidates 1074 (pos 30) clock 0 crossed_round)).0
      crossed_round-IsSane consolidate_crossed
      (detect_arbitrage-largest 30 (candidates 1074 (pos 30) clock 0 crossed_round)).1

lowest-IsMin : IsMin middle (candidates 1074 (pos 30) clock 0 crossed_round) (tenths 995)
unfolding candidates is_fresh total_seconds float_div float_le_int round half_even excess ◌-ℤ◌ add
    fix magnitude ◌+ℤ◌ over
lowest-IsMin = record { bounds = (omega arith, (omega arith, tt)); reached = inr (inl refl) }

highest-IsMax : IsMax middle (candidates 1074 (pos 30) clock 0 crossed_round) (tenths 1055)
unfolding candidates is_fresh total_seconds float_div float_le_int round half_even excess ◌-ℤ◌ add
    fix magnitude ◌+ℤ◌ over
highest-IsMax = record { bounds = (omega arith, (omega arith, tt)); reached = inl refl }

few : length (candidates 1074 (pos 30) clock 0 crossed_round) ≤ 100
unfolding candidates is_fresh total_seconds float_div float_le_int round half_even excess ◌-ℤ◌
few = omega arith

consolidate-middle_example : (tenths 995 ≤ℤ crossed_price.mid) × (crossed_price.mid ≤ℤ tenths 1055)
unfolding run_consolidate
consolidate-middle_example =
    consolidate-middle 19 1074 (pos 30) clock crossed_round crossed_price (tenths 995) (tenths 1055)
      crossed_round-IsOnGrid few consolidate_crossed lowest-IsMin highest-IsMax

abbrev swapped_round : List Quote
swapped_round = quoted (text "coinbase") 990 1000 ∷ quoted (text "binance") 1050 1060 ∷ []

consolidate_candidates-perm_example :
    consolidate_candidates 30 crossed_round ≡ consolidate_candidates 30 swapped_round
consolidate_candidates-perm_example =
    consolidate_candidates-perm 19 crossed_round swapped_round (Permᴰ.swap refl refl)
      crossed_round-IsOnGrid (omega arith)
