-- ===== src/Tasks/Tests.antt =====
-- A round in which two exchanges answer, one does not, and Kafka is down.
use pricestream.Base.{◌≡◌, refl}
use pricestream.Base.Result.{ok}
use pricestream.Models.{parse_symbol}
use pricestream.Base.Int.{◌+ℤ◌, ◌-ℤ◌, ◌*ℤ◌}
use pricestream.Base.Text.{text_eq, partition, upper, to_upper, sorted_set, insert_text, text_lt}
use pricestream.Rounding.{round, half_even, excess}
use pricestream.Decimal.{add, sub, mul, div, fix, magnitude}
use pricestream.Clock.{total_seconds, float_div, float_le_int}
use pricestream.Json.{subscript, first, get}
use pricestream.Models.{mid_of}
use pricestream.Exchanges.{fetch, read_binance, read_coinbase, top_of, decimals}
use pricestream.Aggregator.{
  consolidate, candidates, is_fresh, price_of, max_from, min_from, sum_mids, tradable,
  detect_arbitrage, scan_buys, scan_sells, consider, opportunity, consolidate_candidates,
}
use pricestream.Tasks.Environment.{next_of}
use pricestream.Tasks.{
  Counts, fetch_quotes, parse_all, create_missing, bulk_create, poll_instruments, polled,
  poll_instrument, poll_clients, take_result, create_quote, publish_to_kafka, run_consolidate,
  create_price, measure, measure_spread, set_cache, broadcast_ws, publish_price, record_arbitrage,
  create_opportunity,
}
use pricestream.Tasks.Environment.{World}
use pricestream.Tasks.Samples.{services, empty}
use pricestream.Tasks.Agreement.{Agree}
use pricestream.Tasks.Steps.{other}
use pricestream.Tasks.Kafka.{fetch_quotes-Agree}
use pricestream.Tasks.Extension.{Grows}
use pricestream.Tasks.Growth.{fetch_quotes-Grows}
use pricestream.Tasks.Reports.{Written}
use pricestream.Tasks.Lineage.{fetch_quotes-Reports}
use pricestream.Tasks.Columns.{IsStored, fetch_quotes-IsStored}
use pricestream.Tasks.Counting.{Wrote, fetch_quotes-counts}

abbrev after_round : World
after_round = (fetch_quotes services 11 1074 empty).1

abbrev round_counts : Counts
round_counts = record { quotes = 2; consolidated = 1; arbitrages = 1 }

-- The book is crossed: both prices are kept, one arbitrage is found, and both messages failed.
round_runs : fetch_quotes services 11 1074 empty ≡ (ok round_counts, after_round)
unfolding fetch_quotes next_of parse_all parse_symbol create_missing bulk_create poll_instruments
    polled text_eq poll_instrument poll_clients take_result fetch read_binance read_coinbase top_of
    first subscript get decimals create_quote publish_to_kafka run_consolidate consolidate
    candidates is_fresh total_seconds float_div price_of max_from min_from sum_mids tradable
    create_price measure measure_spread set_cache broadcast_ws publish_price record_arbitrage
    detect_arbitrage scan_buys scan_sells consider opportunity create_opportunity add sub mul div
    fix magnitude round half_even excess ◌+ℤ◌ ◌-ℤ◌ ◌*ℤ◌ partition upper to_upper float_le_int
    consolidate_candidates mid_of sorted_set insert_text text_lt
round_runs = refl

fetch_quotes-counts_example : Wrote services 11 1074 empty round_counts after_round
fetch_quotes-counts_example =
    fetch_quotes-counts services 11 1074 empty after_round round_counts round_runs

-- Kafka is down in one run, and takes every message in the other.
fetch_quotes-Agree_example :
    Agree
      (fetch_quotes services 11 1074 empty)
      (fetch_quotes (other services (λ t s q. ok tt) 11 1074) 11 1074 empty)
fetch_quotes-Agree_example = fetch_quotes-Agree services (λ t s q. ok tt) 11 1074 empty

fetch_quotes-Grows_example : Grows empty (fetch_quotes services 11 1074 empty)
fetch_quotes-Grows_example = fetch_quotes-Grows services 11 1074 empty

-- The round of the crossed book.
fetch_quotes-Reports_example : Written services 11 1074 empty round_counts after_round
fetch_quotes-Reports_example =
    fetch_quotes-Reports services 11 1074 empty after_round round_counts round_runs

fetch_quotes-IsStored_example : IsStored after_round.quotes after_round.opportunities
fetch_quotes-IsStored_example =
    fetch_quotes-IsStored services 11 1074 empty after_round round_counts round_runs
      (record { sources = tt; buy_venues = tt; sell_venues = tt })
