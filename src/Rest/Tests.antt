-- ===== src/Rest/Tests.antt =====
-- The views on a table of two prices and one of two bars.
use pricestream.Base.{
  ℕ, ◌+◌, Bool, ◌≡◌, ◌≢◌, ◌↔◌, ◌⊎◌, refl, Option, none, some, List, [], ◌∷◌, map, All, Any, arith,
  if◌then◌else◌,
}
use pricestream.Base.Int.{ℤ, pos, ◌-ℤ◌, leb_ℤ}
use pricestream.Base.Text.{Text, text, text_eq}
use pricestream.Base.Result.{ok, raise, not_found, ◌>>=◌}
use pricestream.Clock.{Datetime, instant}
use pricestream.Json.{object}
use pricestream.Models.{
  Instrument, Quote, ConsolidatedPrice, OhlcBar, ArbitrageOpportunity, m1, interval_value,
}
use pricestream.Ohlc.Bucket.{at}
use pricestream.Samples.{btc, moment, dollars}
use pricestream.Samples.Sorting.{sort, sort-perm, sort-IsSorted}
use pricestream.Stats.Samples.{by_time, sort-IsOrderBy, stdev, stdev-IsStdev}
use pricestream.Rest.{
  refusal, given, quote_queryset, bar_queryset, opportunity_queryset, window_of, instrument_prices,
  filter, clamp, latest, rolling_stats,
}
use pricestream.Rest.Lookup.{Meets}
use pricestream.Rest.Rows.{queryset_lem}
use pricestream.Rest.Latest.{IsOrderBy, IsOf, IsLatest, latest_lem}
use pricestream.Rest.Windows.{IsClock, IsClamped, IsServed, rolling_stats_lem}
use pricestream.Rest.Serializers.{Row, Fields, price_fields}

abbrev fields : Fields
fields = record { units = 11; decimal = λ digits places x. ok []; datetime = λ t. [] }

abbrev newest : Row ConsolidatedPrice → Row ConsolidatedPrice → Bool
newest a b = leb_ℤ (instant b.record_of.timestamp) (instant a.record_of.timestamp)

newest-IsOrderBy : IsOrderBy (sort newest)
newest-IsOrderBy = record {
  same_rows = sort-perm newest;
  newest_first =
      sort-IsSorted newest _ (λ a b h. ground arith) (λ a b h. ground arith)
        (λ a b c h h'. omega (arith, h, h'));
}

abbrev price : ℕ → ConsolidatedPrice
price us = record {
  instrument = 1;
  mid = dollars 101;
  bid = dollars 100;
  ask = dollars 102;
  sources = [];
  timestamp = at (moment + us) (pos 0);
}

abbrev prices : List (Row ConsolidatedPrice)
prices =
    record { id = 1; related = btc; record_of = price 0 }
    ∷ record { id = 2; related = btc; record_of = price 5 }
    ∷ []

abbrev query : Text → Option Text
query key =
    if text_eq key (text "instrument")
    then some (text "BTC-USDT")
    else if text_eq key (text "window")
    then some (text "86401")
    else none

-- The later row comes first, whatever the order in the table.
later_first : map (λ row. row.id) (sort newest (instrument_prices btc prices)) ≡ 2 ∷ 1 ∷ []
unfolding instrument_prices filter ◌-ℤ◌
later_first = refl

latest_lem_example :
    let answer = latest fields (sort newest) (btc ∷ []) prices query in
    ((given (query (text "instrument")) ≡ none)
      × (answer ≡ ok (refusal 400 (text "instrument query param required."))))
    ⊎ ((symbol : Text) × (given (query (text "instrument")) ≡ some symbol)
        × (((answer ≡ raise not_found) × All (λ i. i.symbol ≢ symbol) (btc ∷ []))
            ⊎ ((i : Instrument) × (i.symbol ≡ symbol)
                × Any (λ j. j ≡ i) (btc ∷ [])
                × (((answer ≡ ok (refusal 404 (text "no consolidated price yet.")))
                      × All (λ r. ¬ IsOf i r) prices)
                    ⊎ ((row : Row ConsolidatedPrice) × IsLatest i prices row
                        × (answer ≡ (
                            price_fields fields row >>= λ shown.
                            ok (record { code = 200; body = object shown }))))))))
latest_lem_example = latest_lem fields (sort newest) newest-IsOrderBy (btc ∷ []) prices query

abbrev to_int : Text → Option ℤ
to_int t = if text_eq t (text "86401") then some (pos 86_401) else none

abbrev clock : Datetime
clock = at (moment + 10) (pos 0)

abbrev table : List ConsolidatedPrice
table = price 0 ∷ price 5 ∷ []

-- More than a day becomes a day.
clamped : clamp (pos 86_401) ≡ 86_400
unfolding clamp
clamped = refl

clock-IsClock : IsClock clock
clock-IsClock = (omega arith, omega arith)

rolling_stats_lem_example :
    let answer =
      rolling_stats to_int 11 (λ d. []) (sort by_time) stdev clock (btc ∷ []) table query in
    ((given (query (text "instrument")) ≡ none)
      × (answer ≡ ok (refusal 400 (text "instrument query param required."))))
    ⊎ ((symbol : Text) × (given (query (text "instrument")) ≡ some symbol)
        × (((window_of to_int query ≡ none)
              × (answer ≡ ok (refusal 400 (text "window must be an integer."))))
            ⊎ ((wished : ℤ) × (window_of to_int query ≡ some wished)
                × (((answer ≡ raise not_found) × All (λ i. i.symbol ≢ symbol) (btc ∷ []))
                    ⊎ ((i : Instrument) × (i.symbol ≡ symbol)
                        × Any (λ j. j ≡ i) (btc ∷ [])
                        × (w : ℕ) × IsClamped wished w
                        × IsServed to_int 11
                            (λ d. [])
                            (sort by_time)
                            stdev
                            sort-IsOrderBy
                            stdev-IsStdev
                            clock
                            clock-IsClock
                            (btc ∷ [])
                            table
                            query
                            i
                            w)))))
rolling_stats_lem_example =
    rolling_stats_lem to_int 11 (λ d. []) (sort by_time) stdev sort-IsOrderBy stdev-IsStdev clock
      clock-IsClock (btc ∷ []) table query

abbrev bar : Row OhlcBar
bar = record {
  id = 7;
  related = btc;
  record_of = record {
    instrument = 1;
    interval = m1;
    bucket_start = at moment (pos 0);
    open_price = dollars 1;
    high = dollars 1;
    low = dollars 1;
    close = dollars 1;
    volume = dollars 0;
    tick_count = 1;
  };
}

abbrev quote : Row Quote
quote = record {
  id = 8;
  related = btc;
  record_of = record {
    instrument = 1;
    source = text "kraken";
    bid = dollars 100;
    ask = dollars 102;
    timestamp = at moment (pos 0);
  };
}

abbrev found : Row ArbitrageOpportunity
found = record {
  id = 9;
  related = btc;
  record_of = record {
    instrument = 1;
    buy_venue = text "kraken";
    buy_price = dollars 1;
    sell_venue = text "binance";
    sell_price = dollars 2;
    spread = dollars 1;
    spread_bps = dollars 100;
    timestamp = at moment (pos 0);
  };
}

queryset_lem_example :
    let symbol = given (query (text "instrument")) in
    let interval = given (query (text "interval")) in
    (Any (λ r. r ≡ quote) (quote_queryset query (quote ∷ []))
      ↔ (Any (λ r. r ≡ quote) (quote ∷ []) × Meets quote.related.symbol symbol))
    × (Any (λ r. r ≡ bar) (bar_queryset query (bar ∷ [])) ↔ (
        Any (λ r. r ≡ bar) (bar ∷ [])
        × Meets bar.related.symbol symbol
        × Meets (interval_value bar.record_of.interval) interval))
    × (Any (λ r. r ≡ found) (opportunity_queryset query (found ∷ []))
        ↔ (Any (λ r. r ≡ found) (found ∷ []) × Meets found.related.symbol symbol))
queryset_lem_example = queryset_lem query (quote ∷ []) quote (bar ∷ []) bar (found ∷ []) found
