-- ===== src/Exchanges/Tests.antt =====
-- The clients on the answers of apps/pricing/tests/test_exchanges.py.
use pricestream.Base.{◌≡◌, refl, ◌++◌, none, some, arith}
use pricestream.Base.Int.{pos}
use pricestream.Base.Text.{Text, text, upper, to_upper, text_eq}
use pricestream.Base.Result.{Result, ok, raise, type_error, not_found}
use pricestream.Decimal.{Decimal}
use pricestream.Json.{Json, number, array, nil, item, object, end, member, get, subscript, first}
use pricestream.Models.{binance, coinbase, parse_symbol}
use pricestream.Exchanges.{
  fetch, read_coinbase, top_of, decimals, to_binance_symbol, to_coinbase_symbol, to_kraken_symbol,
}
use pricestream.Exchanges.Symbols.{pair, IsRenamed, symbols_of_pair}

abbrev decimal_of : Json → Result Decimal
decimal_of v = elim v [ number n ↦ ok n | _ ↦ raise type_error ]

abbrev levels : Decimal → Json
levels price = array (item (array (item (number price) nil)) nil)

coinbase_reads :
    fetch decimal_of coinbase (
      ok (
        object (member (text "bids") (levels (pos 7)) (member (text "asks") (levels (pos 8)) end))))
    ≡ some (pos 7, pos 8)
unfolding fetch read_coinbase top_of subscript first get text_eq decimals
coinbase_reads = refl

coinbase_empty :
    fetch decimal_of coinbase (ok (object (member (text "bids") (array nil) end))) ≡ none
unfolding fetch read_coinbase top_of subscript first get text_eq
coinbase_empty = refl

binance_fails : fetch decimal_of binance (raise not_found) ≡ none
unfolding fetch
binance_fails = refl

symbols_of_pair_example :
    (parse_symbol (pair (text "btc") (text "usd")) ≡ ok (text "BTC", text "USD"))
    × (to_coinbase_symbol (pair (text "btc") (text "usd")) ≡ text "BTC-USD")
    × ((asked : Text) × IsRenamed (text "BTC") (text "XBT") (text "BTC") asked
        × (to_kraken_symbol (pair (text "btc") (text "usd")) ≡ asked ++ text "USD"))
    × ((asked : Text) × IsRenamed (text "USD") (text "USDT") (text "USD") asked
        × (to_binance_symbol (pair (text "btc") (text "usd")) ≡ text "BTC" ++ asked))
unfolding upper to_upper text_eq
symbols_of_pair_example =
    symbols_of_pair (text "btc") b'u' (text "sd") (omega arith, (omega arith, (omega arith, tt)))
