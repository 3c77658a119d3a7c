-- ===== src/Exchanges.antt =====
-- apps/pricing/exchanges.py: the symbols that the three exchanges are asked for, and what each client
-- makes of an answer. An answer is what `r.json()` returned, or what the request raised.
pub mod Symbols
mod Tests
use pricestream.Base.{Option, none, some, List, [], ◌∷◌, ◌++◌, if◌then◌else◌}
use pricestream.Base.Text.{Text, text, text_eq, upper, partition}
use pricestream.Base.Result.{Result, ok, raise, ◌>>=◌, attribute_error, value_error, type_error}
use pricestream.Json.{
  Json, null, boolean, number, string, array, object, Members, end, member, get, truthy, subscript,
  first,
}
use pricestream.Decimal.{Decimal}
use pricestream.Models.{Source, binance, coinbase, kraken}

-- `_to_binance_symbol`
unfoldable pub to_binance_symbol : Text → Text
to_binance_symbol symbol =
    let (base, _, quote) = partition b'-' symbol in
    let quote' = if text_eq (upper quote) (text "USD") then text "USDT" else quote in
    upper base ++ upper quote'

-- `_to_coinbase_symbol`
unfoldable pub to_coinbase_symbol : Text → Text
to_coinbase_symbol symbol = upper symbol

-- `_to_kraken_symbol`
unfoldable pub to_kraken_symbol : Text → Text
to_kraken_symbol symbol =
    let (base, _, quote) = partition b'-' symbol in
    let base' = if text_eq (upper base) (text "BTC") then text "XBT" else upper base in
    base' ++ upper quote

abbrev pub symbol_for : Source → Text → Text
symbol_for binance = to_binance_symbol
symbol_for coinbase = to_coinbase_symbol
symbol_for kraken = to_kraken_symbol

-- `except Exception: return None`
abbrev pub caught {ℓ} : {A : Type ℓ} → Result (Option A) → Option A
caught (ok r) = r
caught (raise x) = none

module _ (to_decimal : Json → Result Decimal) where
  -- `Decimal(bid), Decimal(ask)`
  unfoldable pub decimals : Json → Json → Result (Option (Decimal × Decimal))
  decimals bid ask = do b ← to_decimal bid; a ← to_decimal ask; ok (some (b, a))

  unfoldable pub read_binance : Json → Result (Option (Decimal × Decimal))
  read_binance data' = do
    bid ← subscript (text "bidPrice") data'
    ask ← subscript (text "askPrice") data'
    decimals bid ask

  -- `data[side][0][0]`
  unfoldable pub top_of : Text → Json → Result Json
  top_of side data' = do levels ← subscript side data'; level ← first levels; first level

  unfoldable pub read_coinbase : Json → Result (Option (Decimal × Decimal))
  read_coinbase data' = do
    bid ← top_of (text "bids") data'
    ask ← top_of (text "asks") data'
    decimals bid ask

  -- `(_, ticker), = result.items()`
  unfoldable pub only_value : Json → Result Json
  only_value (object (member k v end)) = ok v
  only_value (object end) = raise value_error
  only_value (object (member k v (member k' v' ms))) = raise value_error
  only_value null = raise attribute_error
  only_value (boolean b) = raise attribute_error
  only_value (number n) = raise attribute_error
  only_value (string s) = raise attribute_error
  only_value (array vs) = raise attribute_error

  unfoldable pub read_ticker : Members → Result (Option (Decimal × Decimal))
  read_ticker ms = do
    result ← subscript (text "result") (object ms)
    ticker ← only_value result
    bids ← subscript (text "b") ticker
    bid ← first bids
    asks ← subscript (text "a") ticker
    ask ← first asks
    decimals bid ask

  unfoldable pub read_kraken : Json → Result (Option (Decimal × Decimal))
  read_kraken (object ms) = elim (get (text "error") ms) [
    | none ↦ read_ticker ms
    | some error ↦ if truthy error then ok none else read_ticker ms
  ]
  read_kraken null = raise attribute_error
  read_kraken (boolean b) = raise attribute_error
  read_kraken (number n) = raise attribute_error
  read_kraken (string s) = raise attribute_error
  read_kraken (array vs) = raise attribute_error

  abbrev reading : Source → Json → Result (Option (Decimal × Decimal))
  reading binance = read_binance
  reading coinbase = read_coinbase
  reading kraken = read_kraken

  -- `fetch` of a client, for the answer to its request
  unfoldable pub fetch : Source → Result Json → Option (Decimal × Decimal)
  fetch source answer = caught (answer >>= reading source)

-- `all_clients`
abbrev pub all_clients : List Source
all_clients = binance ∷ coinbase ∷ kraken ∷ []
