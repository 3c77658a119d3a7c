-- ===== src/Commands/Tests.antt =====
-- The command on two configured symbols, of which one has a row.
use pricestream.Base.{
  ◌≡◌, refl, List, [], ◌∷◌, ◌++◌, map, All, length, Bool, true, false, leb, ◌&&◌, if◌then◌else◌,
  arith,
}
use pricestream.Base.Int.{pos}
use pricestream.Base.Text.{Text, text, text_eq, partition, upper, to_upper}
use pricestream.Base.Result.{ok, raise, value_error}
use pricestream.Models.{Instrument, FitsColumns, parse_symbol}
use pricestream.Ohlc.Bucket.{at}
use pricestream.Samples.{btc, moment}
use pricestream.Consumer.{find_instrument}
use pricestream.Commands.{Defaults, get_or_create, create_rows, handle}
use pricestream.Commands.Bootstrap.{
  IsFound, IsUnique, IsStorable, TakesFitting, handle_lem, handle-IsUnique,
}
use pricestream.Commands.SameRows.{names_of, bulk_create-handle}
use pricestream.Tasks.{parse_all, bulk_create}
use pricestream.Tasks.Environment.{World, Services}
use pricestream.Tasks.Samples.{services, empty}

abbrev fits : Text → Text → Text → Bool
fits symbol base quote = leb (length symbol) 20 && leb (length base) 10 && leb (length quote) 10

abbrev defaults : Defaults
defaults = record {
  new_pk = length;
  now = λ rows. at moment (pos 0);
  insert = λ table row. if fits row.symbol row.base row.quote then ok tt else raise value_error;
}

defaults-TakesFitting : TakesFitting defaults
defaults-TakesFitting table row free (s, b, q) = ground arith

abbrev all_fit : List (Text × Text × Text) → Bool
all_fit [] = true
all_fit ((symbol, base, quote) ∷ ps) =
    let rest = all_fit ps in if fits symbol base quote then rest else false

-- The services of the tests, with a database that has the columns.
abbrev database : Services
database = record services { insert_all = λ ps. if all_fit ps then ok tt else raise value_error }

database_takes :
    (ps : List (Text × Text × Text))
    → All (λ n. FitsColumns n.0 (n.1, n.2)) ps
    → database.insert_all ps ≡ ok tt
database_takes ps h = rw (fit ps h)
  where
    fit :
        (ps : List (Text × Text × Text))
        → All (λ n. FitsColumns n.0 (n.1, n.2)) ps
        → all_fit ps ≡ true
    fit [] h = refl
    fit ((symbol, base, quote) ∷ ps) ((s, b, q), h) = let rest = fit ps h in ground arith

-- A name of eleven letters: the command keeps the row before it and raises.
one_refused :
    handle defaults (text "BTC-USDT" ∷ text "ABCDEFGHIJK-USD" ∷ []) (btc ∷ [])
    ≡ (raise value_error, btc ∷ [])
unfolding handle create_rows get_or_create find_instrument parse_symbol partition upper to_upper
    text_eq
one_refused = refl

abbrev symbols : List Text
symbols = text "BTC-USDT" ∷ text "ETH-USDT" ∷ []

symbols_fit : All IsStorable symbols
unfolding parse_symbol partition upper to_upper
symbols_fit = (
  ((text "BTC", text "USDT"), refl, (omega arith, omega arith, omega arith)),
  (((text "ETH", text "USDT"), refl, (omega arith, omega arith, omega arith)), tt),
)

one_created : (handle defaults symbols (btc ∷ [])).0 ≡ ok 1
unfolding handle create_rows get_or_create find_instrument parse_symbol partition upper to_upper
    text_eq
one_created = refl

handle_lem_example :
    (new : List Instrument) × (handle defaults symbols (btc ∷ [])
      ≡ (ok (length new), (btc ∷ []) ++ new))
    × All (λ s. IsFound s ((btc ∷ []) ++ new)) symbols
    × (handle defaults symbols ((btc ∷ []) ++ new) ≡ (ok 0, (btc ∷ []) ++ new))
handle_lem_example = handle_lem defaults defaults-TakesFitting symbols (btc ∷ []) symbols_fit

handle-IsUnique_example :
    (new : List Instrument) × ((handle defaults symbols (btc ∷ [])).1 ≡ (btc ∷ []) ++ new)
    × IsUnique ((btc ∷ []) ++ new)
unfolding find_instrument
handle-IsUnique_example = handle-IsUnique defaults symbols (btc ∷ []) (refl, tt)

abbrev pairs : List (Text × Text × Text)
pairs = (text "BTC-USDT", text "BTC", text "USDT") ∷ (text "ETH-USDT", text "ETH", text "USDT") ∷ []

parsed : parse_all database 11 1074 symbols ≡ ok pairs
unfolding parse_all parse_symbol partition upper to_upper
parsed = refl

bulk_create-handle_example :
    (w : World) × (bulk_create database 11 1074 pairs empty ≡ (ok tt, w))
    × (map names_of w.instruments ≡ map names_of (handle defaults symbols empty.instruments).1)
bulk_create-handle_example =
    bulk_create-handle database 11 1074 defaults defaults-TakesFitting database_takes symbols pairs
      empty parsed
      ((omega arith, omega arith, omega arith), ((omega arith, omega arith, omega arith), tt))
