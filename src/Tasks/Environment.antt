-- ===== src/Tasks/Environment.antt =====
-- What a round of `fetch_quotes` reads and writes, and the sequencing of its steps.
use pricestream.Base.Int.{ℤ}
use pricestream.Base.{ℕ, ◌+◌, Bool, List}
use pricestream.Base.Text.{Text}
use pricestream.Base.Result.{Result, ok, raise}
use pricestream.Json.{Json}
use pricestream.Decimal.{Decimal}
use pricestream.Clock.{Datetime}
use pricestream.Models.{Instrument, Source, Quote, ConsolidatedPrice, ArbitrageOpportunity}

-- The tables, in the order of the rows' creation; each counter as the list of the labels that it was
-- incremented with; the gauges, the cache and the messages as the list of what was written.
pub record World : Type 0 where
  -- the number of calls of the environment so far
  pub time : ℕ
  pub instruments : List Instrument
  pub quotes : List Quote
  pub prices : List ConsolidatedPrice
  pub opportunities : List ArbitrageOpportunity
  pub quotes_fetched_total : List (Text × Text)
  pub quotes_failed_total : List (Text × Text)
  pub consolidated_total : List Text
  pub stale_quotes_total : List (Text × Text)
  pub arbitrage_detected_total : List (Text × Text × Text)
  pub kafka_published_total : ℕ
  pub kafka_publish_failed_total : ℕ
  -- the number of rounds that `fetch_round_duration_seconds` has observed
  pub rounds_observed : ℕ
  pub last_mid_price : List (Text × Decimal)
  pub last_spread : List (Text × Decimal)
  pub cache : List (Text × ConsolidatedPrice)
  pub broadcasts : List (Text × ConsolidatedPrice)
  -- the calls of `publish_quote` that returned: the symbol and the quote
  pub published : List (Text × Quote)

-- The environment and the settings. What it does at a call may depend on the number of the call.
pub record Services : Type 0 where
  -- `settings.INSTRUMENTS` and `settings.MAX_QUOTE_AGE_SECONDS`
  pub instruments : List Text
  pub max_quote_age_seconds : ℤ
  -- `timezone.now()`
  pub now : ℕ → Datetime
  -- the answer of an exchange to the request for one of its symbols
  pub answer : ℕ → Source → Text → Result Json
  pub to_decimal : Json → Result Decimal
  -- what a `DecimalField(max_digits=24, decimal_places=10)` keeps of a value
  pub column : Decimal → Result Decimal
  -- the same for `decimal_places=4`, and `quantize(Decimal("0.0001"))`
  pub bps_column : Decimal → Result Decimal
  pub quantize_bps : Decimal → Result Decimal
  -- `publish_quote`, `cache.set` and `group_send`, which may raise
  pub publish : ℕ → Text → Quote → Result (Unit {0})
  pub set_cache : ℕ → Text → ConsolidatedPrice → Result (Unit {0})
  pub send : ℕ → Text → ConsolidatedPrice → Result (Unit {0})
  -- the insert of `bulk_create`, for the symbols, bases and quotes of its rows: one statement, which
  -- raises, and writes no row, where the database does not take some value
  pub insert_all : List (Text × Text × Text) → Result (Unit {0})
  -- the primary key of a new instrument, and whether there is a channel layer
  pub new_pk : List Instrument → ℕ
  pub has_layer : Bool
  -- `Meta.ordering`, by the database's order of the symbols
  pub ordered : List Instrument → List Instrument

-- What a step has written stays where a later one raises.
abbrev pub Action {ℓ} : Type ℓ → Type ℓ
Action A = World → Result A × World

abbrev pub done {ℓ} : {A : Type ℓ} → A → Action A
done a w = (ok a, w)

unfoldable pub next_of {ℓ κ} :
    {A : Type ℓ} {B : Type κ} → Result A × World → (A → Action B) → Result B × World
next_of (ok a, w) k = k a w
next_of (raise x, w) k = (raise x, w)

-- `f` and then `k`
infixl 5 ◌>>=◌
abbrev pub ◌>>=◌ {ℓ κ} : {A : Type ℓ} {B : Type κ} → Action A → (A → Action B) → Action B
f >>= k = λ w. next_of (f w) k

-- A computation that writes nothing.
abbrev pub lift {ℓ} : {A : Type ℓ} → Result A → Action A
lift r w = (r, w)

-- A call of the environment, which gets its number.
abbrev pub call {ℓ} : {A : Type ℓ} → (ℕ → Result A) → Action A
call f w = (f w.time, record w { time = w.time + 1 })

abbrev pub write : (World → World) → Action (Unit {0})
write f w = (ok tt, f w)
