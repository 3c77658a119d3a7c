-- ===== src/Consumer.antt =====
-- The events of apps/pricing/kafka_consumer.py: `handle_event`, and the loop of `run_consumer`.
pub mod Events
pub mod Loop
pub mod Returns
mod Tests
use pricestream.Base.{
  ℕ, ◌+◌, Bool, true, false, ◌&&◌, not, Option, none, some, List, [], ◌∷◌, leb, if◌then◌else◌,
}
use pricestream.Base.Text.{Text, text, text_eq}
use pricestream.Base.Result.{
  Exn, value_error, type_error, attribute_error, key_error, Result, ok, raise, ◌>>=◌,
}
use pricestream.Json.{Json, null, boolean, number, string, array, object, Members, get, truthy}
use pricestream.Decimal.{Decimal, from_int, add, div}
use pricestream.Clock.{Datetime}
use pricestream.Models.{Instrument, Interval, m1, m5, h1, OhlcBar}
use pricestream.Ohlc.{update_bar}

-- What the consumer calls and does not implement.
pub record Platform : Type 0 where
  -- what a `DecimalField` keeps of a value
  pub column : Decimal → Result Decimal
  -- `Decimal(value)` of a value of the payload
  pub to_decimal : Json → Result Decimal
  -- `datetime.fromisoformat`
  pub from_iso : Text → Result Datetime
  -- the text that the database compares a symbol with, where the payload has no string
  pub as_text : Json → Text

-- `Instrument.objects.get(symbol=…)`
unfoldable pub find_instrument : Text → List Instrument → Option Instrument
find_instrument symbol [] = none
find_instrument symbol (i ∷ is) =
    if text_eq i.symbol symbol then some i else find_instrument symbol is

-- An event that is to be counted in: the instrument, the time and the mid.
pub record Tick : Type 0 where
  pub instrument : Instrument
  pub ts : Datetime
  pub mid : Decimal

abbrev pub intervals : List Interval
intervals = m1 ∷ m5 ∷ h1 ∷ []

module _ (P : Platform) where
  abbrev symbol_text : Json → Text
  symbol_text (string s) = s
  symbol_text null = P.as_text null
  symbol_text (boolean b) = P.as_text (boolean b)
  symbol_text (number n) = P.as_text (number n)
  symbol_text (array vs) = P.as_text (array vs)
  symbol_text (object vs) = P.as_text (object vs)

  -- `payload.get("instrument")`, and the instrument of that symbol
  unfoldable pub instrument_of : List Instrument → Members → Option Instrument
  instrument_of instruments ms = elim (get (text "instrument") ms) [
    | none ↦ none
    | some symbol ↦ if truthy symbol then find_instrument (symbol_text symbol) instruments else none
  ]

  -- `Decimal(payload[key])`
  unfoldable pub price_at : Text → Members → Result Decimal
  price_at key ms = elim (get key ms) [ none ↦ raise key_error | some v ↦ P.to_decimal v ]

  -- `try: …` around the two prices, of which every exception ends the call
  unfoldable pub prices_of : Members → Option (Decimal × Decimal)
  unfolding price_at
  prices_of ms =
      let read = do bid ← price_at (text "bid") ms; ask ← price_at (text "ask") ms; ok (bid, ask)
      in elim read [ ok prices ↦ some prices | raise _ ↦ none ]

  -- `contextlib.suppress(ValueError)` around `fromisoformat`: other exceptions pass.
  abbrev or_now : Datetime → Result Datetime → Result Datetime
  or_now now (ok ts) = ok ts
  or_now now (raise value_error) = ok now
  or_now now (raise x) = raise x

  abbrev stamp : Datetime → Json → Result Datetime
  stamp now (string s) = or_now now (P.from_iso s)
  stamp now v = raise type_error

  unfoldable pub timestamp_of : Datetime → Members → Result Datetime
  timestamp_of now ms = elim (get (text "ts") ms) [
    | none ↦ ok now
    | some v ↦ if truthy v then stamp now v else ok now
  ]

  -- The part of `handle_event` before its loop; `none` is an early return. What has no `get` raises.
  unfoldable pub read_members : ℕ → List Instrument → Datetime → Members → Result (Option Tick)
  read_members e instruments now ms = elim (instrument_of instruments ms) [
    | none ↦ ok none
    | some i ↦ elim (prices_of ms) [
      | none ↦ ok none
      | some (bid, ask) ↦ do
        mid ← div e (add bid ask) (from_int e 2)
        ts ← timestamp_of now ms
        ok (some (record { instrument = i; ts = ts; mid = mid }))
    ]
  ]

  unfoldable pub read_event : ℕ → List Instrument → Datetime → Json → Result (Option Tick)
  read_event e instruments now (object ms) = read_members e instruments now ms
  read_event e instruments now v = raise attribute_error

  -- `for interval in …: _update_bar(…)`. Each update is a transaction of its own: what the earlier
  -- ones wrote stays where a later one raises.
  unfoldable pub update_bars :
      ℕ → Tick → List Interval → List OhlcBar → Result (Unit {0}) × List OhlcBar
  update_bars g t [] bars = (ok tt, bars)
  update_bars g t (i ∷ is) bars = elim (update_bar P.column g t.instrument.pk i t.ts t.mid bars) [
    | ok bars' ↦ update_bars g t is bars'
    | raise x ↦ (raise x, bars)
  ]

  unfoldable pub handle_event :
      ℕ → ℕ → List Instrument → Datetime → Json → List OhlcBar → Result (Unit {0}) × List OhlcBar
  handle_event e g instruments now payload bars = elim (read_event e instruments now payload) [
    | raise x ↦ (raise x, bars)
    | ok none ↦ (ok tt, bars)
    | ok (some t) ↦ update_bars g t intervals bars
  ]

-- What `consumer.poll(1.0)` returned: nothing, an error, or a message with what decoding and
-- `json.loads` made of it.
pub data Poll : Type 0 where
  nothing : Poll
  failed : Poll
  message : Result Json → Poll

-- One round of the loop: whether a signal came before its test of `running` or after, what was
-- polled, and the reading of the clock.
pub record Round : Type 0 where
  pub stopped_before : Bool
  pub stopped_after : Bool
  pub poll : Poll
  pub now : Datetime

-- How the call ended; `waiting` where the rounds run out, and the loop would poll again.
pub data Ending : Type 0 where
  returned : ℕ → Ending
  died : Exn → Ending
  waiting : ℕ → Ending

-- `stop_after is not None and processed >= stop_after`
abbrev pub is_enough : Option ℕ → ℕ → Bool
is_enough none processed = false
is_enough (some n) processed = leb n processed

-- The event of a round, if a message came and could be decoded.
abbrev pub event_of : Poll → Option Json
event_of nothing = none
event_of failed = none
event_of (message (raise x)) = none
event_of (message (ok payload)) = some payload

module _ (P : Platform) (e g : ℕ) (instruments : List Instrument) (stop_after : Option ℕ) where
  unfoldable pub loop : ℕ → Bool → List Round → List OhlcBar → Ending × List OhlcBar
  loop processed running [] bars = (if running then waiting processed else returned processed, bars)
  loop processed running (r ∷ rs) bars =
      let running' = running && not r.stopped_after in
      elim (running && not r.stopped_before) [
        | false ↦ (returned processed, bars)
        | true ↦ elim (event_of r.poll) [
          | none ↦ loop processed running' rs bars
          | some payload ↦
              let (r', bars') = handle_event P e g instruments r.now payload bars in
              elim r' [
                | raise x ↦ (died x, bars')
                | ok _ ↦ elim (is_enough stop_after (processed + 1)) [
                  | true ↦ (returned (processed + 1), bars')
                  | false ↦ loop (processed + 1) running' rs bars'
                ]
              ]
        ]
      ]

  -- `run_consumer`
  unfoldable pub run_consumer : List Round → List OhlcBar → Ending × List OhlcBar
  unfolding loop
  run_consumer = loop 0 true
