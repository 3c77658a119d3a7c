-- ===== src/Pipeline.antt =====
-- From the exchanges to the bars: a round of `fetch_quotes` (apps/pricing/tasks.py), the messages that
-- Kafka took of it, and `run_consumer` (apps/pricing/kafka_consumer.py) on them.
pub mod Messages
mod Tests
use pricestream.Base.{ℕ, ◌+◌, ◌≤◌, ◌≡◌, Option, List, [], ◌∷◌, map, All, All-append}
use pricestream.Base.Text.{Text}
use pricestream.Base.Result.{Result, raise}
use pricestream.Json.{Json}
use pricestream.Clock.{Datetime}
use pricestream.Decimal.{Decimal, add}
use pricestream.Decimal.Signed.{over}
use pricestream.Models.{Instrument, Source, Quote, Interval, m1, m5, h1}
use pricestream.Ohlc.Refinement.{Call}
use pricestream.Consumer.{Platform, find_instrument, intervals}
use pricestream.Consumer.Events.{calls_of}
use pricestream.Producer.{payload_of}
use pricestream.Tasks.Effects.{Rows}
use pricestream.Tasks.Reports.{
  quote_of, taken, Polled, finished, missed, quoted, Report, Reports, no_more, report,
}
use pricestream.Tasks.Lineage.{fetch_quotes-Reports}
use pricestream.Pipeline.Messages.{IsKnown, IsAbout}

-- The mid of a quote, without the error of a division: two divides every sum.
abbrev pub mid : Quote → Decimal
mid q = over (add q.bid q.ask) 2

-- The updates of the bars that a message asks for.
abbrev pub message_calls : List (Text × Quote) → List Call
message_calls [] = []
message_calls ((symbol, q) ∷ ms) =
    record { instrument = q.instrument; interval = m1; ts = q.timestamp; price = mid q }
    ∷ record { instrument = q.instrument; interval = m5; ts = q.timestamp; price = mid q }
    ∷ record { instrument = q.instrument; interval = h1; ts = q.timestamp; price = mid q }
    ∷ message_calls ms

module _ (P : Platform) (str : Decimal → Text) (isoformat : Datetime → Text)
    (table : List Instrument) (e h : ℕ) where
  -- The events are those of the messages, in their order.
  abbrev pub Delivers : List (Datetime × Json) → List (Text × Quote) → Type 0
  Delivers [] [] = Unit
  Delivers [] (m ∷ ms) = ⊥
  Delivers (ev ∷ es) [] = ⊥
  Delivers (ev ∷ es) (m ∷ ms) = (ev.1 ≡ payload_of str isoformat m.0 m.1) × Delivers es ms

  abbrev AllTraced : List (Text × Quote) → Type 0
  AllTraced ms = All (λ m. (i : Instrument) × IsKnown table i × IsAbout i m) ms
