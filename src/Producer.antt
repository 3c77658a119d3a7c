-- ===== src/Producer.antt =====
-- apps/pricing/kafka_producer.py: `publish_quote`, `flush`, and `_get_producer` run by many threads.
pub mod Invariant
pub mod Progress
pub mod Safety
pub mod Wire
mod Tests
use pricestream.Base.{List, [], ◌∷◌, ◌++◌, ℕ, ◌+◌, ◌≡◌, Option, none, some, ◌==◌, if◌then◌else◌}
use pricestream.Base.Text.{Text, text}
use pricestream.Json.{Json, string, object, member, end}
use pricestream.Base.Result.{Result, ok, raise, ◌>>=◌}
use pricestream.Decimal.{Decimal}
use pricestream.Clock.{Datetime}
use pricestream.Models.{Quote}

-- `payload` of `publish_quote`, for the texts that `str` and `isoformat` give
unfoldable pub payload_of : (Decimal → Text) → (Datetime → Text) → Text → Quote → Json
payload_of str isoformat symbol quote = object (
    member (text "instrument") (string symbol) (
      member (text "source") (string quote.source) (
        member (text "bid") (string (str quote.bid)) (
          member (text "ask") (string (str quote.ask))
            (member (text "ts") (string (isoformat quote.timestamp)) end)))))

-- What the functions call and do not implement; a producer is known by its number.
pub record Kafka : Type 0 where
  -- `str.encode("utf-8")` and `json.dumps`
  pub encode : Text → Result (List ℕ)
  pub dumps : Json → Text
  -- `produce`, for the topic, the key and the value, `poll(0)`, and `flush`
  pub produce : ℕ → Text → List ℕ → List ℕ → Result (Unit {0})
  pub poll : ℕ → Result (Unit {0})
  pub flush : ℕ → Result (Unit {0})

-- A message that a producer took.
pub record Message : Type 0 where
  pub topic : Text
  pub key : List ℕ
  pub value : List ℕ

-- `publish_quote` to its call of `produce`, for what `_get_producer()` gave: the producer and the
-- message that it took.
unfoldable pub produce_quote :
    Kafka
    → (Decimal → Text)
    → (Datetime → Text)
    → Text
    → Result ℕ
    → Text
    → Quote
    → Result (ℕ × Message)
produce_quote K str isoformat topic producer symbol quote = do
  p ← producer
  key ← K.encode symbol
  value ← K.encode (K.dumps (payload_of str isoformat symbol quote))
  _ ← K.produce p topic key value
  ok (p, record { topic = topic; key = key; value = value })

-- `publish_quote`, with the messages that were taken before.
unfoldable pub publish_quote :
    Kafka
    → (Decimal → Text)
    → (Datetime → Text)
    → Text
    → Result ℕ
    → Text
    → Quote
    → List Message
    → Result (Unit {0}) × List Message
unfolding produce_quote
publish_quote K str isoformat topic producer symbol quote messages =
    elim (produce_quote K str isoformat topic producer symbol quote) [
      | raise x ↦ (raise x, messages)
      | ok (p, m) ↦ (K.poll p, messages ++ m ∷ [])
    ]

-- `flush`, for the value of `_producer`
abbrev pub flush : Kafka → Option ℕ → Result (Unit {0})
flush K none = ok tt
flush K (some p) = K.flush p

-- `_producer`, `_lock` with the thread that holds it, and how many producers were constructed: the
-- k-th is number k, from 0.
pub record Shared : Type 0 where
  pub producer : Option ℕ
  pub lock : Option ℕ
  pub constructed : ℕ

abbrev pub unused : Shared
unused = record { producer = none; lock = none; constructed = 0 }

-- Where a thread stands in `_get_producer`.
pub data Pc : Type 0 where
  start : Pc  -- at the first `if`
  waiting : Pc  -- at the `with`
  holding : Pc  -- at the second `if`
  making : Pc  -- at the call of `Producer`
  made : ℕ → Pc  -- at the assignment
  leaving : Pc  -- at the end of the `with`
  failing : Pc  -- the same, with an exception on its way
  reading : Pc  -- at a `return _producer`
  returned : Option ℕ → Pc
  failed : Pc

-- A step of thread i: one test, call, assignment or operation on the lock.
pub data Move (i : ℕ) (m : Shared) : Pc → Shared → Pc → Type 0 where
  seen : {p : ℕ} → m.producer ≡ some p → Move i m start m reading
  unseen : m.producer ≡ none → Move i m start m waiting
  enter : m.lock ≡ none → Move i m waiting (record m { lock = some i }) holding
  seen_inside : {p : ℕ} → m.producer ≡ some p → Move i m holding m leaving
  unseen_inside : m.producer ≡ none → Move i m holding m making
  construct : Move i m making (record m { constructed = m.constructed + 1 }) (made m.constructed)
  reject : Move i m making m failing
  store : {p : ℕ} → Move i m (made p) (record m { producer = some p }) leaving
  leave : Move i m leaving (record m { lock = none }) reading
  abort : Move i m failing (record m { lock = none }) failed
  read : Move i m reading m (returned m.producer)

abbrev pub update : (ℕ → Pc) → ℕ → Pc → ℕ → Pc
update f i p j = if i == j then p else f j

-- All threads that call, in any order of their steps.
pub record System : Type 0 where
  pub shared : Shared
  pub pc : ℕ → Pc

pub data Step (s : System) : System → Type 0 where
  pick :
      (i : ℕ) {m : Shared} {p : Pc}
      → Move i s.shared (s.pc i) m p
      → Step s (record { shared = m; pc = update s.pc i p })

pub data Reach : System → Type 0 where
  first : Reach (record { shared = unused; pc = λ _. start })
  later : {s t : System} → Reach s → Step s t → Reach t
