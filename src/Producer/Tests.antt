-- ===== src/Producer/Tests.antt =====
-- Two threads that meet in `_get_producer`, and a quote on its way to the bars.
use pricestream.Base.{List, ◌++◌, if◌then◌else◌, ℕ, ◌≡◌, ◌≤◌, refl, ◌⊎◌, Option, some, [], ◌∷◌}
use pricestream.Base.Int.{pos}
use mathlib.Core.Path.{subst}
use pricestream.Base.Text.{Text, text, text_eq}
use pricestream.Base.Result.{Result, ok, raise, value_error, ok-injective}
use pricestream.Json.{Json, Members, end, member, object, string}
use pricestream.Decimal.{add, div, fix, magnitude}
use pricestream.Rounding.{round, half_even, excess}
use pricestream.Base.Int.{◌+ℤ◌}
use pricestream.Models.{Quote, mid_of}
use pricestream.Ohlc.Bucket.{at}
use pricestream.Samples.{moment, dollars, btc}
use pricestream.Consumer.{find_instrument, intervals, update_bars, handle_event}
use pricestream.Producer.{
  Kafka, Message, publish_quote, produce_quote, returned, unseen, enter, seen_inside, unseen_inside,
  construct, store, leave, read, System, pick, Reach, first, later, payload_of,
}
use pricestream.Samples.Wire.{str, isoformat, platform, platform-IsWire}
use pricestream.Producer.Progress.{IsDone, IsHolder, Leads, get_producer_progress}
use pricestream.Producer.Safety.{get_producer-single}
use pricestream.Producer.Wire.{handle_event-publish_quote}

-- Both threads find no producer; thread 0 takes the lock.
abbrev met : (s : System) × Reach s
met = (
  _,
  later (later (later first (pick 0 (unseen refl))) (pick 1 (unseen refl))) (pick 0 (enter refl)),
)

-- Thread 0 constructs and returns; then thread 1 takes the lock, finds the producer and returns it.
abbrev finished : (s : System) × Reach s
finished = (
  _,
  later
      (later
        (later
          (later
            (later
              (later
                (later (later (later met.1 (pick 0 (unseen_inside refl))) (pick 0 construct))
                  (pick 0 store))
                (pick 0 leave))
              (pick 0 read))
            (pick 1 (enter refl)))
          (pick 1 (seen_inside refl)))
        (pick 1 leave))
      (pick 1 read),
)

both_return : (finished.0.pc 0 ≡ returned (some 0)) × (finished.0.pc 1 ≡ returned (some 0))
both_return = (refl, refl)

get_producer-single_example :
    (finished.0.shared.constructed ≤ 1)
    × ((i : ℕ) (o : Option ℕ) → finished.0.pc i ≡ returned o → o ≡ some 0)
get_producer-single_example = get_producer-single finished.0 finished.1

get_producer_progress_example :
    (j : ℕ) × (IsHolder met.0 j ⊎ (j ≡ 1)) × (t : System) × Leads 1 j met.0 t × IsDone (t.pc 1)
get_producer_progress_example = get_producer_progress met.0 met.1 1

abbrev quote : Quote
quote = record {
  instrument = 1;
  source = text "kraken";
  bid = dollars 100;
  ask = dollars 102;
  timestamp = at moment (pos 0);
}

-- The texts of the payload, one behind the other, and their reading.
abbrev texts_of : Members → Text
texts_of end = []
texts_of (member key (string (c ∷ d ∷ cs)) ms) = c ∷ d ∷ texts_of ms
texts_of (member key v ms) = texts_of ms

abbrev kafka : Kafka
kafka = record {
  encode = λ s. ok s;
  dumps = λ v. elim v [ object ms ↦ texts_of ms | _ ↦ [] ];
  produce = λ p topic key value. ok tt;
  poll = λ p. ok tt;
  flush = λ p. ok tt;
}

abbrev sent_message : Message
sent_message = record {
  topic = text "quotes";
  key = btc.symbol;
  value = kafka.dumps (payload_of str isoformat btc.symbol quote);
}

-- A reading of one message.
abbrev loads_sent : List ℕ → Result Json
loads_sent value =
    if text_eq value sent_message.value
    then ok (payload_of str isoformat btc.symbol quote)
    else raise value_error

handle_event-publish_quote_example :
    (m : Message) × (payload : Json) × ((sent_message ∷ []) ≡ [] ++ m ∷ [])
    × (m.topic ≡ text "quotes")
    × (kafka.encode btc.symbol ≡ ok m.key)
    × (loads_sent m.value ≡ ok payload)
    × (handle_event platform 11 1074 (btc ∷ []) (at 0 (pos 0)) payload []
        ≡ update_bars platform 1074
            (record { instrument = btc; ts = quote.timestamp; mid = dollars 101 })
            intervals
            [])
unfolding find_instrument text_eq mid_of add div fix magnitude round half_even excess ◌+ℤ◌
    publish_quote produce_quote payload_of
handle_event-publish_quote_example =
    handle_event-publish_quote kafka platform str isoformat (text "quotes") loads_sent (ok 0) 11
      1074 (btc ∷ []) (at 0 (pos 0)) btc quote (dollars 101) b'B' (text "TC-USDT") []
      (sent_message ∷ []) [] platform-IsWire
      (record {
        same = λ bytes written.
            subst (λ b. loads_sent b ≡ ok (payload_of str isoformat btc.symbol quote))
              (ok-injective _ bytes written) refl;
      })
      refl refl refl refl
