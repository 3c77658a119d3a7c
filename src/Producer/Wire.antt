-- ===== src/Producer/Wire.antt =====
-- From the producer to the consumer: a quote that is published is the event that is counted in.
use pricestream.Base.{ℕ, ◌≡◌, sym, ◌∙◌, true, some, List, [], ◌∷◌, ◌++◌, inl, inr, refl, ap, arith}
use pricestream.Base.Text.{Text, text, text_eq}
use pricestream.Base.Result.{Result, Result-cases, ok, raise, Exn, bind-ok, ok-injective}
use pricestream.Json.{Json, string, Members, member, end, get, truthy}
use pricestream.Decimal.{Decimal, add}
use pricestream.Decimal.Signed.{over, div-from_int}
use pricestream.Clock.{Datetime}
use pricestream.Models.{Instrument, Quote, mid_of, OhlcBar}
use pricestream.Consumer.{
  Platform, find_instrument, instrument_of, price_at, prices_of, timestamp_of, read_members,
  read_event, intervals, update_bars, handle_event,
}
use pricestream.Producer.{Kafka, Message, payload_of, produce_quote, publish_quote}

-- `Decimal(str(d))` is d, `fromisoformat(t.isoformat())` is t, and such a text is not empty.
pub record IsWire (P : Platform) (str : Decimal → Text) (isoformat : Datetime → Text) : Type 0 where
  pub decimal : (d : Decimal) → P.to_decimal (string (str d)) ≡ ok d
  pub datetime : (t : Datetime) → P.from_iso (isoformat t) ≡ ok t
  pub some_text : (t : Datetime) → (c : ℕ) × (cs : Text) × (isoformat t ≡ c ∷ cs)

-- The three parts of an event that can be counted in.
read_members-parts :
    (P : Platform) (e : ℕ) (instruments : List Instrument) (now ts : Datetime) (ms : Members)
    → (i : Instrument) (bid ask : Decimal) → instrument_of P instruments ms ≡ some i
    → prices_of P ms ≡ some (bid, ask)
    → timestamp_of P now ms ≡ ok ts
    → read_members P e instruments now ms
      ≡ ok (some (record { instrument = i; ts = ts; mid = over (add bid ask) 2 }))
unfolding read_members
read_members-parts P e instruments now ts ms i bid ask known priced stamped =
    rw (read_members, known, priced, div-from_int e (add bid ask) 2 (omega arith), stamped)

truthy_text : (s : Text) (c : ℕ) (cs : Text) → s ≡ c ∷ cs → truthy (string s) ≡ true
unfolding truthy
truthy_text s c cs h = rw h

module _ (P : Platform) (str : Decimal → Text) (isoformat : Datetime → Text) where
  abbrev sent : Text → Quote → Members
  sent symbol quote = member (text "instrument") (string symbol) (
      member (text "source") (string quote.source) (
        member (text "bid") (string (str quote.bid)) (
          member (text "ask") (string (str quote.ask))
            (member (text "ts") (string (isoformat quote.timestamp)) end))))

  sent-instrument :
      (instruments : List Instrument) (i : Instrument) (q : Quote) (c : ℕ) (cs : Text)
      → i.symbol ≡ c ∷ cs
      → find_instrument i.symbol instruments ≡ some i
      → instrument_of P instruments (sent i.symbol q) ≡ some i
  unfolding instrument_of get text_eq
  sent-instrument instruments i q c cs named found = rw (truthy_text i.symbol c cs named, found)

  sent-prices :
      (symbol : Text) (q : Quote)
      → IsWire P str isoformat
      → prices_of P (sent symbol q) ≡ some (q.bid, q.ask)
  unfolding prices_of price_at get text_eq
  sent-prices symbol q wire = rw (wire.decimal q.bid, wire.decimal q.ask)

  sent-timestamp :
      (now : Datetime) (symbol : Text) (q : Quote)
      → IsWire P str isoformat
      → timestamp_of P now (sent symbol q) ≡ ok q.timestamp
  unfolding timestamp_of get text_eq
  sent-timestamp now symbol q wire =
      let (c, cs, stamp) = wire.some_text q.timestamp in
      rw (truthy_text (isoformat q.timestamp) c cs stamp, wire.datetime q.timestamp)

  -- What is sent for a quote of a stored instrument is read as a tick of that instrument, at the time
  -- of the quote, with its mid.
  pub read_event-payload_of :
      (e : ℕ) (instruments : List Instrument) (now : Datetime) (i : Instrument) (q : Quote)
      → (c : ℕ) (cs : Text) → IsWire P str isoformat
      → i.symbol ≡ c ∷ cs
      → find_instrument i.symbol instruments ≡ some i
      → read_event P e instruments now (payload_of str isoformat i.symbol q)
        ≡ ok (some (record { instrument = i; ts = q.timestamp; mid = over (add q.bid q.ask) 2 }))
  unfolding read_event payload_of
  read_event-payload_of e instruments now i q c cs wire named found =
      read_members-parts P e instruments now q.timestamp (sent i.symbol q) i q.bid q.ask
        (sent-instrument instruments i q c cs named found) (sent-prices i.symbol q wire)
        (sent-timestamp now i.symbol q wire)

  -- Its payload is handled as the three updates with the time and the mid of the quote.
  handle_event-payload_of :
      (e g : ℕ) (instruments : List Instrument) (now : Datetime) (i : Instrument) (q : Quote)
      → (mid : Decimal) (c : ℕ) (cs : Text) (bars : List OhlcBar) → IsWire P str isoformat
      → i.symbol ≡ c ∷ cs
      → find_instrument i.symbol instruments ≡ some i
      → mid_of e q ≡ ok mid
      → handle_event P e g instruments now (payload_of str isoformat i.symbol q) bars
        ≡ update_bars P g (record { instrument = i; ts = q.timestamp; mid = mid }) intervals bars
  unfolding handle_event mid_of
  handle_event-payload_of e g instruments now i q mid c cs bars wire named found halved =
      let same : over (add q.bid q.ask) 2 ≡ mid =
        ok-injective _ mid (sym (div-from_int e (add q.bid q.ask) 2 (omega arith)) ∙ halved) in
      rw (handle_event, read_event-payload_of e instruments now i q c cs wire named found, same)

-- `json.loads(value.decode("utf-8"))` reads what `json.dumps(v).encode("utf-8")` wrote.
pub record IsReadBack (K : Kafka) (loads : List ℕ → Result Json) (v : Json) : Type 0 where
  pub same : (bytes : List ℕ) → K.encode (K.dumps v) ≡ ok bytes → loads bytes ≡ ok v

module _ (K : Kafka) (str : Decimal → Text) (isoformat : Datetime → Text) (topic : Text) where
  raise-returned : (x : Exn) → ◌≡◌ {A = Result (Unit {0})} (raise x) (ok tt) → ⊥
  raise-returned x h = cc

  -- A call that returned had a producer take one message, of the payload.
  publish_quote-message :
      (producer : Result ℕ) (symbol : Text) (q : Quote) (old new : List Message)
      → publish_quote K str isoformat topic producer symbol q old ≡ (ok tt, new)
      → (m : Message) × (new ≡ old ++ m ∷ [])
        × (m.topic ≡ topic)
        × (K.encode symbol ≡ ok m.key)
        × (K.encode (K.dumps (payload_of str isoformat symbol q)) ≡ ok m.value)
  unfolding publish_quote produce_quote
  publish_quote-message producer symbol q old new run =
      elim (Result-cases (produce_quote K str isoformat topic producer symbol q)) [
        | inr (x, bad) ↦ absurd (raise-returned x (ap (λ u. u.0) (rw (publish_quote, bad) at run)))
        | inl ((p, m), taken) ↦
            let (p', p_run, rest) = bind-ok producer _ taken in
            let (key, key_run, rest) = bind-ok (K.encode symbol) _ rest in
            let (value, value_run, rest) =
              bind-ok (K.encode (K.dumps (payload_of str isoformat symbol q))) _ rest in
            let (u, u_run, same) = bind-ok (K.produce p' topic key value) _ rest in
            let is = ap {A = ℕ × Message} (λ t. t.1) (ok-injective _ (p, m) same) in
            (
              record { topic = topic; key = key; value = value },
              sym (ap (λ u. u.1) (rw (publish_quote, taken) at run))
                  ∙ ap {A = Message} (λ m. old ++ m ∷ []) (sym is),
              refl,
              key_run,
              value_run,
            )
      ]

module _ (K : Kafka) (P : Platform) (str : Decimal → Text) (isoformat : Datetime → Text)
    (topic : Text) where
  -- A call of `publish_quote` that returned had its producer take exactly one message, of the topic and
  -- with the symbol as its key. The value is read back as an event that the consumer counts into the
  -- three bars of the instrument, with the time and the mid of the quote.
  pub handle_event-publish_quote :
      (loads : List ℕ → Result Json) (producer : Result ℕ) (e g : ℕ) (instruments : List Instrument)
      → (now : Datetime) (i : Instrument) (q : Quote) (mid : Decimal) (c : ℕ) (cs : Text)
      → (old new : List Message) (bars : List OhlcBar) → IsWire P str isoformat
      → IsReadBack K loads (payload_of str isoformat i.symbol q)
      → i.symbol ≡ c ∷ cs
      → find_instrument i.symbol instruments ≡ some i
      → mid_of e q ≡ ok mid
      → publish_quote K str isoformat topic producer i.symbol q old ≡ (ok tt, new)
      → (m : Message) × (payload : Json) × (new ≡ old ++ m ∷ [])
        × (m.topic ≡ topic)
        × (K.encode i.symbol ≡ ok m.key)
        × (loads m.value ≡ ok payload)
        × (handle_event P e g instruments now payload bars
            ≡ update_bars P g
                (record { instrument = i; ts = q.timestamp; mid = mid })
                intervals
                bars)
  handle_event-publish_quote loads producer e g instruments now i q mid c cs old new bars wire codec
        named found halved run =
      let (m, one, on_topic, keyed, written) =
        publish_quote-message K str isoformat topic producer i.symbol q old new run in
      (
        m,
        payload_of str isoformat i.symbol q,
        one,
        on_topic,
        keyed,
        codec.same m.value written,
        handle_event-payload_of P str isoformat e g instruments now i q mid c cs bars wire named
            found halved,
      )
