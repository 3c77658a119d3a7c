-- ===== src/Consumer/Loop.antt =====
-- The loop of `run_consumer` against the events that it was sent.
use pricestream.Base.{ℕ, ◌+◌, ◌≡◌, none, some, List, [], ◌∷◌, ◌++◌, length}
use pricestream.Base.Result.{Result, ok}
use pricestream.Json.{Json}
use pricestream.Clock.{Datetime}
use pricestream.Decimal.{Decimal}
use pricestream.Models.{Instrument, OhlcBar}
use pricestream.Ohlc.Refinement.{Call, updates}
use pricestream.Consumer.{Platform, handle_event, Round, Ending, returned, died, waiting, event_of}
use pricestream.Consumer.Events.{calls_for}

-- What the rounds brought: the events that could be decoded, each with the time of its round.
unfoldable pub events : List Round → List (Datetime × Json)
events [] = []
events (r ∷ rs) =
    let rest = events rs in
    elim (event_of r.poll) [ none ↦ rest | some payload ↦ (r.now, payload) ∷ rest ]

pub events-silent :
    (r : Round) (rs : List Round) → event_of r.poll ≡ none → events (r ∷ rs) ≡ events rs
unfolding events
events-silent r rs h = rw (events, h)

pub events-sent :
    (r : Round) (rs : List Round) (payload : Json)
    → event_of r.poll ≡ some payload
    → events (r ∷ rs) ≡ (r.now, payload) ∷ events rs
unfolding events
events-sent r rs payload h = rw (events, h)

abbrev count_of : Ending → ℕ
count_of (returned k) = k
count_of (died x) = 0
count_of (waiting k) = 0

module _ (P : Platform) (e g : ℕ) (instruments : List Instrument) where
  unfoldable pub all_calls : List (Datetime × Json) → List Call
  all_calls [] = []
  all_calls (event ∷ es) = calls_for P e instruments event ++ all_calls es

  -- A call that counted k messages up from `processed` has read some of the rounds: k are the
  -- events in them, and the rows are what these made of the rows before.
  abbrev pub IsRead : ℕ → ℕ → List Round → List OhlcBar → List OhlcBar → Type 0
  IsRead processed k rounds bars bars' =
      (front : List Round) × (back : List Round) × (front ++ back ≡ rounds)
      × (k ≡ processed + length (events front))
      × (updates P.column g (all_calls (events front)) bars ≡ ok bars')

  abbrev pub event_result : Round → Json → List OhlcBar → Result (Unit {0}) × List OhlcBar
  event_result r payload bars = handle_event P e g instruments r.now payload bars
