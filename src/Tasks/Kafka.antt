-- ===== src/Tasks/Kafka.antt =====
-- What Kafka does changes nothing but its own counters.
use pricestream.Base.{
  ℕ, ◌+◌, ◌≡◌, refl, ◌∙◌, ap, inl, inr, true, Bool-cases, if◌then◌else◌, List, [], ◌∷◌, ◌++◌,
}
use pricestream.Base.Text.{Text}
use pricestream.Clock.{Datetime}
use pricestream.Base.Result.{Result, Result-cases, ok}
use pricestream.Models.{Instrument, Quote, parse_symbol}
use pricestream.Exchanges.{all_clients}
use pricestream.Tasks.Environment.{World, Services}
use pricestream.Tasks.{
  has_symbol, parse_all, create_missing, bulk_create, polled, poll_instrument, poll_instruments,
  fetch_quotes,
}
use pricestream.Tasks.Agreement.{
  quiet, Same, Agree, Agree-lift, Agree-call, Agree-write, Agree-next,
}
use pricestream.Tasks.Steps.{other, poll_clients-Agree, run_consolidate-Agree, settle-Agree}

module _ (S : Services) (publish : ℕ → Text → Quote → Result (Unit {0})) (e g : ℕ) where
  abbrev others : Services
  others = other S publish e g

  poll_instruments-Agree :
      (is : List Instrument) (w w' : World)
      → Same w w'
      → Agree (poll_instruments S e g is w) (poll_instruments others e g is w')
  unfolding poll_instruments poll_instrument
  poll_instruments-Agree [] w w' h = Agree-lift (ok _) h
  poll_instruments-Agree (i ∷ is) w w' h =
      Agree-next
        (Agree-next (poll_clients-Agree S publish e g i all_clients w w' h) (λ quotes w w' h.
          Agree-next (run_consolidate-Agree S publish e g quotes w w' h)
            (λ c w w' h. settle-Agree S publish e g i quotes c w w' h)))
        (λ first w w' h.
          Agree-next (poll_instruments-Agree is w w' h) (λ others w w' h. Agree-lift (ok _) h))

  parse_all-same : (ss : List Text) → parse_all S e g ss ≡ parse_all others e g ss
  unfolding parse_all
  parse_all-same [] = refl
  parse_all-same (s ∷ ss) = elim (Result-cases (parse_symbol s)) [
    | inl (names, p) ↦ rw (parse_all, p, parse_all-same ss) refl
    | inr (x, p) ↦ rw (parse_all, p) refl
  ]

  abbrev insert_missing : Text → Text → Text → Datetime → World → World
  insert_missing s base quote at v = if has_symbol s v.instruments then v else record v {
    instruments =
        v.instruments
        ++ record {
          pk = S.new_pk v.instruments;
          symbol = s;
          base = base;
          quote = quote;
          is_active = true;
          created_at = at;
        }
          ∷ [];
  }

  insert_missing-blind :
      (s base quote : Text) (at : Datetime) (v : World)
      → quiet (insert_missing s base quote at v) ≡ quiet (insert_missing s base quote at (quiet v))
  insert_missing-blind s base quote at v = elim (Bool-cases (has_symbol s v.instruments)) [
    | inl old ↦ rw old refl
    | inr new ↦ rw new refl
  ]

  create_missing-Agree :
      (ps : List (Text × Text × Text)) (w w' : World)
      → Same w w'
      → Agree (create_missing S e g ps w) (create_missing others e g ps w')
  unfolding create_missing
  create_missing-Agree [] w w' h = Agree-lift (ok tt) h
  create_missing-Agree ((s, base, quote) ∷ ps) w w' h =
      Agree-next (Agree-call (λ t. ok (S.now t)) h) (λ at w w' h.
        Agree-next
          (Agree-write (insert_missing s base quote at) w w' (insert_missing-blind s base quote at)
            h)
          (λ _ w w' h. create_missing-Agree ps w w' h))

  bulk_create-Agree :
      (ps : List (Text × Text × Text)) (w w' : World)
      → Same w w'
      → Agree (bulk_create S e g ps w) (bulk_create others e g ps w')
  unfolding bulk_create
  bulk_create-Agree ps w w' h =
      Agree-next (Agree-lift (S.insert_all ps) h) (λ _ w w' h. create_missing-Agree ps w w' h)

  polled-same : (is : List Instrument) → polled S e g is ≡ polled others e g is
  unfolding polled
  polled-same [] = refl
  polled-same (i ∷ is) = rw (polled-same is) refl

  -- Whatever Kafka does, a round returns or raises the same, and leaves the same tables, cache, messages
  -- to the clients, gauges and counters but the messages that Kafka took and the two counters of them.
  pub fetch_quotes-Agree : (w : World) → Agree (fetch_quotes S e g w) (fetch_quotes others e g w)
  unfolding fetch_quotes
  fetch_quotes-Agree w =
      Agree-next
        (rw (parse_all-same S.instruments) (Agree-lift (parse_all others e g S.instruments) refl))
        (λ missing w w' h. Agree-next (bulk_create-Agree missing w w' h) (λ _ w w' h.
          Agree-next (polled-Agree w w' h) (λ is w w' h.
            Agree-next (poll_instruments-Agree is w w' h) (λ counts w w' h.
              Agree-next
                (Agree-write (λ v. record v { rounds_observed = v.rounds_observed + 1 }) w w'
                  (λ v. refl) h)
                (λ _ w w' h. Agree-lift (ok counts) h)))))
    where
      polled-Agree :
          (w w' : World)
          → Same w w'
          → Agree
              (ok (S.ordered (polled S e g w.instruments)), w)
              (ok (S.ordered (polled others e g w'.instruments)), w')
      polled-Agree w w' h = record {
        result =
            ap (λ v. ok (S.ordered (polled S e g v.instruments))) h
            ∙ ap (λ is. ok (S.ordered is)) (polled-same w'.instruments);
        worlds = h;
      }
