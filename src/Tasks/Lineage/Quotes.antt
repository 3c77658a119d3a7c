-- ===== src/Tasks/Lineage/Quotes.antt =====
-- What the clients of an instrument add to the table of the quotes.
use pricestream.Base.{ℕ, ◌≡◌, refl, sym, inl, inr, Option, none, some, List, [], ◌∷◌, ◌++◌, length}
use pricestream.Base.Text.{Text}
use pricestream.Base.Result.{Result-cases}
use pricestream.Decimal.{Decimal}
use pricestream.Models.{Instrument, Source, Quote}
use pricestream.Exchanges.{fetch, symbol_for}
use pricestream.Tasks.Environment.{World, Services}
use pricestream.Tasks.After.{After, After-next, After-ok, After-mono}
use pricestream.Tasks.Effects.{
  Rows, nothing, both, rows, both-nothing, both_steps, only_quotes, only_published, After-result,
}
use pricestream.Tasks.Reports.{taken, quote_of, IsQuoteRow, Polled, finished, missed, quoted}
use pricestream.Tasks.{publish_to_kafka, create_quote, take_result, poll_clients}

abbrev pub quotes_and : List Quote → List (Text × Quote) → Rows
quotes_and qs ms = record nothing { quotes = qs; published = ms }

abbrev quotes_only : List Quote → Rows
quotes_only qs = quotes_and qs []

module _ (S : Services) (e g : ℕ) where
  publish_to_kafka-rows :
      (s : Text) (q : Quote) (w : World)
      → After ⊥
          (λ _ w'.
            rows w'
            ≡ both (rows w) (record nothing { published = taken (S.publish w.time s q) s q }))
          (publish_to_kafka S e g s q w)
  unfolding publish_to_kafka
  publish_to_kafka-rows s q w = elim (Result-cases (S.publish w.time s q)) [
    | inl (_, p) ↦ rw (publish_to_kafka, p) (After-ok (only_published (rows w) (s, q)))
    | inr (_, p) ↦ rw (publish_to_kafka, p) (After-ok (sym (both-nothing (rows w))))
  ]

  create_quote-IsQuoteRow :
      (q : Quote) (w : World)
      → After ⊥
          (λ _ w'.
            (row : Quote) × IsQuoteRow S e g q row
            × (rows w' ≡ both (rows w) (quotes_only (row ∷ []))))
          (create_quote S e g q w)
  unfolding create_quote
  create_quote-IsQuoteRow q w = After-next (
      After-result (S.column q.bid) w (λ bid bid_kept. After-next (
        After-result (S.column q.ask) w (λ ask ask_kept. After-ok (
          record q { bid = bid; ask = ask },
          record { bid = bid; ask = ask; bid_kept = bid_kept; ask_kept = ask_kept; same = refl },
          only_quotes (rows w) _,
        )))))

  -- What one client adds to the list of quotes.
  take_result-Polled :
      (i : Instrument) (source : Source) (r : Option (Decimal × Decimal)) (t : ℕ) (w : World)
      → fetch S.to_decimal source (S.answer t source (symbol_for source i.symbol)) ≡ r
      → After ⊥
          (λ qs w'.
            (ks : List Quote) × (ms : List (Text × Quote)) × ((sources : List Source)
                (others kept : List Quote) (messages : List (Text × Quote))
              → Polled S e g i sources others kept messages
              → Polled S e g i (source ∷ sources) (qs ++ others) (ks ++ kept) (ms ++ messages))
            × (rows w' ≡ both (rows w) (quotes_and ks ms)))
          (take_result S e g i source r w)
  unfolding take_result
  take_result-Polled i source none t w h = After-next (
      After-ok (
        After-ok
          ([], [], (λ sources others kept messages p. missed t h p), sym (both-nothing (rows w)))))
  take_result-Polled i source (some (bid, ask)) t w h = After-next (
      After-ok (
        After-next (
          After-mono (create_quote-IsQuoteRow (quote_of i source bid ask (S.now w.time)) _)
            (λ _ w1 (row, kept, e1). After-next (
              After-ok (
                After-next (
                  After-mono (publish_to_kafka-rows i.symbol _ _) (λ _ w2 e2. After-ok (
                    row ∷ [],
                    taken (S.publish w1.time i.symbol _) i.symbol _,
                    (λ sources others others_kept messages p.
                        quoted t w.time w1.time bid ask h kept p),
                    both_steps (rows w) (rows w1) (rows w2) _ _ e1 e2,
                  )))))))))

  pub poll_clients-Polled :
      (i : Instrument) (sources : List Source) (w : World)
      → After ⊥
          (λ qs w'.
            (ks : List Quote) × (ms : List (Text × Quote)) × Polled S e g i sources qs ks ms
            × (rows w' ≡ both (rows w) (quotes_and ks ms)))
          (poll_clients S e g i sources w)
  unfolding poll_clients
  poll_clients-Polled i [] w = After-ok ([], [], finished, sym (both-nothing (rows w)))
  poll_clients-Polled i (source ∷ sources) w = After-next (
      After-ok (
        After-next (
          After-mono (take_result-Polled i source _ w.time _ refl) (λ qs w1 (ks, ms, put, e1).
            After-next (
              After-mono (poll_clients-Polled i sources w1)
                (λ others w2 (kept, messages, polls, e2). After-ok (
                  ks ++ kept,
                  ms ++ messages,
                  put sources others kept messages polls,
                  both_steps (rows w) (rows w1) (rows w2) _ _ e1 e2,
                )))))))

  pub length-Polled :
      {i : Instrument} {sources : List Source} {qs ks : List Quote} {ms : List (Text × Quote)}
      → Polled S e g i sources qs ks ms
      → length qs ≡ length ks
  length-Polled finished = refl
  length-Polled (missed t h p) = length-Polled p
  length-Polled (quoted t t' t'' bid ask h k p) = let h = length-Polled p in cc
