-- ===== src/Consumer/Returns.antt =====
-- `run_consumer` with a number of messages to stop after returns that number.
use pricestream.Base.{
  ℕ, ◌+◌, ◌≤◌, ◌≡◌, Option-cases, ◌∙◌, ap, true, false, ◌&&◌, not, Bool-cases, Option, none, some,
  List, [], ◌∷◌, arith, inl, inr, length, leb, leb_iff, All, ◌<◌,
}
use pricestream.Base.Result.{ok}
use pricestream.Json.{Json}
use pricestream.Decimal.{Decimal}
use pricestream.Base.Int.{pos}
use pricestream.Ohlc.Summary.{IsColumn}
use pricestream.Ohlc.Rows.{IsKept}
use pricestream.Models.{Instrument, OhlcBar}
use pricestream.Consumer.{Platform, handle_event, Round, returned, event_of, loop}
use pricestream.Consumer.Events.{IsGood, handle_event-returns}
use pricestream.Consumer.Loop.{events, events-silent, events-sent, event_result}

module _ (P : Platform) (e g : ℕ) (instruments : List Instrument) where
  abbrev pub NoSignal : Round → Type 0
  NoSignal r = (r.stopped_before ≡ false) × (r.stopped_after ≡ false)

  loop-silent :
      (stop_after : Option ℕ) (processed : ℕ) (r : Round) (rs : List Round) (bars : List OhlcBar)
      → NoSignal r
      → event_of r.poll ≡ none
      → loop P e g instruments stop_after processed true (r ∷ rs) bars
        ≡ loop P e g instruments stop_after processed true rs bars
  unfolding loop
  loop-silent stop_after processed r rs bars (off, off') silent =
      let on : not r.stopped_before ≡ true = rw off in
      let on' : (true && not r.stopped_after) ≡ true = rw off' in rw (loop, on, silent, on')

  loop-sent :
      (n processed : ℕ) (r : Round) (rs : List Round) (bars next : List OhlcBar)
      → (payload : Json) → NoSignal r
      → event_of r.poll ≡ some payload
      → handle_event P e g instruments r.now payload bars ≡ (ok tt, next)
      → loop P e g instruments (some n) processed true (r ∷ rs) bars
        ≡ elim (leb n (processed + 1)) [
          | true ↦ (returned (processed + 1), next)
          | false ↦ loop P e g instruments (some n) (processed + 1) true rs next
        ]
  unfolding loop
  loop-sent n processed r rs bars next payload (off, off') sent handled =
      let on : not r.stopped_before ≡ true = rw off in
      let on' : (true && not r.stopped_after) ≡ true = rw off' in
      let result : (event_result P e g instruments r payload bars).0 ≡ ok tt =
        ap (λ u. u.0) handled in
      let rows : (event_result P e g instruments r payload bars).1 ≡ next = ap (λ u. u.1) handled in
      elim (Bool-cases (leb n (processed + 1))) [
        | inl enough ↦ rw (loop, on, sent, result, enough, rows)
        | inr more ↦ rw (loop, on, sent, result, more, on', rows)
      ]

  pub loop-stops :
      (laws : IsColumn P.column) (n processed : ℕ) (rounds : List Round)
      → (zero : Decimal) (bars : List OhlcBar) → P.column (pos 0) ≡ ok zero
      → processed < n
      → n ≤ processed + length (events rounds)
      → All NoSignal rounds
      → All (IsGood P e instruments) (events rounds)
      → All (IsKept P.column) bars
      → (bars' : List OhlcBar) × (loop P e g instruments (some n) processed true rounds bars
          ≡ (returned n, bars'))
  unfolding events
  loop-stops laws n processed [] zero bars none_yet before enough quiet good kept =
      absurd (omega arith)
  loop-stops laws n processed (r ∷ rs) zero bars none_yet before enough ((off, off'), quiet) good
        kept =
      elim (Option-cases (event_of r.poll)) [
        | inl silent ↦
            let (bars', run) =
              loop-stops laws n processed rs zero bars none_yet before
                (rw (events-silent r rs silent) at enough) quiet
                (rw (events-silent r rs silent) at good) kept in
            (bars', loop-silent (some n) processed r rs bars (off, off') silent ∙ run)
        | inr (payload, sent) ↦
            let good' = rw (events-sent r rs payload sent) at good in
            let enough' = rw (events-sent r rs payload sent) at enough in
            let (next, handled, kept') =
              handle_event-returns P laws e g instruments r.now payload zero bars none_yet good'.0
                kept in
            elim (Bool-cases (leb n (processed + 1))) [
              | inl last ↦
                  let least : n ≤ processed + 1 = (leb_iff n (processed + 1)).0 last in
                  let end : processed + 1 ≡ n = omega arith in
                  (
                    next,
                    loop-sent n processed r rs bars next payload (off, off') sent handled
                        ∙ rw (last, end),
                  )
              | inr more ↦
                  let later : ¬ n ≤ processed + 1 =
                    λ least. cc (more, (leb_iff n (processed + 1)).1 least) in
                  let (bars', run) =
                    loop-stops laws n (processed + 1) rs zero next none_yet (omega arith)
                      (omega arith) quiet good'.1 kept' in
                  (
                    bars',
                    loop-sent n processed r rs bars next payload (off, off') sent handled
                        ∙ rw more run,
                  )
            ]
      ]
