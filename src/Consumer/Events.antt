-- ===== src/Consumer/Events.antt =====
-- `handle_event` as the calls of `_update_bar` that it makes.
use pricestream.Base.{ℕ, ◌≡◌, refl, sym, ap, Option, none, some, List, [], ◌∷◌, All, inl, inr}
use pricestream.Base.Result.{Result-cases, Exn, Result, ok, raise}
use pricestream.Json.{Json}
use pricestream.Clock.{Datetime}
use pricestream.Models.{Instrument, Interval, OhlcBar}
use pricestream.Base.Int.{pos}
use pricestream.Decimal.{Decimal}
use pricestream.Ohlc.{update_bar, bucket_start}
use pricestream.Ohlc.Summary.{IsColumn}
use pricestream.Ohlc.Bars.{Key}
use pricestream.Ohlc.Rows.{IsKept, upsert-returns}
use pricestream.Ohlc.Refinement.{Call, updates}
use pricestream.Consumer.{Platform, Tick, read_event, update_bars, intervals, handle_event}

-- The three calls for an event.
abbrev pub calls_of : Tick → List Interval → List Call
calls_of t [] = []
calls_of t (i ∷ is) =
    record { instrument = t.instrument.pk; interval = i; ts = t.ts; price = t.mid } ∷ calls_of t is

absurd_ok {ℓ κ} :
    {A : Type ℓ} {B : Type κ} (a : A) (x : Exn) (bars bars' : List OhlcBar)
    → ◌≡◌ {A = Result A × List OhlcBar} (ok a, bars) (raise x, bars')
    → B
absurd_ok a x bars bars' h = cc

module _ (P : Platform) where
  -- The loop over the intervals returns where the calls do, with the same rows.
  pub update_bars-updates :
      (g : ℕ) (t : Tick) (is : List Interval) (bars bars' : List OhlcBar)
      → update_bars P g t is bars ≡ (ok tt, bars')
      → updates P.column g (calls_of t is) bars ≡ ok bars'
  unfolding updates update_bars
  update_bars-updates g t [] bars bars' h = unfold update_bars updates in ap (λ p. ok p.1) h
  update_bars-updates g t (i ∷ is) bars bars' h =
      elim (Result-cases (update_bar P.column g t.instrument.pk i t.ts t.mid bars)) [
        | inl (next, e) ↦
            rw (updates, e) (update_bars-updates g t is next bars' (rw (update_bars, e) at h))
        | inr (x, e) ↦ absurd_ok tt x bars' bars (sym (rw (update_bars, e) at h))
      ]

  -- The calls that an event stands for: three of one instrument, time and price, or none.
  abbrev pub calls_for : ℕ → List Instrument → Datetime × Json → List Call
  calls_for e instruments (now, payload) = elim (read_event P e instruments now payload) [
    | raise x ↦ []
    | ok none ↦ []
    | ok (some t) ↦ calls_of t intervals
  ]

  pub handle_event-updates :
      (e g : ℕ) (instruments : List Instrument) (now : Datetime) (payload : Json)
      → (bars bars' : List OhlcBar)
      → handle_event P e g instruments now payload bars ≡ (ok tt, bars')
      → updates P.column g (calls_for e instruments (now, payload)) bars ≡ ok bars'
  unfolding handle_event
  handle_event-updates e g instruments now payload bars bars' h =
      elim (Result-cases (read_event P e instruments now payload)) [
        | inl (none, k) ↦
            rw (calls_for, k) (unfold updates in ap (λ p. ok p.1) (rw (handle_event, k) at h))
        | inl (some t, k) ↦
            rw (calls_for, k)
              (update_bars-updates g t intervals bars bars' (rw (handle_event, k) at h))
        | inr (x, k) ↦ absurd_ok tt x bars' bars (sym (rw (handle_event, k) at h))
      ]

  -- The event can be read, and the column takes its mid if it has one.
  abbrev pub MidFits : Option Tick → Type 0
  MidFits none = Unit
  MidFits (some t) = (p : Decimal) × (P.column t.mid ≡ ok p)

  abbrev pub IsGood : ℕ → List Instrument → Datetime × Json → Type 0
  IsGood e instruments (now, payload) =
      (o : Option Tick) × (read_event P e instruments now payload ≡ ok o) × MidFits o

  update_bars-returns :
      (laws : IsColumn P.column) (g : ℕ) (zero p : Decimal) (t : Tick) (is : List Interval)
      → (bars : List OhlcBar) → P.column (pos 0) ≡ ok zero
      → P.column t.mid ≡ ok p
      → All (IsKept P.column) bars
      → (bars' : List OhlcBar) × (update_bars P g t is bars ≡ (ok tt, bars'))
        × All (IsKept P.column) bars'
  unfolding update_bars update_bar
  update_bars-returns laws g zero p t [] bars none_yet fits kept = (bars, refl, kept)
  update_bars-returns laws g zero p t (i ∷ is) bars none_yet fits kept =
      let k : Key = record {
        instrument = t.instrument.pk;
        interval = i;
        bucket = bucket_start g t.ts i;
      } in
      let (next, step, kept') =
        upsert-returns P.column laws k t.mid p zero bars fits none_yet kept in
      let (bars', run, end) = update_bars-returns laws g zero p t is next none_yet fits kept' in
      let step' : update_bar P.column g t.instrument.pk i t.ts t.mid bars ≡ ok next = step in
      (bars', rw (update_bars, step') run, end)

  pub handle_event-returns :
      (laws : IsColumn P.column) (e g : ℕ) (instruments : List Instrument) (now : Datetime)
      → (payload : Json) (zero : Decimal) (bars : List OhlcBar) → P.column (pos 0) ≡ ok zero
      → IsGood e instruments (now, payload)
      → All (IsKept P.column) bars
      → (bars' : List OhlcBar) × (handle_event P e g instruments now payload bars ≡ (ok tt, bars'))
        × All (IsKept P.column) bars'
  unfolding handle_event
  handle_event-returns laws e g instruments now payload zero bars none_yet (none, read, fits) kept =
      (bars, rw (handle_event, read), kept)
  handle_event-returns laws e g instruments now payload zero bars none_yet (some t, read, (p, fits))
        kept =
      let (bars', run, end) =
        update_bars-returns laws g zero p t intervals bars none_yet fits kept in
      (bars', rw (handle_event, read) run, end)
