-- ===== src/Ohlc/Rows.antt =====
-- What every update keeps of the whole table: no two rows have one key, and each row can be ticked.
use pricestream.Base.{◌+◌, ◌≡◌, refl, inl, inr, none, Bool-cases, List, [], ◌∷◌, All}
use pricestream.Base.Int.{pos}
use pricestream.Base.Result.{Result, ok, map-ok}
use pricestream.Decimal.{Decimal}
use pricestream.Models.{OhlcBar}
use pricestream.Ohlc.{new_bar, tick, upsert}
use pricestream.Ohlc.Summary.{IsColumn, high_step, low_step}
use pricestream.Ohlc.Bars.{
  Key, row, find_row, SameKey, key_of, SameKey-row, SameKey-sym, upsert_row, tick-key,
  find_row-upsert_other,
}

-- `unique_together = ("instrument", "interval", "bucket_start")`
abbrev pub IsUnique : List OhlcBar → Type 0
IsUnique [] = Unit
IsUnique (bar ∷ bars) = (find_row (key_of bar) bars ≡ none) × IsUnique bars

module _ (column : Decimal → Result Decimal) where
  pub upsert-IsUnique :
      (k : Key) (price : Decimal) (bars bars' : List OhlcBar)
      → IsUnique bars
      → upsert_row column k price bars ≡ ok bars'
      → IsUnique bars'
  unfolding upsert
  upsert-IsUnique k price [] bars' u h =
      let (bar', made, e) =
        map-ok (new_bar column k.instrument k.interval k.bucket price) (λ b. b ∷ []) h in
      rw e (unfold find_row in refl, tt)
  upsert-IsUnique k price (bar ∷ bars) bars' u h = elim (Bool-cases (row k bar)) [
    | inl here ↦
        let (bar', made, e) = map-ok (tick column bar price) (λ b. b ∷ bars) (rw here at h) in
        rw (e, tick-key column bar bar' price made) u
    | inr on ↦
        let (rest, made, e) =
          map-ok (upsert_row column k price bars) (λ bs. bar ∷ bs) (rw on at h) in
        let apart : ¬ SameKey k (key_of bar) = λ s. cc (on, SameKey-row k bar (SameKey-sym s)) in
        rw (e, find_row-upsert_other column (key_of bar) k price bars rest apart made)
          (u.0, upsert-IsUnique k price bars rest u.1 made)
  ]

-- High and low are values that the columns have kept.
pub record IsKept (column : Decimal → Result Decimal) (bar : OhlcBar) : Type 0 where
  pub high : column bar.high ≡ ok bar.high
  pub low : column bar.low ≡ ok bar.low

module _ (column : Decimal → Result Decimal) (laws : IsColumn column) where
  new_bar-IsKept :
      (k : Key) (price p zero : Decimal)
      → column price ≡ ok p
      → column (pos 0) ≡ ok zero
      → (bar : OhlcBar) × (new_bar column k.instrument k.interval k.bucket price ≡ ok bar)
        × IsKept column bar
  unfolding new_bar
  new_bar-IsKept k price p zero kept none_yet =
      let stored : column p ≡ ok p = laws.stable price p kept in
      (
        record {
          instrument = k.instrument;
          interval = k.interval;
          bucket_start = k.bucket;
          open_price = p;
          high = p;
          low = p;
          close = p;
          volume = zero;
          tick_count = 1;
        },
        rw (kept, none_yet),
        record { high = stored; low = stored },
      )

  tick-IsKept :
      (bar : OhlcBar) (price p : Decimal)
      → IsKept column bar
      → column price ≡ ok p
      → (bar' : OhlcBar) × (tick column bar price ≡ ok bar') × IsKept column bar'
  unfolding tick
  tick-IsKept bar price p k kept =
      let (h, high, _, _, _) = high_step column laws bar.high price p k.high kept in
      let (l, low, _, _, _) = low_step column laws bar.low price p k.low kept in
      (
        record bar { high = h; low = l; close = p; tick_count = bar.tick_count + 1 },
        rw (high, low, kept),
        record { high = laws.stable _ h high; low = laws.stable _ l low },
      )

  -- An update whose price the columns keep does not raise.
  pub upsert-returns :
      (k : Key) (price p zero : Decimal) (bars : List OhlcBar)
      → column price ≡ ok p
      → column (pos 0) ≡ ok zero
      → All (IsKept column) bars
      → (bars' : List OhlcBar) × (upsert_row column k price bars ≡ ok bars')
        × All (IsKept column) bars'
  unfolding upsert
  upsert-returns k price p zero [] kept none_yet h =
      let (bar, made, keeps) = new_bar-IsKept k price p zero kept none_yet in
      (bar ∷ [], rw made, (keeps, tt))
  upsert-returns k price p zero (bar ∷ bars) kept none_yet h = elim (Bool-cases (row k bar)) [
    | inl here ↦
        let (bar', made, keeps) = tick-IsKept bar price p h.0 kept in
        (bar' ∷ bars, rw (here, made), (keeps, h.1))
    | inr on ↦
        let (rest, made, keeps) = upsert-returns k price p zero bars kept none_yet h.1 in
        (bar ∷ rest, rw (on, made), (h.0, keeps))
  ]
