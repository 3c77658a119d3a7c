-- ===== src/Ohlc/Bars.antt =====
-- The table of bars: which row an update makes or changes, and that it leaves all others alone.
use pricestream.Base.{
  ℕ, ◌≡◌, sym, ◌∙◌, ap, ◌↔◌, inl, inr, Option, none, some, Bool, true, false, ◌&&◌, if◌then◌else◌,
  Bool-cases, ==_iff, List, [], ◌∷◌, arith, ◌==◌,
}
use pricestream.Base.Int.{ℤ, leb_ℤ, eq_of_parts}
use pricestream.Base.Result.{Result, ok, map-ok}
use pricestream.Decimal.{Decimal}
use pricestream.Clock.{Datetime, instant}
use pricestream.Models.{Interval, m1, m5, h1, OhlcBar}
use pricestream.Ohlc.{interval_eq, same_instant, is_row, new_bar, tick, upsert}

-- What is unique of a row.
pub record Key : Type 0 where
  pub instrument : ℕ
  pub interval : Interval
  pub bucket : Datetime

abbrev pub row : Key → OhlcBar → Bool
row k bar = is_row k.instrument k.interval k.bucket bar

unfoldable pub find_row : Key → List OhlcBar → Option OhlcBar
find_row k [] = none
find_row k (bar ∷ bars) = if row k bar then some bar else find_row k bars

-- The same row: buckets are compared as instants.
pub record SameKey (j k : Key) : Type 0 where
  pub instrument : j.instrument ≡ k.instrument
  pub interval : j.interval ≡ k.interval
  pub bucket : instant j.bucket ≡ instant k.bucket

abbrev pub key_of : OhlcBar → Key
key_of bar = record {
  instrument = bar.instrument;
  interval = bar.interval;
  bucket = bar.bucket_start;
}

pub interval_eq_iff : (i j : Interval) → (interval_eq i j ≡ true) ↔ (i ≡ j)
interval_eq_iff m1 m1 = ground arith
interval_eq_iff m1 m5 = ground arith
interval_eq_iff m1 h1 = ground arith
interval_eq_iff m5 m1 = ground arith
interval_eq_iff m5 m5 = ground arith
interval_eq_iff m5 h1 = ground arith
interval_eq_iff h1 m1 = ground arith
interval_eq_iff h1 m5 = ground arith
interval_eq_iff h1 h1 = ground arith

both_le_iff : (a b : ℤ) → ((leb_ℤ a b && leb_ℤ b a) ≡ true) ↔ (a ≡ b)
both_le_iff a b = (λ h. eq_of_parts a b (ground arith), λ e. rw e (ground arith))

pub same_instant_iff : (t u : Datetime) → (same_instant t u ≡ true) ↔ (instant t ≡ instant u)
unfolding same_instant
same_instant_iff t u = both_le_iff (instant t) (instant u)

pub and3_iff : (a b c : Bool) → ((a && b && c) ≡ true) ↔ ((a ≡ true) × (b ≡ true) × (c ≡ true))
and3_iff a b c = ground arith

row_iff :
    (k : Key) (bar : OhlcBar)
    → (row k bar ≡ true) ↔ (
        ((bar.instrument == k.instrument) ≡ true)
        × (interval_eq bar.interval k.interval ≡ true)
        × (same_instant bar.bucket_start k.bucket ≡ true))
unfolding is_row
row_iff k bar =
    and3_iff (bar.instrument == k.instrument) (interval_eq bar.interval k.interval)
      (same_instant bar.bucket_start k.bucket)

pub row-SameKey : (k : Key) (bar : OhlcBar) → row k bar ≡ true → SameKey (key_of bar) k
row-SameKey k bar h =
    let (i, v, b) = (row_iff k bar).0 h in
    record {
      instrument = (==_iff bar.instrument k.instrument).0 i;
      interval = (interval_eq_iff bar.interval k.interval).0 v;
      bucket = (same_instant_iff bar.bucket_start k.bucket).0 b;
    }

pub SameKey-row : (k : Key) (bar : OhlcBar) → SameKey (key_of bar) k → row k bar ≡ true
SameKey-row k bar s = (row_iff k bar).1 (
  (==_iff bar.instrument k.instrument).1 s.instrument,
  (interval_eq_iff bar.interval k.interval).1 s.interval,
  (same_instant_iff bar.bucket_start k.bucket).1 s.bucket,
)

pub SameKey-trans : {i j k : Key} → SameKey i j → SameKey j k → SameKey i k
SameKey-trans p q = record {
  instrument = p.instrument ∙ q.instrument;
  interval = p.interval ∙ q.interval;
  bucket = p.bucket ∙ q.bucket;
}

pub SameKey-sym : {j k : Key} → SameKey j k → SameKey k j
SameKey-sym p = record {
  instrument = sym p.instrument;
  interval = sym p.interval;
  bucket = sym p.bucket;
}

pub SameKey-of_eq : {j k : Key} → j ≡ k → SameKey j k
SameKey-of_eq p = record {
  instrument = ap (λ (x : Key). x.instrument) p;
  interval = ap (λ (x : Key). x.interval) p;
  bucket = ap (λ (x : Key). instant x.bucket) p;
}

pub row-false : (k : Key) (bar : OhlcBar) → ¬ SameKey (key_of bar) k → row k bar ≡ false
row-false k bar n = elim (Bool-cases (row k bar)) [
  | inl h ↦ absurd (n (row-SameKey k bar h))
  | inr h ↦ h
]

module _ (column : Decimal → Result Decimal) where
  -- An update of row k.
  abbrev pub upsert_row : Key → Decimal → List OhlcBar → Result (List OhlcBar)
  upsert_row k = upsert column k.instrument k.interval k.bucket

  -- The row that stands where one was looked for: a new bar, or the old one with a tick.
  abbrev pub Made : Key → Decimal → Option OhlcBar → OhlcBar → Type 0
  Made k price none bar' = new_bar column k.instrument k.interval k.bucket price ≡ ok bar'
  Made k price (some bar) bar' = tick column bar price ≡ ok bar'

  pub tick-key :
      (bar bar' : OhlcBar) (price : Decimal)
      → tick column bar price ≡ ok bar'
      → key_of bar' ≡ key_of bar
  unfolding tick
  tick-key bar bar' price h = ground arith

  pub new_bar-key :
      (k : Key) (bar' : OhlcBar) (price : Decimal)
      → new_bar column k.instrument k.interval k.bucket price ≡ ok bar'
      → key_of bar' ≡ k
  unfolding new_bar
  new_bar-key k bar' price h = ground arith

  -- The row that is updated: it is made from what stood there.
  pub find_row-upsert_same :
      (j k : Key) (price : Decimal) (bars bars' : List OhlcBar)
      → SameKey k j
      → upsert_row k price bars ≡ ok bars'
      → (bar' : OhlcBar) × (find_row j bars' ≡ some bar') × Made k price (find_row j bars) bar'
  unfolding find_row upsert
  find_row-upsert_same j k price [] bars' same h =
      let (bar', made, e) =
        map-ok (new_bar column k.instrument k.interval k.bucket price) (λ b. b ∷ []) h in
      let hit : row j bar' ≡ true =
        SameKey-row j bar' (SameKey-trans (SameKey-of_eq (new_bar-key k bar' price made)) same) in
      (bar', rw (e, hit), made)
  find_row-upsert_same j k price (bar ∷ bars) bars' same h = elim (Bool-cases (row k bar)) [
    | inl here ↦
        let (bar', made, e) = map-ok (tick column bar price) (λ b. b ∷ bars) (rw here at h) in
        let found : SameKey (key_of bar) j = SameKey-trans (row-SameKey k bar here) same in
        let hit : row j bar ≡ true = SameKey-row j bar found in
        let hit' : row j bar' ≡ true =
          SameKey-row j bar' (SameKey-trans (SameKey-of_eq (tick-key bar bar' price made)) found) in
        (bar', rw (e, hit'), rw hit made)
    | inr on ↦
        let (rest, made, e) = map-ok (upsert_row k price bars) (λ bs. bar ∷ bs) (rw on at h) in
        let miss : row j bar ≡ false =
          row-false j bar (λ s. cc (on, SameKey-row k bar (SameKey-trans s (SameKey-sym same)))) in
        let (bar', found, from) = find_row-upsert_same j k price bars rest same made in
        (bar', rw (e, miss) found, rw miss from)
  ]

  -- Every other row stays as it was.
  pub find_row-upsert_other :
      (j k : Key) (price : Decimal) (bars bars' : List OhlcBar)
      → ¬ SameKey k j
      → upsert_row k price bars ≡ ok bars'
      → find_row j bars' ≡ find_row j bars
  unfolding find_row upsert
  find_row-upsert_other j k price [] bars' apart h =
      let (bar', made, e) =
        map-ok (new_bar column k.instrument k.interval k.bucket price) (λ b. b ∷ []) h in
      let miss : row j bar' ≡ false = row-false j bar' (λ s.
        apart (SameKey-trans (SameKey-sym (SameKey-of_eq (new_bar-key k bar' price made))) s)) in
      rw (e, miss)
  find_row-upsert_other j k price (bar ∷ bars) bars' apart h = elim (Bool-cases (row k bar)) [
    | inl here ↦
        let (bar', made, e) = map-ok (tick column bar price) (λ b. b ∷ bars) (rw here at h) in
        let this : SameKey k (key_of bar) = SameKey-sym (row-SameKey k bar here) in
        let miss : row j bar ≡ false = row-false j bar (λ s. apart (SameKey-trans this s)) in
        let miss' : row j bar' ≡ false = row-false j bar' (λ s. apart (
          SameKey-trans this
            (SameKey-trans (SameKey-sym (SameKey-of_eq (tick-key bar bar' price made))) s))) in
        rw (e, miss, miss')
    | inr on ↦
        let (rest, made, e) = map-ok (upsert_row k price bars) (λ bs. bar ∷ bs) (rw on at h) in
        rw (e, find_row-upsert_other j k price bars rest apart made)
  ]
