-- ===== src/Ohlc/Refinement.antt =====
-- The calls of `_update_bar`, in their order, against the prices of each bucket.
use mathlib.Core.Path.{subst}
use mathlib.Core.List.{append_assoc, append-nil}
use pricestream.Base.{
  ℕ, ◌≡◌, refl, sym, ◌∙◌, inl, inr, Option, none, some, Bool, true, ◌&&◌, if◌then◌else◌, Bool-cases,
  List, [], ◌∷◌, ◌++◌, arith, All, ◌==◌, ==_iff,
}
use pricestream.Base.Int.{pos}
use pricestream.Base.Result.{Result, ok, raise, ◌>>=◌, bind-ok, ok-injective}
use pricestream.Decimal.{Decimal}
use pricestream.Clock.{Datetime}
use pricestream.Models.{Interval, OhlcBar}
use pricestream.Ohlc.{bucket_start, interval_eq, same_instant, new_bar, tick, update_bar}
use pricestream.Ohlc.Summary.{IsColumn, IsSummary, tick-IsSummary, new_bar-IsSummary, All-snoc}
use pricestream.Ohlc.Bars.{
  Key, find_row, SameKey, upsert_row, Made, find_row-upsert_same, find_row-upsert_other,
  interval_eq_iff, same_instant_iff, and3_iff,
}
use pricestream.Ohlc.Rows.{IsUnique, IsKept, upsert-IsUnique, upsert-returns}

-- The arguments of a call of `_update_bar`.
pub record Call : Type 0 where
  pub instrument : ℕ
  pub interval : Interval
  pub ts : Datetime
  pub price : Decimal

-- The bucket that the call is for.
abbrev pub target : ℕ → Call → Key
target g c = record {
  instrument = c.instrument;
  interval = c.interval;
  bucket = bucket_start g c.ts c.interval;
}

abbrev pub is_for : ℕ → Key → Call → Bool
is_for g j c =
    c.instrument == j.instrument
    && interval_eq c.interval j.interval
    && same_instant (bucket_start g c.ts c.interval) j.bucket

is_for_iff : (g : ℕ) (j : Key) (c : Call) → is_for g j c ≡ true → SameKey (target g c) j
is_for_iff g j c h =
    let (i, v, b) =
      (and3_iff (c.instrument == j.instrument) (interval_eq c.interval j.interval)
          (same_instant (bucket_start g c.ts c.interval) j.bucket)).0
        h in
    record {
      instrument = (==_iff c.instrument j.instrument).0 i;
      interval = (interval_eq_iff c.interval j.interval).0 v;
      bucket = (same_instant_iff (bucket_start g c.ts c.interval) j.bucket).0 b;
    }

is_for_of : (g : ℕ) (j : Key) (c : Call) → SameKey (target g c) j → is_for g j c ≡ true
is_for_of g j c s =
    (and3_iff (c.instrument == j.instrument) (interval_eq c.interval j.interval)
        (same_instant (bucket_start g c.ts c.interval) j.bucket)).1
      (
        (==_iff c.instrument j.instrument).1 s.instrument,
        (interval_eq_iff c.interval j.interval).1 s.interval,
        (same_instant_iff (bucket_start g c.ts c.interval) j.bucket).1 s.bucket,
      )

module _ (column : Decimal → Result Decimal) where
  -- The calls one after the other; the first that raises ends them.
  unfoldable pub updates : ℕ → List Call → List OhlcBar → Result (List OhlcBar)
  updates g [] bars = ok bars
  updates g (c ∷ cs) bars = do
    bars' ← update_bar column g c.instrument c.interval c.ts c.price bars
    updates g cs bars'

  -- What the columns keep of a price, if it fits.
  abbrev pub kept_price : Result Decimal → List Decimal
  kept_price (ok p) = p ∷ []
  kept_price (raise x) = []

  -- The specification: the prices of a bucket, in the order of their arrival.
  pub prices_for : ℕ → Key → List Call → List Decimal
  prices_for g j [] = []
  prices_for g j (c ∷ cs) =
      let rest = prices_for g j cs in
      if is_for g j c then kept_price (column c.price) ++ rest else rest

  -- The row of a bucket sums its prices up; a bucket with no price has none.
  abbrev pub Shows : List Decimal → Option OhlcBar → Type 0
  Shows prices none = prices ≡ []
  Shows prices (some bar) = IsSummary prices bar × All (λ p. column p ≡ ok p) prices

  new_bar-kept :
      (k : Key) (price : Decimal) (bar : OhlcBar)
      → new_bar column k.instrument k.interval k.bucket price ≡ ok bar
      → (column price ≡ ok bar.open_price) × (column (pos 0) ≡ ok bar.volume)
  unfolding new_bar
  new_bar-kept k price bar h = ground arith

  tick-kept :
      (bar bar' : OhlcBar) (price : Decimal)
      → tick column bar price ≡ ok bar'
      → column price ≡ ok bar'.close
  unfolding tick
  tick-kept bar bar' price h = ground arith

  -- Calls that return leave no two rows with one key.
  pub updates-IsUnique :
      (g : ℕ) (cs : List Call) (bars bars' : List OhlcBar)
      → IsUnique bars
      → updates g cs bars ≡ ok bars'
      → IsUnique bars'
  unfolding updates update_bar
  updates-IsUnique g [] bars bars' unique run = rw (← ok-injective bars bars' run) unique
  updates-IsUnique g (c ∷ cs) bars bars' unique run =
      let (mid, step, rest) =
        bind-ok (upsert_row column (target g c) c.price bars) (λ bs. updates g cs bs) run in
      updates-IsUnique g cs mid bars'
        (upsert-IsUnique column (target g c) c.price bars mid unique step) rest

module _ (column : Decimal → Result Decimal) (laws : IsColumn column) where
  -- A row that is made from what stood there shows one price more.
  Shows-Made :
      (k : Key) (price : Decimal) (ps : List Decimal) (o : Option OhlcBar) (bar' : OhlcBar)
      → Shows column ps o
      → Made column k price o bar'
      → Shows column (ps ++ kept_price column (column price)) (some bar')
  Shows-Made k price ps none bar' h made =
      let (kept, none_yet) = new_bar-kept column k price bar' made in
      let (bar, made', summary) =
        new_bar-IsSummary column laws k.instrument k.interval k.bucket price bar'.open_price
          bar'.volume kept none_yet in
      let same : bar ≡ bar' = ok-injective bar bar' (sym made' ∙ made) in
      rw (h, kept)
        (
          subst (λ b. IsSummary (bar'.open_price ∷ []) b) same summary,
          (laws.stable price bar'.open_price kept, tt),
        )
  Shows-Made k price ps (some bar) bar' h made =
      let kept = tick-kept column bar bar' price made in
      let (bar'', made', summary) =
        tick-IsSummary column laws ps bar price bar'.close h.1 h.0 kept in
      let same : bar'' ≡ bar' = ok-injective bar'' bar' (sym made' ∙ made) in
      rw kept (
        subst (λ b. IsSummary (ps ++ bar'.close ∷ []) b) same summary,
        All-snoc (λ p. column p ≡ ok p) (λ p. column p ≡ ok p) ps bar'.close (λ q e. e) h.1
            (laws.stable price bar'.close kept),
      )

  pub updates-Shows :
      (g : ℕ) (j : Key) (cs : List Call) (bars bars' : List OhlcBar) (ps : List Decimal)
      → Shows column ps (find_row j bars)
      → updates column g cs bars ≡ ok bars'
      → Shows column (ps ++ prices_for column g j cs) (find_row j bars')
  unfolding updates prices_for update_bar
  updates-Shows g j [] bars bars' ps h run = rw (append-nil ps, ← ok-injective bars bars' run) h
  updates-Shows g j (c ∷ cs) bars bars' ps h run =
      let (mid, step, rest) =
        bind-ok (upsert_row column (target g c) c.price bars) (λ bs. updates column g cs bs) run in
      elim (Bool-cases (is_for g j c)) [
        | inl hit ↦
            let (bar', found, made) =
              find_row-upsert_same column j (target g c) c.price bars mid (is_for_iff g j c hit)
                step in
            let next = Shows-Made (target g c) c.price ps (find_row j bars) bar' h made in
            rw
              (
                hit,
                ← append_assoc ps (kept_price column (column c.price)) (prices_for column g j cs),
              )
              (updates-Shows g j cs mid bars' (ps ++ kept_price column (column c.price))
                (rw found next) rest)
        | inr miss ↦ rw miss (
            updates-Shows g j cs mid bars' ps
              (rw
                (find_row-upsert_other column j (target g c) c.price bars mid
                  (λ s. cc (miss, is_for_of g j c s)) step)
                h)
              rest)
      ]

  -- Every price fits its column, and so does the volume of a new row.
  updates-returns :
      (g : ℕ) (zero : Decimal) (cs : List Call) (bars : List OhlcBar)
      → column (pos 0) ≡ ok zero
      → All (λ c. (p : Decimal) × (column c.price ≡ ok p)) cs
      → All (IsKept column) bars
      → IsUnique bars
      → (bars' : List OhlcBar) × (updates column g cs bars ≡ ok bars') × IsUnique bars'
  unfolding updates update_bar
  updates-returns g zero [] bars none_yet fits kept unique = (bars, refl, unique)
  updates-returns g zero (c ∷ cs) bars none_yet ((p, fit), fits) kept unique =
      let (mid, step, kept') =
        upsert-returns column laws (target g c) c.price p zero bars fit none_yet kept in
      let unique' = upsert-IsUnique column (target g c) c.price bars mid unique step in
      let (bars', run, end) = updates-returns g zero cs mid none_yet fits kept' unique' in
      (bars', rw step run, end)

  -- From an empty table, calls whose prices fit their columns do not raise. No two rows then have
  -- one key, and for every bucket the row shows the open, the high, the low, the close and the
  -- number of the prices of that bucket, as the columns keep them, in the order of the calls; a
  -- bucket with no price has no row.
  pub updates-refines :
      (g : ℕ) (zero : Decimal) (cs : List Call) (j : Key)
      → column (pos 0) ≡ ok zero
      → All (λ c. (p : Decimal) × (column c.price ≡ ok p)) cs
      → (bars : List OhlcBar) × (updates column g cs [] ≡ ok bars)
        × IsUnique bars
        × Shows column (prices_for column g j cs) (find_row j bars)
  updates-refines g zero cs j none_yet fits =
      let (bars, run, unique) = updates-returns g zero cs [] none_yet fits tt tt in
      (bars, run, unique, updates-Shows g j cs [] bars [] (unfold find_row in refl) run)
