-- ===== src/Commands/SameRows.antt =====
-- The command and the first step of `fetch_quotes` create the same rows.
use mathlib.Core.Path.{subst}
use pricestream.Base.{
  ℕ, ◌+◌, Bool, Bool-cases, true, false, ◌≡◌, refl, sym, ◌∙◌, ap, ◌⊎◌, inl, inr, none, some, List,
  [], ◌∷◌, ◌++◌, map, All, if◌then◌else◌,
}
use pricestream.Base.Text.{Text, text_eq}
use pricestream.Base.Result.{Exn, Result, Result-cases, ok-injective, ok, raise}
use pricestream.Models.{Instrument, FitsColumns, parse_symbol}
use pricestream.Consumer.{find_instrument}
use pricestream.Tasks.{has_symbol, parse_all, create_missing, bulk_create}
use pricestream.Tasks.Environment.{World, Services, next_of}
use pricestream.Commands.{Defaults, new_row, create_rows, handle}
use pricestream.Commands.Bootstrap.{TakesFitting, create_rows-kept, create_rows-new}

-- The columns that neither the database nor the clock fills.
abbrev pub names_of : Instrument → Text × Text × Text
names_of i = (i.symbol, i.base, i.quote)

abbrev is_named : Text → List (Text × Text × Text) → Bool
is_named s [] = false
is_named s ((t, base, quote) ∷ rows) = if text_eq t s then true else is_named s rows

has_symbol-names :
    (s : Text) (table : List Instrument) → has_symbol s table ≡ is_named s (map names_of table)
has_symbol-names s [] = refl
has_symbol-names s (i ∷ table) = elim (Bool-cases (text_eq i.symbol s)) [
  | inl e ↦ rw e refl
  | inr e ↦ rw e (has_symbol-names s table)
]

find_instrument-names :
    (s : Text) (table : List Instrument)
    → ((find_instrument s table ≡ none) × (is_named s (map names_of table) ≡ false))
      ⊎ ((i : Instrument) × (find_instrument s table ≡ some i)
          × (is_named s (map names_of table) ≡ true))
unfolding find_instrument
find_instrument-names s [] = inl (refl, refl)
find_instrument-names s (i ∷ table) = elim (Bool-cases (text_eq i.symbol s)) [
  | inl e ↦ inr (i, rw e refl, rw e refl)
  | inr e ↦ rw e (find_instrument-names s table)
]

names-append :
    (table more : List Instrument)
    → map names_of (table ++ more) ≡ map names_of table ++ map names_of more
names-append [] more = refl
names-append (i ∷ table) more = ap (λ t. names_of i ∷ t) (names-append table more)

raise-ne-ok :
    (x : Exn) (ps : List (Text × Text × Text))
    → ◌≡◌ {A = Result (List (Text × Text × Text))} (raise x) (ok ps)
    → ⊥
raise-ne-ok x ps h = cc

module _ (S : Services) (e g : ℕ) (D : Defaults) where
  parse_all-cons :
      (s : Text) (ss : List Text) (ps : List (Text × Text × Text))
      → parse_all S e g (s ∷ ss) ≡ ok ps
      → (base : Text) × (quote : Text) × (rest : List (Text × Text × Text)) × (parse_symbol s
          ≡ ok (base, quote))
        × (parse_all S e g ss ≡ ok rest)
        × (ps ≡ (s, base, quote) ∷ rest)
  unfolding parse_all
  parse_all-cons s ss ps run = elim (Result-cases (parse_symbol s)) [
    | inr (x, p) ↦
        let stuck : ◌≡◌ {A = Result (List (Text × Text × Text))} (raise x) (ok ps) =
          rw (parse_all, p) at run in
        absurd (raise-ne-ok x ps stuck)
    | inl ((base, quote), p) ↦ elim (Result-cases (parse_all S e g ss)) [
      | inr (x, q) ↦
          let stuck : ◌≡◌ {A = Result (List (Text × Text × Text))} (raise x) (ok ps) =
            rw (parse_all, p, q) at run in
          absurd (raise-ne-ok x ps stuck)
      | inl (rest, q) ↦
          let same : ◌≡◌ {A = Result (List (Text × Text × Text))} (ok ((s, base, quote) ∷ rest))
              (ok ps) =
            rw (parse_all, p, q) at run in
          (base, quote, rest, p, q, sym (ok-injective _ _ same))
    ]
  ]

  create_missing-returns :
      (ps : List (Text × Text × Text)) (w : World)
      → create_missing S e g ps w ≡ (ok tt, (create_missing S e g ps w).1)
  unfolding create_missing next_of
  create_missing-returns [] w = refl
  create_missing-returns ((s, base, quote) ∷ ps) w = create_missing-returns ps _

  create_missing-skip :
      (s base quote : Text) (ps : List (Text × Text × Text)) (w : World)
      → has_symbol s w.instruments ≡ true
      → create_missing S e g ((s, base, quote) ∷ ps) w
        ≡ create_missing S e g ps (record w { time = w.time + 1 })
  unfolding create_missing next_of
  create_missing-skip s base quote ps w h = rw h refl

  abbrev missing : Text → Text → Text → World → Instrument
  missing s base quote w = record {
    pk = S.new_pk w.instruments;
    symbol = s;
    base = base;
    quote = quote;
    is_active = true;
    created_at = S.now w.time;
  }

  create_missing-adds :
      (s base quote : Text) (ps : List (Text × Text × Text)) (w : World)
      → has_symbol s w.instruments ≡ false
      → create_missing S e g ((s, base, quote) ∷ ps) w
        ≡ create_missing S e g ps (record w {
          time = w.time + 1;
          instruments = w.instruments ++ missing s base quote w ∷ [];
        })
  unfolding create_missing next_of
  create_missing-adds s base quote ps w h = rw h refl

  same_names :
      (takes : TakesFitting D) (symbols : List Text) (ps : List (Text × Text × Text)) (k : ℕ)
      (table : List Instrument) (w : World)
      → parse_all S e g symbols ≡ ok ps
      → map names_of w.instruments ≡ map names_of table
      → All (λ n. FitsColumns n.0 (n.1, n.2)) ps
      → map names_of (create_missing S e g ps w).1.instruments
        ≡ map names_of (create_rows D symbols k table).1
  unfolding create_missing create_rows parse_all
  same_names takes [] ps k table w run same fits =
      ap (λ ps. map names_of (create_missing S e g ps w).1.instruments) (sym (ok-injective _ _ run))
      ∙ same
  same_names takes (s ∷ ss) ps k table w run same fits =
      let (base, quote, rest, p, q, shape) = parse_all-cons s ss ps run in
      let (fit, fits') = subst (All (λ n. FitsColumns n.0 (n.1, n.2))) shape fits in
      elim (find_instrument-names s table) [
        | inl (n, free) ↦
            let absent : has_symbol s w.instruments ≡ false =
              has_symbol-names s w.instruments ∙ ap (is_named s) same ∙ free in
            let w' : World = record w {
              time = w.time + 1;
              instruments = w.instruments ++ missing s base quote w ∷ [];
            } in
            let table' : List Instrument = table ++ new_row D s (base, quote) table ∷ [] in
            let same' : map names_of w'.instruments ≡ map names_of table' =
              names-append w.instruments (missing s base quote w ∷ [])
              ∙ ap (λ t. t ++ (s, base, quote) ∷ []) same
              ∙ sym (names-append table (new_row D s (base, quote) table ∷ [])) in
            ap (λ ps. map names_of (create_missing S e g ps w).1.instruments) shape
            ∙ ap (λ r. map names_of r.1.instruments)
                (create_missing-adds s base quote rest w absent)
            ∙ same_names takes ss rest (k + 1) table' w' q same' fits'
            ∙ ap (λ r. map names_of r.1)
                (sym (create_rows-new D s ss k table (base, quote) p n (takes table _ n fit)))
        | inr (i, f, taken) ↦
            let there : has_symbol s w.instruments ≡ true =
              has_symbol-names s w.instruments ∙ ap (is_named s) same ∙ taken in
            ap (λ ps. map names_of (create_missing S e g ps w).1.instruments) shape
            ∙ ap (λ r. map names_of r.1.instruments) (create_missing-skip s base quote rest w there)
            ∙ same_names takes ss rest k table (record w { time = w.time + 1 }) q same fits'
            ∙ ap (λ r. map names_of r.1) (sym (create_rows-kept D s ss k table (base, quote) i p f))
      ]

  -- Where the database takes rows whose texts fit their columns, and all configured symbols parse into
  -- names that fit, as they do themselves: the first step of `fetch_quotes` does not raise, and it and
  -- the command leave, from the same rows, instruments with the same symbols, bases and quotes in the
  -- same order.
  pub bulk_create-handle :
      (takes : TakesFitting D)
      (takes_all : (ps : List (Text × Text × Text))
        → All (λ n. FitsColumns n.0 (n.1, n.2)) ps
        → S.insert_all ps ≡ ok tt)
      (symbols : List Text) (ps : List (Text × Text × Text)) (w : World)
      → parse_all S e g symbols ≡ ok ps
      → All (λ n. FitsColumns n.0 (n.1, n.2)) ps
      → (w' : World) × (bulk_create S e g ps w ≡ (ok tt, w'))
        × (map names_of w'.instruments ≡ map names_of (handle D symbols w.instruments).1)
  unfolding handle bulk_create next_of
  bulk_create-handle takes takes_all symbols ps w run fits = (
    (create_missing S e g ps w).1,
    rw (bulk_create, takes_all ps fits) (create_missing-returns ps w),
    same_names takes symbols ps 0 w.instruments w run refl fits,
  )
