-- ===== src/Commands/Bootstrap.antt =====
-- The command creates what is missing, and nothing when it is run again.
use mathlib.Core.List.{append_assoc, append-nil}
use mathlib.Core.Path.{subst}
use pricestream.Base.{
  not_both, ℕ, ◌+◌, Bool-cases, true, false, ◌≡◌, refl, sym, ◌∙◌, ap, inl, inr, Option,
  Option-cases, none, some, List, [], ◌∷◌, ◌++◌, arith, All, length,
}
use pricestream.Base.Text.{Text, text_eq, text_eq_iff, text_ne}
use pricestream.Base.Result.{Exn, Result-cases, ok, raise}
use pricestream.Models.{Instrument, FitsColumns, parse_symbol}
use pricestream.Consumer.{find_instrument}
use pricestream.Commands.{Defaults, new_row, get_or_create, create_rows, handle}

abbrev pub IsFound : Text → List Instrument → Type 0
IsFound symbol table = (i : Instrument) × (find_instrument symbol table ≡ some i)

-- The constraint of the table: no symbol twice.
abbrev pub IsUnique : List Instrument → Type 0
IsUnique [] = Unit
IsUnique (i ∷ table) = (find_instrument i.symbol table ≡ none) × IsUnique table

abbrev pub IsParsed : Text → Type 0
IsParsed symbol = (names : Text × Text) × (parse_symbol symbol ≡ ok names)

-- It parses into names that fit their columns, as it does itself.
abbrev pub IsStorable : Text → Type 0
IsStorable symbol =
    (names : Text × Text) × (parse_symbol symbol ≡ ok names) × FitsColumns symbol names

-- A row whose texts fit their columns can be inserted, if no row has its symbol.
abbrev pub TakesFitting : Defaults → Type 0
TakesFitting D =
    (table : List Instrument) (row : Instrument)
    → find_instrument row.symbol table ≡ none
    → FitsColumns row.symbol (row.base, row.quote)
    → D.insert table row ≡ ok tt

find_instrument-append :
    (symbol : Text) (table more : List Instrument)
    → find_instrument symbol (table ++ more)
      ≡ elim (find_instrument symbol table) [ some i ↦ some i | none ↦ find_instrument symbol more ]
unfolding find_instrument
find_instrument-append symbol [] more = refl
find_instrument-append symbol (i ∷ table) more = elim (Bool-cases (text_eq i.symbol symbol)) [
  | inl e ↦ rw e refl
  | inr e ↦ rw e (find_instrument-append symbol table more)
]

IsFound-append :
    (symbol : Text) (table more : List Instrument)
    → IsFound symbol table
    → IsFound symbol (table ++ more)
IsFound-append symbol table more (i, h) = (i, find_instrument-append symbol table more ∙ rw h refl)

IsFound-last :
    (symbol : Text) (table : List Instrument) (row : Instrument)
    → row.symbol ≡ symbol
    → find_instrument symbol table ≡ none
    → IsFound symbol (table ++ row ∷ [])
unfolding find_instrument
IsFound-last symbol table row same h = (
  row,
  find_instrument-append symbol table (row ∷ [])
      ∙ rw (h, find_instrument, (text_eq_iff row.symbol symbol).1 same) refl,
)

some-ne : {i : Instrument} → ◌≡◌ {A = Option Instrument} (some i) none → ⊥
some-ne h = cc

IsUnique-last :
    (table : List Instrument) (row : Instrument)
    → find_instrument row.symbol table ≡ none
    → IsUnique table
    → IsUnique (table ++ row ∷ [])
unfolding find_instrument
IsUnique-last [] row h u = (refl, tt)
IsUnique-last (i ∷ table) row h u = elim (Bool-cases (text_eq i.symbol row.symbol)) [
  | inl e ↦ absurd (some-ne {i = i} (rw (find_instrument, e) at h))
  | inr e ↦
      let other : find_instrument row.symbol table ≡ none = rw (find_instrument, e) at h in
      let apart : text_eq row.symbol i.symbol ≡ false =
        text_ne row.symbol i.symbol
          (λ same. not_both ((text_eq_iff i.symbol row.symbol).1 (sym same)) e) in
      (
        find_instrument-append i.symbol table (row ∷ []) ∙ rw (u.0, apart) refl,
        IsUnique-last table row other u.1,
      )
]

all-IsParsed : (symbols : List Text) → All IsStorable symbols → All IsParsed symbols
all-IsParsed [] h = tt
all-IsParsed (s ∷ ss) ((names, p, _), h) = ((names, p), all-IsParsed ss h)

pair_eq : {A B : Type 0} {a a' : A} {b b' : B} → a ≡ a' → b ≡ b' → ◌≡◌ {A = A × B} (a, b) (a', b')
pair_eq e f = cc

add-zero : (k : ℕ) → k + 0 ≡ k
add-zero k = omega arith

module _ (D : Defaults) where
  pub create_rows-kept :
      (s : Text) (ss : List Text) (k : ℕ) (table : List Instrument) (names : Text × Text)
      → (i : Instrument) → parse_symbol s ≡ ok names
      → find_instrument s table ≡ some i
      → create_rows D (s ∷ ss) k table ≡ create_rows D ss k table
  unfolding create_rows get_or_create
  create_rows-kept s ss k table names i p f =
      let made : get_or_create D s names table ≡ (ok false, table) = rw (get_or_create, f) in
      rw (create_rows, p, ap (λ r. r.0) made, ap (λ r. r.1) made) refl

  create_rows-stops :
      (s : Text) (ss : List Text) (k : ℕ) (table : List Instrument) (x : Exn)
      → parse_symbol s ≡ raise x
      → create_rows D (s ∷ ss) k table ≡ (raise x, table)
  unfolding create_rows
  create_rows-stops s ss k table x p = rw (create_rows, p) refl

  create_rows-refused :
      (s : Text) (ss : List Text) (k : ℕ) (table : List Instrument) (names : Text × Text) (x : Exn)
      → parse_symbol s ≡ ok names
      → find_instrument s table ≡ none
      → D.insert table (new_row D s names table) ≡ raise x
      → create_rows D (s ∷ ss) k table ≡ (raise x, table)
  unfolding create_rows get_or_create
  create_rows-refused s ss k table names x p n h =
      let made : get_or_create D s names table ≡ (raise x, table) = rw (get_or_create, n, h) in
      rw (create_rows, p, ap (λ r. r.0) made, ap (λ r. r.1) made) refl

  pub create_rows-new :
      (s : Text) (ss : List Text) (k : ℕ) (table : List Instrument) (names : Text × Text)
      → parse_symbol s ≡ ok names
      → find_instrument s table ≡ none
      → D.insert table (new_row D s names table) ≡ ok tt
      → create_rows D (s ∷ ss) k table
        ≡ create_rows D ss (k + 1) (table ++ new_row D s names table ∷ [])
  unfolding create_rows get_or_create
  create_rows-new s ss k table names p n h =
      let made : get_or_create D s names table ≡ (ok true, table ++ new_row D s names table ∷ []) =
        rw (get_or_create, n, h) in
      rw (create_rows, p, ap (λ r. r.0) made, ap (λ r. r.1) made) refl

  -- Rows that are there are left as they are.
  create_rows-again :
      (symbols : List Text) (k : ℕ) (table : List Instrument)
      → All IsParsed symbols
      → All (λ s. IsFound s table) symbols
      → create_rows D symbols k table ≡ (ok k, table)
  unfolding create_rows
  create_rows-again [] k table parsed found = refl
  create_rows-again (s ∷ ss) k table ((names, p), ps) ((i, f), fs) =
      create_rows-kept s ss k table names i p f ∙ create_rows-again ss k table ps fs

  create_rows-adds :
      (takes : TakesFitting D) (symbols : List Text) (k : ℕ) (table : List Instrument)
      → All IsStorable symbols
      → (new : List Instrument) × (create_rows D symbols k table
          ≡ (ok (k + length new), table ++ new))
        × All (λ s. IsFound s (table ++ new)) symbols
  unfolding create_rows
  create_rows-adds takes [] k table parsed = ([], rw (append-nil table, add-zero k) refl, tt)
  create_rows-adds takes (s ∷ ss) k table ((names, p, fits), ps) =
      elim (Option-cases (find_instrument s table)) [
        | inr (i, f) ↦
            let (new, run, found) = create_rows-adds takes ss k table ps in
            (
              new,
              create_rows-kept s ss k table names i p f ∙ run,
              (IsFound-append s table new (i, f), found),
            )
        | inl n ↦
            let row : Instrument = new_row D s names table in
            let (new, run, found) = create_rows-adds takes ss (k + 1) (table ++ row ∷ []) ps in
            let joined : (table ++ row ∷ []) ++ new ≡ table ++ row ∷ new =
              append_assoc table (row ∷ []) new in
            (
              row ∷ new,
              create_rows-new s ss k table names p n (takes table row n fits)
                  ∙ run
                  ∙ pair_eq (ap ok (omega arith)) joined,
              subst (λ t. All (λ s'. IsFound s' t) (s ∷ ss)) joined
                  (
                    IsFound-append s (table ++ row ∷ []) new (IsFound-last s table row refl n),
                    found,
                  ),
            )
      ]

  create_rows-IsUnique :
      (symbols : List Text) (k : ℕ) (table : List Instrument)
      → IsUnique table
      → (new : List Instrument) × ((create_rows D symbols k table).1 ≡ table ++ new)
        × IsUnique (table ++ new)
  unfolding create_rows
  create_rows-IsUnique [] k table u =
      ([], sym (append-nil table), subst IsUnique (sym (append-nil table)) u)
  create_rows-IsUnique (s ∷ ss) k table u = elim (Result-cases (parse_symbol s)) [
    | inr (x, p) ↦ (
      [],
      ap (λ r. r.1) (create_rows-stops s ss k table x p) ∙ sym (append-nil table),
      subst IsUnique (sym (append-nil table)) u,
    )
    | inl (names, p) ↦ elim (Option-cases (find_instrument s table)) [
      | inr (i, f) ↦
          let (new, run, unique) = create_rows-IsUnique ss k table u in
          (new, ap (λ r. r.1) (create_rows-kept s ss k table names i p f) ∙ run, unique)
      | inl n ↦
          let row : Instrument = new_row D s names table in
          elim (Result-cases (D.insert table row)) [
            | inr (x, h) ↦ (
              [],
              ap (λ r. r.1) (create_rows-refused s ss k table names x p n h)
                  ∙ sym (append-nil table),
              subst IsUnique (sym (append-nil table)) u,
            )
            | inl (_, h) ↦
                let (new, run, unique) =
                  create_rows-IsUnique ss (k + 1) (table ++ row ∷ [])
                    (IsUnique-last table row n u) in
                let joined : (table ++ row ∷ []) ++ new ≡ table ++ row ∷ new =
                  append_assoc table (row ∷ []) new in
                (
                  row ∷ new,
                  ap (λ r. r.1) (create_rows-new s ss k table names p n h) ∙ run ∙ joined,
                  subst IsUnique joined unique,
                )
          ]
    ]
  ]

  -- Where the database takes rows whose texts fit their columns, and all configured symbols parse into
  -- names that fit, as they do themselves: the command returns the number of the rows that it has
  -- added behind those of the table; then each configured symbol has a row, and a second run adds none
  -- and returns 0.
  pub handle_lem :
      (takes : TakesFitting D) (symbols : List Text) (table : List Instrument)
      → All IsStorable symbols
      → (new : List Instrument) × (handle D symbols table ≡ (ok (length new), table ++ new))
        × All (λ s. IsFound s (table ++ new)) symbols
        × (handle D symbols (table ++ new) ≡ (ok 0, table ++ new))
  unfolding handle
  handle_lem takes symbols table storable =
      let (new, run, found) = create_rows-adds takes symbols 0 table storable in
      (
        new,
        run ∙ pair_eq (ap ok (omega arith)) refl,
        found,
        create_rows-again symbols 0 (table ++ new) (all-IsParsed symbols storable) found,
      )

  -- Whether or not a symbol fails to parse or a row is refused on the way, the command leaves the rows that were there,
  -- adds rows behind them, and no symbol gets a second row.
  pub handle-IsUnique :
      (symbols : List Text) (table : List Instrument)
      → IsUnique table
      → (new : List Instrument) × ((handle D symbols table).1 ≡ table ++ new)
        × IsUnique (table ++ new)
  unfolding handle
  handle-IsUnique symbols table u = create_rows-IsUnique symbols 0 table u
