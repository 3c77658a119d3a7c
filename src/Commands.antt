-- ===== src/Commands.antt =====
-- apps/pricing/management/commands/bootstrap_instruments.py: the rows of the configured instruments.
pub mod Bootstrap
pub mod SameRows
mod Tests
use pricestream.Base.{
  ℕ, ◌+◌, Bool, true, false, Option, none, some, List, [], ◌∷◌, ◌++◌, if◌then◌else◌,
}
use pricestream.Base.Text.{Text}
use pricestream.Base.Result.{Result, ok, raise}
use pricestream.Clock.{Datetime}
use pricestream.Models.{Instrument, parse_symbol}
use pricestream.Consumer.{find_instrument}

-- What a new row gets beside its fields, by the rows that are there, and its insert into them, which
-- raises where the database does not take a value.
pub record Defaults : Type 0 where
  pub new_pk : List Instrument → ℕ
  pub now : List Instrument → Datetime
  pub insert : List Instrument → Instrument → Result (Unit {0})

module _ (D : Defaults) where
  abbrev pub new_row : Text → Text × Text → List Instrument → Instrument
  new_row symbol (base, quote) table = record {
    pk = D.new_pk table;
    symbol = symbol;
    base = base;
    quote = quote;
    is_active = true;
    created_at = D.now table;
  }

  -- `Instrument.objects.get_or_create(symbol=…, defaults=…)`: whether a row was created, and the rows.
  unfoldable pub get_or_create :
      Text → Text × Text → List Instrument → Result Bool × List Instrument
  get_or_create symbol names table = elim (find_instrument symbol table) [
    | some i ↦ (ok false, table)
    | none ↦ elim (D.insert table (new_row symbol names table)) [
      | raise x ↦ (raise x, table)
      | ok _ ↦ (ok true, table ++ new_row symbol names table ∷ [])
    ]
  ]

  -- `Command.handle` with what it has created so far: the number of new rows, and the rows. Each row
  -- is a transaction of its own, which stays where a later symbol raises.
  unfoldable pub create_rows : List Text → ℕ → List Instrument → Result ℕ × List Instrument
  create_rows [] created table = (ok created, table)
  create_rows (symbol ∷ symbols) created table = elim (parse_symbol symbol) [
    | raise x ↦ (raise x, table)
    | ok names ↦
        let (outcome, table') = get_or_create symbol names table in
        elim outcome [
          | raise x ↦ (raise x, table')
          | ok was_created ↦
              create_rows symbols (if was_created then created + 1 else created) table'
        ]
  ]

  -- `Command.handle`
  unfoldable pub handle : List Text → List Instrument → Result ℕ × List Instrument
  handle symbols = create_rows symbols 0
