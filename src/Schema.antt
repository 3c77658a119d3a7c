-- ===== src/Schema.antt =====
-- The tables: what apps/pricing/models.py declares (Schema/Declared.antt) and what the migrations make
-- (Schema/Migrations.antt). The names of indexes and the SQL are the framework's.
pub mod Declared
pub mod Created
pub mod Migrations
pub mod Lookup
pub mod Agreement
use pricestream.Base.{
  ℕ, Bool, true, false, Option, none, some, List, [], ◌∷◌, ◌++◌, ◌&&◌, if◌then◌else◌, leb, length,
}
use pricestream.Base.Text.{Text, text, text_eq}

-- The classes of the fields with their sizes; a foreign key has its table, what is deleted with the
-- row there, and the name of the way back.
pub data Kind : Type 0 where
  big_auto boolean date_time json positive_integer : Kind
  char : (max_length : ℕ) → Kind
  decimal : (max_digits decimal_places : ℕ) → Kind
  foreign_key : (to : Text) (cascade : Bool) (related_name : Text) → Kind

-- `default=…`, and `auto_now_add=True`
pub data Default : Type 0 where
  no_default default_true default_zero default_list default_now auto_now_add : Default

pub record Field : Type 0 where
  pub name : Text
  pub kind : Kind
  pub unique : Bool
  pub db_index : Bool
  pub default : Default
  pub choices : List (Text × Text)

-- `class Meta`
pub record Options : Type 0 where
  pub ordering : List Text
  pub indexes : List (List Text)
  pub unique_together : List Text

pub record Table : Type 0 where
  pub name : Text
  pub fields : List Field
  pub options : Options

abbrev pub field : Text → Kind → Field
field name kind = record {
  name = name;
  kind = kind;
  unique = false;
  db_index = false;
  default = no_default;
  choices = [];
}

-- `id`, which is there without a declaration: `DEFAULT_AUTO_FIELD`
abbrev pub id_field : Field
id_field = field (text "id") big_auto

abbrev pub price_field : Text → Field
price_field name = field name (decimal 24 10)

unfoldable pub find {ℓ} : {A : Type ℓ} → (A → Text) → Text → List A → Option A
find name n [] = none
find name n (x ∷ xs) = let rest = find name n xs in if text_eq (name x) n then some x else rest

-- What is asked of a table, if there is one: a field, and the options.
abbrev pub column_of : Text → Option Table → Option (Option Field × Options)
column_of name none = none
column_of name (some t) = some (find (λ f. f.name) name t.fields, t.options)

abbrev pub column : Text → Text → List Table → Option (Option Field × Options)
column table name tables = column_of name (find (λ t. t.name) table tables)
