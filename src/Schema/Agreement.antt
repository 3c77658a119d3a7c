-- ===== src/Schema/Agreement.antt =====
-- The migrations make the tables that the models declare.
use mathlib.Core.Path.{subst}
use pricestream.Base.{
  ◌≡◌, Bool, true, false, not, ◌&&◌, ◌||◌, refl, sym, some, List, [], ◌∷◌, All, Option-cases, inl,
  inr,
}
use pricestream.Base.Text.{Text, text_eq}
use pricestream.Schema.{Field, foreign_key, Table, find, column}
use pricestream.Schema.Declared.{
  models, instrument_model, quote_model, consolidated_price_model, ohlc_bar_model,
  arbitrage_opportunity_model,
}
use pricestream.Schema.Created.{
  instrument_table, consolidated_price_table, ohlc_bar_table, quote_table,
  arbitrage_opportunity_table,
}
use pricestream.Schema.Migrations.{Migration, migrations, created}
use pricestream.Schema.Lookup.{AllFound, find-AllFound, find-found}

-- The same fields, in any order, and the same options.
record IsLike (t t' : Table) : Type 0 where
  there : AllFound (λ f. f.name) t.fields t'.fields
  back : AllFound (λ f. f.name) t'.fields t.fields
  options : t.options ≡ t'.options

abbrev AllLike : List Table → List Table → Type 0
AllLike xs ys = All (λ t. (t' : Table) × (find (λ t. t.name) t.name ys ≡ some t') × IsLike t t') xs

column_there :
    (xs ys : List Table) (table name : Text) (t : Table)
    → AllLike xs ys
    → find (λ t. t.name) table xs ≡ some t
    → column table name xs ≡ column table name ys
column_there xs ys table name t like h =
    let (named, (t', there, same)) =
      find-found (λ t. t.name)
        (λ t. (t' : Table) × (find (λ t. t.name) t.name ys ≡ some t') × IsLike t t') table xs t h
        like in
    let there' = subst (λ k. find (λ t. t.name) k ys ≡ some t') named there in
    let fields = find-AllFound (λ f. f.name) t.fields t'.fields same.there same.back name in
    let options = same.options in rw (h, there', fields, options) refl

column-AllLike :
    (xs ys : List Table)
    → AllLike xs ys
    → AllLike ys xs
    → (table name : Text) → column table name xs ≡ column table name ys
column-AllLike xs ys there back table name = elim (Option-cases (find (λ t. t.name) table xs)) [
  | inr (t, h) ↦ column_there xs ys table name t there h
  | inl h ↦ elim (Option-cases (find (λ t. t.name) table ys)) [
    | inr (t, h') ↦ sym (column_there ys xs table name t back h')
    | inl h' ↦ rw (h, h') refl
  ]
]

abbrev migrated_tables : List Table
migrated_tables = created migrations

abbrev IsMade : Table → Table → Type 0
IsMade t t' =
    (find (λ t. t.name) t'.name migrated_tables ≡ some t)
    × (find (λ t. t.name) t.name models ≡ some t')
    × IsLike t t'

instrument-IsMade : IsMade instrument_table instrument_model
unfolding find text_eq
instrument-IsMade = (
  refl,
  refl,
  record {
    there = (refl, (refl, (refl, (refl, (refl, (refl, tt))))));
    back = (refl, (refl, (refl, (refl, (refl, (refl, tt))))));
    options = refl;
  },
)

consolidated_price-IsMade : IsMade consolidated_price_table consolidated_price_model
unfolding find text_eq
consolidated_price-IsMade = (
  refl,
  refl,
  record {
    there = (refl, (refl, (refl, (refl, (refl, (refl, (refl, tt)))))));
    back = (refl, (refl, (refl, (refl, (refl, (refl, (refl, tt)))))));
    options = refl;
  },
)

ohlc_bar-IsMade : IsMade ohlc_bar_table ohlc_bar_model
unfolding find text_eq
ohlc_bar-IsMade = (
  refl,
  refl,
  record {
    there = (refl, (refl, (refl, (refl, (refl, (refl, (refl, (refl, (refl, (refl, tt))))))))));
    back = (refl, (refl, (refl, (refl, (refl, (refl, (refl, (refl, (refl, (refl, tt))))))))));
    options = refl;
  },
)

quote-IsMade : IsMade quote_table quote_model
unfolding find text_eq
quote-IsMade = (
  refl,
  refl,
  record {
    there = (refl, (refl, (refl, (refl, (refl, (refl, tt))))));
    back = (refl, (refl, (refl, (refl, (refl, (refl, tt))))));
    options = refl;
  },
)

arbitrage_opportunity-IsMade : IsMade arbitrage_opportunity_table arbitrage_opportunity_model
unfolding find text_eq
arbitrage_opportunity-IsMade = (
  refl,
  refl,
  record {
    there = (refl, (refl, (refl, (refl, (refl, (refl, (refl, (refl, (refl, tt)))))))));
    back = (refl, (refl, (refl, (refl, (refl, (refl, (refl, (refl, (refl, tt)))))))));
    options = refl;
  },
)

abbrev Alike : List Table → Table → Type 0
Alike ys t = (t' : Table) × (find (λ t. t.name) t.name ys ≡ some t') × IsLike t t'

to_declared : (t t' : Table) → IsMade t t' → Alike models t
to_declared t t' (made, declared, same) = (t', declared, same)

to_migrated : (t t' : Table) → IsMade t t' → Alike migrated_tables t'
to_migrated t t' (made, declared, same) =
    (t, made, record { there = same.back; back = same.there; options = sym same.options })

migrated-AllLike : AllLike migrated_tables models
migrated-AllLike = (
  to_declared _ _ instrument-IsMade,
  (
    to_declared _ _ consolidated_price-IsMade,
    (
      to_declared _ _ ohlc_bar-IsMade,
      (to_declared _ _ quote-IsMade, (to_declared _ _ arbitrage_opportunity-IsMade, tt)),
    ),
  ),
)

models-AllLike : AllLike models migrated_tables
models-AllLike = (
  to_migrated _ _ instrument-IsMade,
  (
    to_migrated _ _ quote-IsMade,
    (
      to_migrated _ _ consolidated_price-IsMade,
      (to_migrated _ _ ohlc_bar-IsMade, (to_migrated _ _ arbitrage_opportunity-IsMade, tt)),
    ),
  ),
)

abbrev is_named : Text → List Text → Bool
is_named s [] = false
is_named s (t ∷ ts) = text_eq t s || is_named s ts

abbrev all_named : List Text → List Text → Bool
all_named [] names = true
all_named (s ∷ ss) names = is_named s names && all_named ss names

-- Each migration depends on earlier ones only, and has a name of its own.
abbrev follows : List Text → List Migration → Bool
follows earlier [] = true
follows earlier (m ∷ ms) =
    all_named m.dependencies earlier
    && not (is_named m.name earlier)
    && follows (m.name ∷ earlier) ms

-- The tables that the foreign keys point at.
abbrev targets : List Field → List Text
targets [] = []
targets (f ∷ fs) =
    let rest = targets fs in elim f.kind [ foreign_key to cascade name ↦ to ∷ rest | _ ↦ rest ]

-- Each table points at earlier ones only, and has a name of its own.
abbrev builds_up : List Text → List Table → Bool
builds_up earlier [] = true
builds_up earlier (t ∷ ts) =
    all_named (targets t.fields) earlier
    && not (is_named t.name earlier)
    && builds_up (t.name ∷ earlier) ts

-- For every name of a table and of a field, the field and the options of the table that the migrations
-- create are those that the models declare, and there is one where there is the other. Each migration
-- depends on earlier ones only, each table has foreign keys to earlier ones only, and no name is taken
-- twice.
pub migrations-models :
    ((table name : Text) → column table name (created migrations) ≡ column table name models)
    × (follows [] migrations ≡ true)
    × (builds_up [] (created migrations) ≡ true)
unfolding text_eq
migrations-models =
    (column-AllLike migrated_tables models migrated-AllLike models-AllLike, refl, refl)
