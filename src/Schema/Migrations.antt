-- ===== src/Schema/Migrations.antt =====
-- apps/pricing/migrations: 0001_initial.py and 0002_arbitrageopportunity.py, in the order in which they
-- depend on each other. How the framework runs them is not modelled.
use pricestream.Base.{List, [], ◌∷◌, ◌++◌}
use pricestream.Base.Text.{Text, text}
use pricestream.Schema.{Table}
use pricestream.Schema.Created.{
  instrument_table, consolidated_price_table, ohlc_bar_table, quote_table,
  arbitrage_opportunity_table,
}

-- Each operation is a `CreateModel`.
pub record Migration : Type 0 where
  pub name : Text
  pub dependencies : List Text
  pub operations : List Table

abbrev pub initial : Migration
initial = record {
  name = text "0001_initial";
  dependencies = [];
  operations = instrument_table ∷ consolidated_price_table ∷ ohlc_bar_table ∷ quote_table ∷ [];
}

abbrev pub arbitrageopportunity : Migration
arbitrageopportunity = record {
  name = text "0002_arbitrageopportunity";
  dependencies = text "0001_initial" ∷ [];
  operations = arbitrage_opportunity_table ∷ [];
}

abbrev pub migrations : List Migration
migrations = initial ∷ arbitrageopportunity ∷ []

-- The tables that the operations create, in their order.
abbrev pub created : List Migration → List Table
created [] = []
created (m ∷ ms) = m.operations ++ created ms
