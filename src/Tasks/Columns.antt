-- ===== src/Tasks/Columns.antt =====
-- The texts that a round writes fit the columns of apps/pricing/models.py.
use mathlib.Core.Path.{subst}
use pricestream.Base.{
  All, All-append, Any-All, Bool, List, Option, [], ap, false, if◌then◌else◌, leb, length, none,
  refl, some, sym, true, ℕ, ◌&&◌, ◌++◌, ◌∙◌, ◌∷◌, ◌≡◌,
}
use pricestream.Base.Text.{Text, text, text_eq}
use pricestream.Base.Result.{ok, ok-injective}
use pricestream.Models.{
  Instrument, Source, binance, coinbase, kraken, source_value, Quote, ConsolidatedPrice,
  ArbitrageOpportunity,
}
use pricestream.Schema.{Field, Options, char, find, column}
use pricestream.Schema.Declared.{models}
use pricestream.Aggregator.{Arbitrage, detect_arbitrage}
use pricestream.Aggregator.Spec.{IsReport, ReportsSell}
use pricestream.Aggregator.Spec as Spec
use pricestream.Aggregator.Arbitrages.{detect_arbitrage-largest}
use pricestream.Tasks.{Counts, fetch_quotes}
use pricestream.Tasks.Environment.{World, Services}
use pricestream.Tasks.Effects.{Rows}
use pricestream.Tasks.Reports.{
  Polled, finished, missed, quoted, Detected, none_found, one_found, Settled, unpriced, priced,
  Report, Reports, no_more, report,
}
use pricestream.Tasks.Lineage.{fetch_quotes-Reports}

abbrev is_choice : Text → List (Text × Text) → Bool
is_choice s [] = false
is_choice s ((value, label) ∷ cs) = if text_eq value s then true else is_choice s cs

-- A text that is no longer than the column allows, and is one of its choices if it has some.
abbrev takes : Field → Text → Bool
takes f s = elim f.kind [
  | char max_length ↦
      leb (length s) max_length && elim f.choices [ [] ↦ true | c ∷ cs ↦ is_choice s (c ∷ cs) ]
  | _ ↦ false
]

abbrev accepts : Option (Option Field × Options) → Text → Bool
accepts none s = false
accepts (some (none, options)) s = false
accepts (some (some f, options)) s = takes f s

-- The text fits the column that is declared.
abbrev pub Fits : Text → Text → Text → Type 0
Fits table name s = accepts (column table name models) s ≡ true

-- The venues of the quotes and of the opportunities fit their columns.
pub record IsStored (quotes : List Quote) (opportunities : List ArbitrageOpportunity) : Type 0 where
  pub sources : All (λ q. Fits (text "Quote") (text "source") q.source) quotes
  pub buy_venues :
      All (λ o. Fits (text "ArbitrageOpportunity") (text "buy_venue") o.buy_venue) opportunities
  pub sell_venues :
      All (λ o. Fits (text "ArbitrageOpportunity") (text "sell_venue") o.sell_venue) opportunities

-- A text of `Quote.Source`.
abbrev IsSource : Text → Type 0
IsSource s = (source : Source) × (s ≡ source_value source)

source-Fits : (source : Source) → Fits (text "Quote") (text "source") (source_value source)
unfolding find text_eq
source-Fits binance = refl
source-Fits coinbase = refl
source-Fits kraken = refl

buy_venue-Fits :
    (source : Source) → Fits (text "ArbitrageOpportunity") (text "buy_venue") (source_value source)
unfolding find text_eq
buy_venue-Fits binance = refl
buy_venue-Fits coinbase = refl
buy_venue-Fits kraken = refl

sell_venue-Fits :
    (source : Source) → Fits (text "ArbitrageOpportunity") (text "sell_venue") (source_value source)
unfolding find text_eq
sell_venue-Fits binance = refl
sell_venue-Fits coinbase = refl
sell_venue-Fits kraken = refl

-- What a column takes of each source it takes of a text that is one.
IsSource-Fits :
    (table name s : Text)
    → ((source : Source) → Fits table name (source_value source))
    → IsSource s
    → Fits table name s
IsSource-Fits table name s fits (source, same) =
    subst (λ s. Fits table name s) (sym same) (fits source)

IsStored-append :
    (qs qs' : List Quote) (os os' : List ArbitrageOpportunity)
    → IsStored qs os
    → IsStored qs' os'
    → IsStored (qs ++ qs') (os ++ os')
IsStored-append qs qs' os os' h h' = record {
  sources = All-append _ qs qs' h.sources h'.sources;
  buy_venues = All-append _ os os' h.buy_venues h'.buy_venues;
  sell_venues = All-append _ os os' h.sell_venues h'.sell_venues;
}

module _ (S : Services) (e g : ℕ) where
  Polled-IsSource :
      {i : Instrument} {sources : List Source} {quotes rows : List Quote}
      {messages : List (Text × Quote)}
      → Polled S e g i sources quotes rows messages
      → All (λ q. IsSource q.source) quotes × All (λ q. IsSource q.source) rows
  Polled-IsSource finished = (tt, tt)
  Polled-IsSource (missed t h p) = Polled-IsSource p
  Polled-IsSource (quoted {source} t t' t'' bid ask h kept p) =
      let (quotes, rows) = Polled-IsSource p in
      (((source, refl), quotes), ((source, ap {A = Quote} (λ q. q.source) kept.same), rows))

  -- The venues of what is found are those of two quotes.
  detect_arbitrage-IsSource :
      (quotes : List Quote) (a : Arbitrage)
      → detect_arbitrage e quotes ≡ ok (some a)
      → All (λ q. IsSource q.source) quotes
      → IsSource a.buy_venue × IsSource a.sell_venue
  detect_arbitrage-IsSource quotes a run sources =
      let (r, run', covers, reports) = detect_arbitrage-largest e quotes in
      let found = ok-injective r (some a) (sym run' ∙ run) in
      let (buy, (buy_source, bought), sells) =
        Any-All (λ q. IsSource q.source) (λ buy. ReportsSell buy quotes a) quotes sources
          (subst (λ r. Spec.Reports quotes quotes r) found reports) in
      let (sell, (sell_source, sold), is) =
        Any-All (λ q. IsSource q.source) (λ sell. IsReport buy sell a) quotes sources sells in
      ((buy_source, is.buy_venue ∙ bought), (sell_source, is.sell_venue ∙ sold))

  Detected-IsStored :
      {i : Instrument} {quotes : List Quote} {os : List ArbitrageOpportunity}
      → Detected S e g i quotes os
      → All (λ q. IsSource q.source) quotes
      → IsStored [] os
  Detected-IsStored (none_found h) sources = record {
    sources = tt;
    buy_venues = tt;
    sell_venues = tt;
  }
  Detected-IsStored (one_found {row} a h kept) sources =
      let (buy, sell) = detect_arbitrage-IsSource _ a h sources in
      record {
        sources = tt;
        buy_venues =
            (IsSource-Fits _ _ row.buy_venue buy_venue-Fits (buy.0, kept.buy_venue ∙ buy.1), tt);
        sell_venues = (
          IsSource-Fits _ _ row.sell_venue sell_venue-Fits (sell.0, kept.sell_venue ∙ sell.1),
          tt,
        );
      }

  Settled-IsStored :
      {i : Instrument} {quotes : List Quote} {ps : List ConsolidatedPrice}
      {cs : List (Text × ConsolidatedPrice)} {os : List ArbitrageOpportunity}
      → Settled S e g i quotes ps cs os
      → All (λ q. IsSource q.source) quotes
      → IsStored [] os
  Settled-IsStored (unpriced t h) sources = record {
    sources = tt;
    buy_venues = tt;
    sell_venues = tt;
  }
  Settled-IsStored (priced t t' c h kept detected) sources = Detected-IsStored detected sources

  All-source-Fits :
      (qs : List Quote)
      → All (λ q. IsSource q.source) qs
      → All (λ q. Fits (text "Quote") (text "source") q.source) qs
  All-source-Fits [] h = tt
  All-source-Fits (q ∷ qs) h = (IsSource-Fits _ _ q.source source-Fits h.0, All-source-Fits qs h.1)

  Report-IsStored :
      {i : Instrument} {d : Rows} {counts : Counts}
      → Report S e g i d counts
      → IsStored d.quotes d.opportunities
  Report-IsStored h =
      let (quotes, rows) = Polled-IsSource h.polled in
      let opportunities = Settled-IsStored h.settled quotes in
      record {
        sources = All-source-Fits _ rows;
        buy_venues = opportunities.buy_venues;
        sell_venues = opportunities.sell_venues;
      }

  Reports-IsStored :
      {is : List Instrument} {d : Rows} {counts : Counts}
      → Reports S e g is d counts
      → IsStored d.quotes d.opportunities
  Reports-IsStored no_more = record { sources = tt; buy_venues = tt; sell_venues = tt }
  Reports-IsStored (report {d} {ds} first others) =
      IsStored-append d.quotes ds.quotes d.opportunities ds.opportunities (Report-IsStored first)
        (Reports-IsStored others)

  -- Where the source of each quote is a choice of its column that is short enough, and the venues of
  -- each opportunity are short enough for theirs, a round that returned leaves it so, on any answers of
  -- the exchanges: whatever it wrote there, the columns that the models declare take.
  pub fetch_quotes-IsStored :
      (w w' : World) (counts : Counts)
      → fetch_quotes S e g w ≡ (ok counts, w')
      → IsStored w.quotes w.opportunities
      → IsStored w'.quotes w'.opportunities
  fetch_quotes-IsStored w w' counts returned stored =
      let (ps, new, d, parsed, created, reports, wrote) =
        fetch_quotes-Reports S e g w w' counts returned in
      rw (ap {A = Rows} (λ r. r.quotes) wrote, ap {A = Rows} (λ r. r.opportunities) wrote)
        (IsStored-append w.quotes d.quotes w.opportunities d.opportunities stored
          (Reports-IsStored reports))
