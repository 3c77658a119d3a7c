-- ===== src/Pipeline/Messages.antt =====
-- What the messages of a round of `fetch_quotes` are about.
use mathlib.Core.Path.{subst}
use mathlib.Core.List.{append-nil}
use pricestream.Base.{ℕ, ◌≡◌, refl, sym, ◌∙◌, ap, some, List, [], ◌∷◌, ◌++◌, All, All-append}
use pricestream.Base.Text.{Text}
use pricestream.Base.Result.{Result, ok, raise}
use pricestream.Models.{Instrument, Source, Quote}
use pricestream.Consumer.{find_instrument}
use pricestream.Tasks.Environment.{World, Services}
use pricestream.Tasks.{Counts, polled, fetch_quotes}
use pricestream.Tasks.Effects.{Rows}
use pricestream.Tasks.Reports.{
  quote_of, taken, Polled, finished, missed, quoted, Reports, no_more, report,
}
use pricestream.Tasks.Lineage.{fetch_quotes-Reports}

-- The table of the consumer has the instrument under its symbol, which is not empty.
pub record IsKnown (table : List Instrument) (i : Instrument) : Type 0 where
  pub first : ℕ
  pub rest : Text
  pub symbol : i.symbol ≡ first ∷ rest
  pub found : find_instrument i.symbol table ≡ some i

-- The message is about the instrument.
pub record IsAbout (i : Instrument) (m : Text × Quote) : Type 0 where
  pub symbol : m.0 ≡ i.symbol
  pub instrument : m.1.instrument ≡ i.pk

module _ (S : Services) (e g : ℕ) (table : List Instrument) where
  abbrev pub Traced : Text × Quote → Type 0
  Traced m = (i : Instrument) × IsKnown table i × IsAbout i m

  taken-Traced :
      (r : Result (Unit {0})) (i : Instrument) (q : Quote)
      → IsKnown table i
      → q.instrument ≡ i.pk
      → All Traced (taken r i.symbol q)
  taken-Traced (ok u) i q known same = ((i, known, record { symbol = refl; instrument = same }), tt)
  taken-Traced (raise x) i q known same = tt

  Polled-Traced :
      {i : Instrument} {sources : List Source} {quotes rows : List Quote}
      {messages : List (Text × Quote)}
      → IsKnown table i
      → Polled S e g i sources quotes rows messages
      → All Traced messages
  Polled-Traced known finished = tt
  Polled-Traced known (missed t h p) = Polled-Traced known p
  Polled-Traced {i} known (quoted {source} t t' t'' bid ask h kept p) =
      let q : Quote = quote_of i source bid ask (S.now t') in
      All-append _ _ _ (taken-Traced (S.publish t'' i.symbol q) i q known refl)
        (Polled-Traced known p)

  Reports-Traced :
      {is : List Instrument} {d : Rows} {counts : Counts}
      → All (IsKnown table) is
      → Reports S e g is d counts
      → All Traced d.published
  Reports-Traced known no_more = tt
  Reports-Traced known (report first others) =
      All-append _ _ _ (Polled-Traced known.0 first.polled) (Reports-Traced known.1 others)

  Reports-instruments :
      {is : List Instrument} {d : Rows} {counts : Counts}
      → Reports S e g is d counts
      → d.instruments ≡ []
  Reports-instruments no_more = refl
  Reports-instruments (report first others) =
      rw (first.instruments, Reports-instruments others) refl

  -- Each message of a round that started with none is about an instrument that the consumer knows.
  pub fetch_quotes-Traced :
      (w w' : World) (counts : Counts)
      → fetch_quotes S e g w ≡ (ok counts, w')
      → w.published ≡ []
      → All (IsKnown table) (S.ordered (polled S e g w'.instruments))
      → All Traced w'.published
  fetch_quotes-Traced w w' counts run none_yet known =
      let (ps, new, d, parsed, created, reports, wrote) =
        fetch_quotes-Reports S e g w w' counts run in
      let there : w'.instruments ≡ w.instruments ++ new =
        ap {A = Rows} (λ r. r.instruments) wrote
        ∙ ap (λ is. w.instruments ++ (new ++ is)) (Reports-instruments reports)
        ∙ ap (λ is. w.instruments ++ is) (append-nil new) in
      let messages : w'.published ≡ d.published =
        ap {A = Rows} (λ r. r.published) wrote ∙ ap (λ ms. ms ++ d.published) none_yet in
      subst (λ ms. All Traced ms) (sym messages)
        (Reports-Traced
          (subst (λ is. All (IsKnown table) (S.ordered (polled S e g is))) there known) reports)
