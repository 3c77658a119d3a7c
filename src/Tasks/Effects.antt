-- ===== src/Tasks/Effects.antt =====
-- What a step writes to the tables, the cache, the clients and Kafka: lists that are put behind the old ones.
use mathlib.Core.List.{append_assoc, append-nil}
use mathlib.Core.Path.{subst}
use pricestream.Base.{◌≡◌, refl, sym, ◌∙◌, ap, List, [], ◌∷◌, ◌++◌}
use pricestream.Base.Text.{Text}
use pricestream.Base.Result.{Result, ok, raise}
use pricestream.Models.{Instrument, Quote, ConsolidatedPrice, ArbitrageOpportunity}
use pricestream.Tasks.After.{After}
use pricestream.Tasks.Environment.{World}

-- What is in the tables, the cache and the messages to the clients and to Kafka, or what is added to them.
pub record Rows : Type 0 where
  pub instruments : List Instrument
  pub quotes : List Quote
  pub prices : List ConsolidatedPrice
  pub opportunities : List ArbitrageOpportunity
  pub cached : List (Text × ConsolidatedPrice)
  pub sent : List (Text × ConsolidatedPrice)
  pub published : List (Text × Quote)

abbrev pub nothing : Rows
nothing = record {
  instruments = [];
  quotes = [];
  prices = [];
  opportunities = [];
  cached = [];
  sent = [];
  published = [];
}

abbrev pub both : Rows → Rows → Rows
both d d' = record {
  instruments = d.instruments ++ d'.instruments;
  quotes = d.quotes ++ d'.quotes;
  prices = d.prices ++ d'.prices;
  opportunities = d.opportunities ++ d'.opportunities;
  cached = d.cached ++ d'.cached;
  sent = d.sent ++ d'.sent;
  published = d.published ++ d'.published;
}

abbrev pub rows : World → Rows
rows w = record {
  instruments = w.instruments;
  quotes = w.quotes;
  prices = w.prices;
  opportunities = w.opportunities;
  cached = w.cache;
  sent = w.broadcasts;
  published = w.published;
}

pub both_assoc : (a b c : Rows) → both (both a b) c ≡ both a (both b c)
both_assoc a b c =
    let instruments = append_assoc a.instruments b.instruments c.instruments in
    let quotes = append_assoc a.quotes b.quotes c.quotes in
    let prices = append_assoc a.prices b.prices c.prices in
    let opportunities = append_assoc a.opportunities b.opportunities c.opportunities in
    let cached = append_assoc a.cached b.cached c.cached in
    let sent = append_assoc a.sent b.sent c.sent in
    let published = append_assoc a.published b.published c.published in cc

pub both-nothing : (a : Rows) → both a nothing ≡ a
both-nothing a =
    let instruments = append-nil a.instruments in
    let quotes = append-nil a.quotes in
    let prices = append-nil a.prices in
    let opportunities = append-nil a.opportunities in
    let cached = append-nil a.cached in
    let sent = append-nil a.sent in let published = append-nil a.published in cc

-- What is added to one table alone.
pub only_instruments :
    (r : Rows) (x : Instrument)
    → record r { instruments = r.instruments ++ x ∷ [] }
      ≡ both r (record nothing { instruments = x ∷ [] })
only_instruments r x =
    ap {A = Rows} (λ t. record t { instruments = r.instruments ++ x ∷ [] }) (sym (both-nothing r))

pub only_quotes :
    (r : Rows) (x : Quote)
    → record r { quotes = r.quotes ++ x ∷ [] } ≡ both r (record nothing { quotes = x ∷ [] })
only_quotes r x =
    ap {A = Rows} (λ t. record t { quotes = r.quotes ++ x ∷ [] }) (sym (both-nothing r))

pub only_prices :
    (r : Rows) (x : ConsolidatedPrice)
    → record r { prices = r.prices ++ x ∷ [] } ≡ both r (record nothing { prices = x ∷ [] })
only_prices r x =
    ap {A = Rows} (λ t. record t { prices = r.prices ++ x ∷ [] }) (sym (both-nothing r))

pub only_opportunities :
    (r : Rows) (x : ArbitrageOpportunity)
    → record r { opportunities = r.opportunities ++ x ∷ [] }
      ≡ both r (record nothing { opportunities = x ∷ [] })
only_opportunities r x =
    ap {A = Rows} (λ t. record t { opportunities = r.opportunities ++ x ∷ [] })
      (sym (both-nothing r))

pub only_cached :
    (r : Rows) (x : Text × ConsolidatedPrice)
    → record r { cached = r.cached ++ x ∷ [] } ≡ both r (record nothing { cached = x ∷ [] })
only_cached r x =
    ap {A = Rows} (λ t. record t { cached = r.cached ++ x ∷ [] }) (sym (both-nothing r))

pub only_sent :
    (r : Rows) (x : Text × ConsolidatedPrice)
    → record r { sent = r.sent ++ x ∷ [] } ≡ both r (record nothing { sent = x ∷ [] })
only_sent r x = ap {A = Rows} (λ t. record t { sent = r.sent ++ x ∷ [] }) (sym (both-nothing r))

pub only_published :
    (r : Rows) (x : Text × Quote)
    → record r { published = r.published ++ x ∷ [] }
      ≡ both r (record nothing { published = x ∷ [] })
only_published r x =
    ap {A = Rows} (λ t. record t { published = r.published ++ x ∷ [] }) (sym (both-nothing r))

-- First d and then d'.
pub both_steps :
    (r r' r'' d d' : Rows) → r' ≡ both r d → r'' ≡ both r' d' → r'' ≡ both r (both d d')
both_steps r r' r'' d d' e e' = e' ∙ ap (λ t. both t d') e ∙ both_assoc r d d'

-- What holds of a computation that may raise, where it returns.
pub After-result {ℓ} :
    {A : Type ℓ} {Q : A → World → Type 0} (r : Result A) (w : World)
    → ((a : A) → r ≡ ok a → Q a w)
    → After ⊥ Q (r, w)
After-result (ok a) w h = record { holds = h a refl }
After-result (raise x) w h = record { holds = λ no. no }

pub returned-holds {ℓ} :
    {A : Type ℓ} {Q : A → World → Type 0} (r : Result A × World) (a : A) (w : World)
    → r ≡ (ok a, w)
    → After ⊥ Q r
    → Q a w
returned-holds {Q} r a w e h = let after = subst (λ r. After ⊥ Q r) e h in after.holds
