-- ===== src/Aggregator/Order.antt =====
-- The order of the quotes does not matter.
use mathlib.Core.Path.{subst}
use mathlib.Core.List.Permᴰ
use mathlib.Core.List.{Permᴰ}
use pricestream.Base.{
  ℕ, ◌+◌, ◌*◌, ◌^◌, ◌<◌, ◌≡◌, refl, ap, sym, ◌∙◌, ◌⊎◌, inl, inr, Option, none, some, List, [], ◌∷◌,
  map, arith, All, Any-All, All-perm, Any-perm, length, length-perm, nil_of_length,
}
use pricestream.Base.Int.{pos, ◌≤ℤ◌, int_laws}
use pricestream.Base.Text.{Text, sorted_set}
use pricestream.Base.Sets.{IsSorted-unique, sorted_set-IsSorted, Has-sorted_set}
use pricestream.Base.Result.{ok}
use pricestream.Decimal.{Decimal, sum_from}
use pricestream.Decimal.Mean.{Within, sum_from-perm}
use pricestream.Models.{Quote}
use pricestream.Aggregator.{Consolidated, consolidate_candidates}
use pricestream.Aggregator.Extremes.{IsMax, IsMin}
use pricestream.Aggregator.Book.{IsTight, IsFallback, mids_total}
use pricestream.Aggregator.Consolidation.{IsOnGrid, Outcome, consolidate_candidates_lem}
use pricestream.Aggregator.Middle.{middle, mids_total-sum_from, length-middle, middle-Units}

map-perm : {A B : Type 0} (f : A → B) {xs ys : List A} → Permᴰ xs ys → Permᴰ (map f xs) (map f ys)
map-perm f Permᴰ.nil = Permᴰ.nil
map-perm f (Permᴰ.cons e p) = Permᴰ.cons (ap f e) (map-perm f p)
map-perm f (Permᴰ.swap e e') = Permᴰ.swap (ap f e) (ap f e')
map-perm f (Permᴰ.trans p q) = Permᴰ.trans (map-perm f p) (map-perm f q)

antisym : (a b : Decimal) → a ≤ℤ b → b ≤ℤ a → a ≡ b
antisym a b h h' = omega (int_laws, h, h')

module _ (f : Quote → Decimal) {cs cs' : List Quote} (p : Permᴰ cs cs') where
  max-same : (m m' : Decimal) → IsMax f cs m → IsMax f cs' m' → m ≡ m'
  max-same m m' h h' =
      let (q, le, e) =
        Any-All (λ q. f q ≤ℤ m') (λ q. m ≡ f q) cs' h'.bounds
          (Any-perm (λ q. m ≡ f q) p h.reached) in
      let (q', le', e') =
        Any-All (λ q. f q ≤ℤ m) (λ q. m' ≡ f q) cs' (All-perm (λ q. f q ≤ℤ m) p h.bounds)
          h'.reached in
      antisym m m' (subst (λ x. x ≤ℤ m') (sym e) le) (subst (λ x. x ≤ℤ m) (sym e') le')

  min-same : (m m' : Decimal) → IsMin f cs m → IsMin f cs' m' → m ≡ m'
  min-same m m' h h' =
      let (q, le, e) =
        Any-All (λ q. m' ≤ℤ f q) (λ q. m ≡ f q) cs' h'.bounds
          (Any-perm (λ q. m ≡ f q) p h.reached) in
      let (q', le', e') =
        Any-All (λ q. m ≤ℤ f q) (λ q. m' ≡ f q) cs' (All-perm (λ q. m ≤ℤ f q) p h.bounds)
          h'.reached in
      antisym m m' (subst (λ x. m ≤ℤ x) (sym e') le') (subst (λ x. m' ≤ℤ x) (sym e) le)

sorted_set-perm : {ss ts : List Text} → Permᴰ ss ts → sorted_set ss ≡ sorted_set ts
sorted_set-perm {ss} {ts} p =
    IsSorted-unique (sorted_set ss) (sorted_set ts) (sorted_set-IsSorted ss)
      (sorted_set-IsSorted ts)
      (λ t h. (Has-sorted_set t ts).1 (Any-perm (λ s. s ≡ t) p ((Has-sorted_set t ss).0 h)))
      (λ t h.
        (Has-sorted_set t ss).1 (Any-perm (λ s. s ≡ t) (Permᴰ.symm p) ((Has-sorted_set t ts).0 h)))

All-amounts :
    (k : ℕ) (cs : List Quote) → All (IsOnGrid k) cs → All (Within k 0 (10 ^ 26)) (map middle cs)
All-amounts k [] h = tt
All-amounts k (q ∷ cs) h =
    let (c, small, e) = middle-Units k q h.0 in
    ((c, omega arith, omega arith, e), All-amounts k cs h.1)

mids_total-perm :
    (k : ℕ) {cs cs' : List Quote}
    → Permᴰ cs cs'
    → All (IsOnGrid k) cs
    → length cs < 100
    → mids_total (pos 0) cs ≡ mids_total (pos 0) cs'
mids_total-perm k {cs} {cs'} p h few =
    let start : pos (0 * 10 ^ k) ≡ pos 0 = ap pos (omega arith) in
    let sums : sum_from (pos (0 * 10 ^ k)) (map middle cs)
        ≡ sum_from (pos (0 * 10 ^ k)) (map middle cs') =
      sum_from-perm k (10 ^ 26) 0 (map-perm middle p) (All-amounts k cs h)
        (omega (arith, length-middle cs)) in
    mids_total-sum_from (pos 0) cs ∙ (rw start at sums) ∙ sym (mids_total-sum_from (pos 0) cs')

-- The smaller of two amounts, and the larger.
lower-same :
    (x x' b b' m m' : Decimal)
    → b ≡ b'
    → m ≡ m'
    → ((x ≡ b) × (b ≤ℤ m)) ⊎ ((x ≡ m) × (m ≤ℤ b))
    → ((x' ≡ b') × (b' ≤ℤ m')) ⊎ ((x' ≡ m') × (m' ≤ℤ b'))
    → x ≡ x'
lower-same x x' b b' m m' e f (inl h) (inl h') = h.0 ∙ e ∙ sym h'.0
lower-same x x' b b' m m' e f (inr h) (inr h') = h.0 ∙ f ∙ sym h'.0
lower-same x x' b b' m m' e f (inl h) (inr h') =
    h.0
    ∙ antisym b m h.1 (subst (λ y. m ≤ℤ y) (sym e) (subst (λ y. y ≤ℤ b') (sym f) h'.1))
    ∙ f
    ∙ sym h'.0
lower-same x x' b b' m m' e f (inr h) (inl h') =
    h.0
    ∙ antisym m b h.1 (subst (λ y. b ≤ℤ y) (sym f) (subst (λ y. y ≤ℤ m') (sym e) h'.1))
    ∙ e
    ∙ sym h'.0

upper-same :
    (x x' b b' m m' : Decimal)
    → b ≡ b'
    → m ≡ m'
    → ((x ≡ b) × (m ≤ℤ b)) ⊎ ((x ≡ m) × (b ≤ℤ m))
    → ((x' ≡ b') × (m' ≤ℤ b')) ⊎ ((x' ≡ m') × (b' ≤ℤ m'))
    → x ≡ x'
upper-same x x' b b' m m' e f (inl h) (inl h') = h.0 ∙ e ∙ sym h'.0
upper-same x x' b b' m m' e f (inr h) (inr h') = h.0 ∙ f ∙ sym h'.0
upper-same x x' b b' m m' e f (inl h) (inr h') =
    h.0
    ∙ antisym b m (subst (λ y. b ≤ℤ y) (sym f) (subst (λ y. y ≤ℤ m') (sym e) h'.1)) h.1
    ∙ f
    ∙ sym h'.0
upper-same x x' b b' m m' e f (inr h) (inl h') =
    h.0
    ∙ antisym m b (subst (λ y. m ≤ℤ y) (sym e) (subst (λ y. y ≤ℤ b') (sym f) h'.1)) h.1
    ∙ e
    ∙ sym h'.0

module _ {cs cs' : List Quote} (perm : Permᴰ cs cs') (p p' : Consolidated) where
  tight-same : p.sources ≡ p'.sources → IsTight cs p → IsTight cs' p' → p ≡ p'
  tight-same sources t t' =
      let bid = max-same (λ q. q.bid) perm p.bid p'.bid t.best_bid t'.best_bid in
      let ask = min-same (λ q. q.ask) perm p.ask p'.ask t.best_ask t'.best_ask in
      let mid : p.mid ≡ p'.mid = t.mid ∙ rw (bid, ask) refl ∙ sym t'.mid in
      cc (sources, bid, ask, mid)

  tight-not_fallback : IsTight cs p → IsFallback cs' p' → ⊥
  tight-not_fallback t f =
      let bid = max-same (λ q. q.bid) perm p.bid f.best_bid t.best_bid f.is_bid in
      let ask = min-same (λ q. q.ask) perm p.ask f.best_ask t.best_ask f.is_ask in
      let uncrossed : f.best_bid ≤ℤ f.best_ask =
        subst (λ a. f.best_bid ≤ℤ a) ask (subst (λ b. b ≤ℤ p.ask) bid t.uncrossed) in
      omega (arith, uncrossed, f.crossed)

  fallback-same :
      p.sources ≡ p'.sources
      → mids_total (pos 0) cs ≡ mids_total (pos 0) cs'
      → IsFallback cs p
      → IsFallback cs' p'
      → p ≡ p'
  fallback-same sources total f f' =
      let bid = max-same (λ q. q.bid) perm f.best_bid f'.best_bid f.is_bid f'.is_bid in
      let ask = min-same (λ q. q.ask) perm f.best_ask f'.best_ask f.is_ask f'.is_ask in
      let mid : p.mid ≡ p'.mid = f.mid ∙ rw (total, length-perm perm) refl ∙ sym f'.mid in
      let low : p.bid ≡ p'.bid =
        lower-same p.bid p'.bid f.best_bid f'.best_bid p.mid p'.mid bid mid f.bid f'.bid in
      let high : p.ask ≡ p'.ask =
        upper-same p.ask p'.ask f.best_ask f'.best_ask p.mid p'.mid ask mid f.ask f'.ask in
      cc (sources, low, high, mid)

no_price : (p : Consolidated) → Outcome [] (some p) → ⊥
no_price p (inl t, sources) = t.best_bid.reached
no_price p (inr f, sources) = f.is_bid.reached

same-Outcome :
    (k : ℕ) {cs cs' : List Quote}
    → Permᴰ cs cs'
    → All (IsOnGrid k) cs
    → length cs < 100
    → (r r' : Option Consolidated) → Outcome cs r
    → Outcome cs' r'
    → r ≡ r'
same-Outcome k perm h few none none o o' = refl
same-Outcome k {cs} {cs'} perm h few none (some p) o o' =
    let none_left : cs' ≡ [] = nil_of_length cs' (sym (length-perm perm) ∙ ap length o) in
    absurd (no_price p (subst (λ c. Outcome c (some p)) none_left o'))
same-Outcome k {cs} {cs'} perm h few (some p) none o o' =
    let none_left : cs ≡ [] = nil_of_length cs (length-perm perm ∙ ap length o') in
    absurd (no_price p (subst (λ c. Outcome c (some p)) none_left o))
same-Outcome k {cs} {cs'} perm h few (some p) (some p') (branch, sources) (branch', sources') =
    let named = sources ∙ sorted_set-perm (map-perm (λ q. q.source) perm) ∙ sym sources' in
    let total = mids_total-perm k perm h few in
    ap some (elim branch [
      | inl t ↦ elim branch' [
        | inl t' ↦ tight-same perm p p' named t t'
        | inr f' ↦ absurd (tight-not_fallback perm p p' t f')
      ]
      | inr f ↦ elim branch' [
        | inl t' ↦ absurd (tight-not_fallback (Permᴰ.symm perm) p' p t' f)
        | inr f' ↦ fallback-same perm p p' named total f f'
      ]
    ])

-- For fewer than 100 candidates whose sides are amounts that the database columns hold, what
-- `consolidate` makes of them is the same in every order.
pub consolidate_candidates-perm :
    (k : ℕ) (cs cs' : List Quote)
    → Permᴰ cs cs'
    → All (IsOnGrid k) cs
    → length cs < 100
    → consolidate_candidates (k + 11) cs ≡ consolidate_candidates (k + 11) cs'
consolidate_candidates-perm k cs cs' perm h few =
    let (r, run, outcome) = consolidate_candidates_lem (k + 11) cs in
    let (r', run', outcome') = consolidate_candidates_lem (k + 11) cs' in
    run ∙ ap ok (same-Outcome k perm h few r r' outcome outcome') ∙ sym run'
