-- ===== src/Exchanges/Symbols.antt =====
-- The symbols of a pair `base-quote`.
use pricestream.Base.{
  Bool, if◌then◌else◌, Bool-cases, ◌⊎◌, inl, inr, not_both, ℕ, ◌≡◌, ◌≢◌, refl, ap, [], ◌∷◌, ◌++◌,
  All, true, false, arith, ◌==◌,
}
use pricestream.Base.Text.{Text, text, text_eq, text_eq_iff, upper, partition, to_upper}
use pricestream.Base.Result.{ok}
use pricestream.Models.{parse_symbol}
use pricestream.Exchanges.{to_binance_symbol, to_coinbase_symbol, to_kraken_symbol}

-- The name holds no dash.
abbrev pub IsName : Text → Type 0
IsName s = All (λ c. c ≢ b'-') s

abbrev pub pair : Text → Text → Text
pair base quote = base ++ b'-' ∷ quote

ne_test : (c d : ℕ) → c ≢ d → (c == d) ≡ false
ne_test c d h = ground arith

partition-pair :
    (base quote : Text) → IsName base → partition b'-' (pair base quote) ≡ (base, true, quote)
unfolding partition
partition-pair [] quote h = refl
partition-pair (c ∷ s) quote (h, hs) = rw (ne_test c b'-' h, partition-pair s quote hs)

upper-append : (s t : Text) → upper (s ++ t) ≡ upper s ++ upper t
unfolding upper
upper-append [] t = refl
upper-append (c ∷ s) t = ap (λ u. to_upper c ∷ u) (upper-append s t)

-- One text takes the place of another.
abbrev pub IsRenamed : Text → Text → Text → Text → Type 0
IsRenamed from to before after =
    ((before ≡ from) × (after ≡ to)) ⊎ ((before ≢ from) × (after ≡ before))

renamed : (from to s : Text) → IsRenamed from to s (if text_eq s from then to else s)
renamed from to s = elim (Bool-cases (text_eq s from)) [
  | inl same ↦ rw same (inl ((text_eq_iff s from).0 same, refl))
  | inr other ↦ rw other (inr ((λ e. not_both ((text_eq_iff s from).1 e) other), refl))
]

upper_renamed :
    (b : Bool) (quote : Text)
    → upper (if b then text "USDT" else quote) ≡ (if b then text "USDT" else upper quote)
unfolding upper to_upper
upper_renamed true quote = refl
upper_renamed false quote = refl

-- For a base without a dash and a quote of at least one letter, the instrument `base-quote` is parsed
-- into the two names in capitals. Coinbase is asked for these with the dash; Kraken for these without
-- it, with XBT in place of the base BTC and every other base as it is; and Binance for these without
-- it, with USDT in place of the quote USD and every other quote as it is.
pub symbols_of_pair :
    (base : Text) (c : ℕ) (cs : Text)
    → IsName base
    → (parse_symbol (pair base (c ∷ cs)) ≡ ok (upper base, upper (c ∷ cs)))
      × (to_coinbase_symbol (pair base (c ∷ cs)) ≡ pair (upper base) (upper (c ∷ cs)))
      × ((asked : Text) × IsRenamed (text "BTC") (text "XBT") (upper base) asked
          × (to_kraken_symbol (pair base (c ∷ cs)) ≡ asked ++ upper (c ∷ cs)))
      × ((asked : Text) × IsRenamed (text "USD") (text "USDT") (upper (c ∷ cs)) asked
          × (to_binance_symbol (pair base (c ∷ cs)) ≡ upper base ++ asked))
unfolding parse_symbol to_kraken_symbol to_binance_symbol
symbols_of_pair base c cs name =
    let head : (partition b'-' (pair base (c ∷ cs))).0 ≡ base =
      ap (λ t. t.0) (partition-pair base (c ∷ cs) name) in
    let tail : (partition b'-' (pair base (c ∷ cs))).2 ≡ c ∷ cs =
      ap (λ t. t.2) (partition-pair base (c ∷ cs) name) in
    (
      rw (parse_symbol, tail, head),
      unfold to_coinbase_symbol upper to_upper in upper-append base (b'-' ∷ c ∷ cs),
      (_, renamed (text "BTC") (text "XBT") (upper base), rw (to_kraken_symbol, tail, head)),
      (
        _,
        renamed (text "USD") (text "USDT") (upper (c ∷ cs)),
        rw (
          to_binance_symbol,
          tail,
          head,
          upper_renamed (text_eq (upper (c ∷ cs)) (text "USD")) (c ∷ cs),
        ),
      ),
    )
