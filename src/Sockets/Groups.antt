-- ===== src/Sockets/Groups.antt =====
-- Each connection is in the group of its symbol, and in no other, after every connection and
-- disconnection.
use pricestream.Base.{
  not_both, ℕ, ◌≡◌, refl, sym, ◌∙◌, ap, inl, inr, Bool-cases, ◌&&◌, ==_iff, Option, Option-cases,
  none, some, ◌==◌, if◌then◌else◌,
}
use pricestream.Base.Text.{Text, text_eq, text_eq_iff, upper}
use pricestream.Json.{Members}
use pricestream.Sockets.{Hub, group_of, connect, disconnect}
use pricestream.Sockets.Layer.{count, ChannelLayer, IsLayer}

group_of-injective : (s t : Text) → group_of s ≡ group_of t → s ≡ t
group_of-injective s t h = cc

-- How often a connection is in the group of a symbol: once in that of its own symbol.
abbrev pub expected : Option Text → Text → ℕ
expected none symbol = 0
expected (some own) symbol = if text_eq own symbol then 1 else 0

module _ {L : Type 0} (C : ChannelLayer L) where
  abbrev pub IsTuned : Hub L → Type 0
  IsTuned h =
      (c : ℕ) (s : Text) → count c (C.members h.layer (group_of s)) ≡ expected (h.symbol_of c) s

  -- One step of the layer, for the groups of the symbols.
  module _ (W : IsLayer C) where
    count-added :
        (u s : Text) (c d : ℕ) (l : L)
        → count d (C.members (C.group_add (group_of u) c l) (group_of s))
          ≡ (if c == d && text_eq u s then 1 else count d (C.members l (group_of s)))
    count-added u s c d l = elim (Bool-cases (c == d)) [
      | inl e ↦ elim (Bool-cases (text_eq u s)) [
        | inl f ↦
            let c_is : c ≡ d = (==_iff c d).0 e in
            let u_is : u ≡ s = (text_eq_iff u s).0 f in
            rw (e, f, ← c_is, ← u_is) (W.added (group_of u) c l)
        | inr f ↦
            rw (e, f)
              (W.add_group (group_of u) (group_of s) c d l
                (λ h. not_both ((text_eq_iff u s).1 (group_of-injective u s h)) f))
      ]
      | inr e ↦
          rw e (W.add_channel (group_of u) (group_of s) c d l (λ h. not_both ((==_iff c d).1 h) e))
    ]

    count-discarded :
        (u s : Text) (c d : ℕ) (l : L)
        → count d (C.members (C.group_discard (group_of u) c l) (group_of s))
          ≡ (if c == d && text_eq u s then 0 else count d (C.members l (group_of s)))
    count-discarded u s c d l = elim (Bool-cases (c == d)) [
      | inl e ↦ elim (Bool-cases (text_eq u s)) [
        | inl f ↦
            let c_is : c ≡ d = (==_iff c d).0 e in
            let u_is : u ≡ s = (text_eq_iff u s).0 f in
            rw (e, f, ← c_is, ← u_is) (W.discarded (group_of u) c l)
        | inr f ↦
            rw (e, f)
              (W.discard_group (group_of u) (group_of s) c d l
                (λ h. not_both ((text_eq_iff u s).1 (group_of-injective u s h)) f))
      ]
      | inr e ↦
          rw e
            (W.discard_channel (group_of u) (group_of s) c d l (λ h. not_both ((==_iff c d).1 h) e))
    ]

    pub IsTuned-connect :
        (cache : Text → Option Members) (c : ℕ) (path : Text) (h : Hub L)
        → h.symbol_of c ≡ none
        → IsTuned h
        → IsTuned (connect C cache c path h)
    unfolding connect
    IsTuned-connect cache c path h fresh tuned d s = elim (Bool-cases (c == d)) [
      | inl e ↦
          let c_is : c ≡ d = (==_iff c d).0 e in
          let old : count d (C.members h.layer (group_of s)) ≡ 0 =
            tuned d s ∙ ap (λ o. expected o s) (ap h.symbol_of (sym c_is) ∙ fresh) in
          rw (count-added (upper path) s c d h.layer, e, old) refl
      | inr e ↦ rw (count-added (upper path) s c d h.layer, e) (tuned d s)
    ]

    pub IsTuned-disconnect : (c : ℕ) (h : Hub L) → IsTuned h → IsTuned (disconnect C c h)
    unfolding disconnect
    IsTuned-disconnect c h tuned d s = elim (Option-cases (h.symbol_of c)) [
      | inl n ↦ rw (disconnect, n) (tuned d s)
      | inr (own, k) ↦
          rw (disconnect, k)
            (rw (count-discarded own s c d h.layer) (elim (Bool-cases (c == d)) [
              | inl e ↦
                  let c_is : c ≡ d = (==_iff c d).0 e in
                  let old : count d (C.members h.layer (group_of s)) ≡ expected (some own) s =
                    tuned d s ∙ ap (λ o. expected o s) (ap h.symbol_of (sym c_is) ∙ k) in
                  rw (e, old)
                    (elim (Bool-cases (text_eq own s)) [ inl f ↦ rw f refl | inr f ↦ rw f refl ])
              | inr e ↦ rw e (tuned d s)
            ]))
    ]
