-- ===== src/Sockets/Symbols.antt =====
-- What symbols the connections have, and so which groups can have members.
use mathlib.Core.List.{append-nil}
use pricestream.Base.{
  ℕ, ◌≡◌, ◌≢◌, refl, sym, ◌∙◌, ap, inl, inr, Bool-cases, Option, none, some, List, [], ◌∷◌, arith,
  ◌==◌,
}
use pricestream.Base.Text.{Text, text_eq, text_eq_iff, to_upper, upper}
use pricestream.Sockets.{Hub, group_of, connect, disconnect, broadcast, no_connections}
use pricestream.Json.{Json}
use pricestream.Sockets.Frames.{received}
use pricestream.Sockets.Layer.{ChannelLayer, IsLayer}
use pricestream.Sockets.Groups.{IsTuned, IsTuned-connect, IsTuned-disconnect}
use pricestream.Sockets.Delivery.{
  Event, connects, disconnects, broadcasts, hears, serve, IsNamed, received-broadcast,
  symbol_of-disconnect,
}

to_upper_idempotent : (c : ℕ) → to_upper (to_upper c) ≡ to_upper c
unfolding to_upper
to_upper_idempotent c = ground arith

upper_idempotent : (s : Text) → upper (upper s) ≡ upper s
unfolding upper
upper_idempotent [] = refl
upper_idempotent (c ∷ s) =
    rw (to_upper_idempotent c) (ap (λ t. to_upper c ∷ t) (upper_idempotent s))

-- The symbol of a connection is in upper case.
abbrev IsUpper : Option Text → Type 0
IsUpper none = Unit
IsUpper (some own) = upper own ≡ own

upper-hears :
    (own : Option Text) (s : Text) (p : Json) → IsUpper own → upper s ≢ s → hears own s p ≡ []
upper-hears none s p u h = refl
upper-hears (some own) s p u h = elim (Bool-cases (text_eq own s)) [
  | inl e ↦
      let same : own ≡ s = (text_eq_iff own s).0 e in absurd (h (ap upper (sym same) ∙ u ∙ same))
  | inr e ↦ rw e refl
]

module _ {L : Type 0} (C : ChannelLayer L) (W : IsLayer C) where
  abbrev IsSteady : Hub L → Type 0
  IsSteady h = IsTuned C h × ((c : ℕ) → IsUpper (h.symbol_of c))

  serve-IsSteady :
      (es : List Event) (h : Hub L) → IsSteady h → IsNamed C h es → IsSteady (serve C h es)
  unfolding serve connect broadcast
  serve-IsSteady [] h steady named = steady
  serve-IsSteady (connects d path cache ∷ es) h steady named =
      serve-IsSteady es (connect C cache d path h)
        (
          IsTuned-connect C W cache d path h named.0 steady.0,
          λ c. elim (Bool-cases (d == c)) [
            | inl e ↦ rw e (upper_idempotent path)
            | inr e ↦ rw e (steady.1 c)
          ],
        )
        named.1
  serve-IsSteady (disconnects d ∷ es) h steady named =
      serve-IsSteady es (disconnect C d h)
        (
          IsTuned-disconnect C W d h steady.0,
          λ c.
              rw (symbol_of-disconnect C W d c h)
                (elim (Bool-cases (d == c)) [ inl e ↦ rw e tt | inr e ↦ rw e (steady.1 c) ]),
        )
        named
  serve-IsSteady (broadcasts symbol payload ∷ es) h steady named =
      serve-IsSteady es (broadcast C symbol payload h) steady named

  -- After every sequence of events in which no channel name is taken twice, a channel is once in the
  -- group of its connection's symbol, and in the group of no other symbol, and none after it has
  -- disconnected.
  pub serve-IsTuned :
      (es : List Event)
      → IsNamed C (no_connections C) es
      → IsTuned C (serve C (no_connections C) es)
  serve-IsTuned es named =
      (serve-IsSteady es (no_connections C) (λ c s. W.empty (group_of s) c, λ c. tt) named).0

  -- After any events in which no channel name is taken twice, a broadcast of a symbol that is not in
  -- upper case is sent to no client: the symbol of a connection is in upper case, and that of a
  -- broadcast is as it is configured.
  pub broadcast-misses :
      (es : List Event) (s : Text) (payload : Json) (c : ℕ)
      → IsNamed C (no_connections C) es
      → upper s ≢ s
      → received c (broadcast C s payload (serve C (no_connections C) es)).frames
        ≡ received c (serve C (no_connections C) es).frames
  broadcast-misses es s payload c named h =
      let (tuned, uppers) =
        serve-IsSteady es (no_connections C) (λ c s. W.empty (group_of s) c, λ c. tt) named in
      received-broadcast C W s payload (serve C (no_connections C) es) c tuned
      ∙ rw (upper-hears ((serve C (no_connections C) es).symbol_of c) s payload (uppers c) h)
          (append-nil _)
