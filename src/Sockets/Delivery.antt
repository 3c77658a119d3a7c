-- ===== src/Sockets/Delivery.antt =====
-- What each client is sent, over every sequence of connections, disconnections and broadcasts.
use mathlib.Core.List.{append_assoc, append-nil}
use pricestream.Base.{
  ℕ, ◌≡◌, refl, sym, ◌∙◌, ap, inl, inr, Bool-cases, true, false, ==_iff, Option, Option-cases, none,
  some, List, [], ◌∷◌, ◌++◌, ◌==◌, if◌then◌else◌,
}
use pricestream.Base.Text.{Text, text, text_eq, upper}
use pricestream.Json.{Json, Members}
use pricestream.Sockets.{Hub, group_of, snapshot, connect, disconnect, broadcast, no_connections}
use pricestream.Sockets.Layer.{ChannelLayer, IsLayer}
use pricestream.Sockets.Frames.{
  received, received-append, times, received-to_client, received-quote_update,
}
use pricestream.Sockets.Groups.{expected, IsTuned, IsTuned-connect, IsTuned-disconnect}

-- What happens at the server, in its order. A client connects with the symbol of its path, at a time
-- when the cache has some content.
pub data Event : Type 0 where
  connects : ℕ → Text → (Text → Option Members) → Event
  disconnects : ℕ → Event
  broadcasts : Text → Json → Event

-- A connection hears a broadcast of its own symbol.
abbrev pub hears : Option Text → Text → Json → List Json
hears none symbol payload = []
hears (some own) symbol payload = if text_eq own symbol then payload ∷ [] else []

times-expected :
    (own : Option Text) (symbol : Text) (payload : Json)
    → times (expected own symbol) payload ≡ hears own symbol payload
times-expected none symbol payload = refl
times-expected (some own) symbol payload = elim (Bool-cases (text_eq own symbol)) [
  | inl e ↦ rw e refl
  | inr e ↦ rw e refl
]

-- The specification: what a channel hears, with nothing but its own symbol kept.
unfoldable pub heard : ℕ → Option Text → List Event → List Json
heard c own [] = []
heard c own (connects d path cache ∷ es) = elim (d == c) [
  | true ↦
      snapshot (upper path) (cache (text "pricestream:mid:" ++ upper path))
      ++ heard c (some (upper path)) es
  | false ↦ heard c own es
]
heard c own (disconnects d ∷ es) = heard c (if d == c then none else own) es
heard c own (broadcasts symbol payload ∷ es) = hears own symbol payload ++ heard c own es

module _ {L : Type 0} (C : ChannelLayer L) where
  unfoldable pub serve : Hub L → List Event → Hub L
  serve h [] = h
  serve h (connects c path cache ∷ es) = serve (connect C cache c path h) es
  serve h (disconnects c ∷ es) = serve (disconnect C c h) es
  serve h (broadcasts symbol payload ∷ es) = serve (broadcast C symbol payload h) es

  -- A channel name belongs to one connection at a time.
  abbrev pub IsNamed : Hub L → List Event → Type 0
  IsNamed h [] = Unit
  IsNamed h (connects c path cache ∷ es) =
      (h.symbol_of c ≡ none) × IsNamed (connect C cache c path h) es
  IsNamed h (disconnects c ∷ es) = IsNamed (disconnect C c h) es
  IsNamed h (broadcasts symbol payload ∷ es) = IsNamed (broadcast C symbol payload h) es

  module _ (W : IsLayer C) where
    pub received-broadcast :
        (symbol : Text) (payload : Json) (h : Hub L) (c : ℕ)
        → IsTuned C h
        → received c (broadcast C symbol payload h).frames
          ≡ received c h.frames ++ hears (h.symbol_of c) symbol payload
    unfolding broadcast
    received-broadcast symbol payload h c tuned =
        received-append c h.frames _
        ∙ ap (λ t. received c h.frames ++ t)
            (received-quote_update c payload _
              ∙ ap (λ n. times n payload) (tuned c symbol)
              ∙ times-expected (h.symbol_of c) symbol payload)

    frames-disconnect : (c : ℕ) (h : Hub L) → (disconnect C c h).frames ≡ h.frames
    unfolding disconnect
    frames-disconnect c h = elim (Option-cases (h.symbol_of c)) [
      | inl n ↦ rw (disconnect, n) refl
      | inr (own, k) ↦ rw (disconnect, k) refl
    ]

    pub symbol_of-disconnect :
        (c d : ℕ) (h : Hub L)
        → (disconnect C c h).symbol_of d ≡ (if c == d then none else h.symbol_of d)
    unfolding disconnect
    symbol_of-disconnect c d h = elim (Option-cases (h.symbol_of c)) [
      | inl n ↦
          rw (disconnect, n)
            (elim (Bool-cases (c == d)) [
              | inl e ↦ rw e (ap h.symbol_of (sym ((==_iff c d).0 e)) ∙ n)
              | inr e ↦ rw e refl
            ])
      | inr (own, k) ↦ rw (disconnect, k) refl
    ]

    received-connect :
        (cache : Text → Option Members) (c : ℕ) (path : Text) (h : Hub L) (d : ℕ)
        → received d (connect C cache c path h).frames
          ≡ received d h.frames
            ++ (if c == d
                then snapshot (upper path) (cache (text "pricestream:mid:" ++ upper path))
                else [])
    unfolding connect
    received-connect cache c path h d =
        received-append d h.frames _ ∙ ap (λ t. received d h.frames ++ t) (received-to_client d c _)

    -- From any server whose groups are as the symbols say, each channel is sent what it hears.
    serve-received :
        (es : List Event) (h : Hub L) (c : ℕ)
        → IsTuned C h
        → IsNamed h es
        → received c (serve h es).frames ≡ received c h.frames ++ heard c (h.symbol_of c) es
    unfolding serve heard connect broadcast
    serve-received [] h c tuned named = sym (append-nil _)
    serve-received (connects d path cache ∷ es) h c tuned named =
        serve-received es (connect C cache d path h) c
          (IsTuned-connect C W cache d path h named.0 tuned) named.1
        ∙ elim (Bool-cases (d == c)) [
          | inl e ↦
              rw (received-connect cache d path h c, heard, e)
                (append_assoc (received c h.frames) _ _)
          | inr e ↦
              rw (received-connect cache d path h c, heard, e)
                (ap (λ t. t ++ heard c (h.symbol_of c) es) (append-nil (received c h.frames)))
        ]
    serve-received (disconnects d ∷ es) h c tuned named =
        serve-received es (disconnect C d h) c (IsTuned-disconnect C W d h tuned) named
        ∙ rw (frames-disconnect d h, symbol_of-disconnect d c h) refl
    serve-received (broadcasts symbol payload ∷ es) h c tuned named =
        serve-received es (broadcast C symbol payload h) c tuned named
        ∙ rw (received-broadcast symbol payload h c tuned) (append_assoc (received c h.frames) _ _)

    -- Where channel names are not taken twice, the server sends each client, in order and nothing else:
    -- on its connection the snapshot that the cache has for its symbol, if it has one, and then every
    -- broadcast of that symbol once, until it disconnects.
    pub serve-delivers :
        (es : List Event) (c : ℕ)
        → IsNamed (no_connections C) es
        → received c (serve (no_connections C) es).frames ≡ heard c none es
    serve-delivers es c named =
        serve-received es (no_connections C) c (λ d s. W.empty (group_of s) d) named
