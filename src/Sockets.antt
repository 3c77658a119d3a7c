-- ===== src/Sockets.antt =====
-- apps/pricing/consumers.py: the WebSocket connections, and what a broadcast of `fetch_quotes` sends
-- them. The channel layer is a library's: here it is what a `ChannelLayer` says of it.
pub mod Layer
pub mod Frames
pub mod Groups
pub mod Delivery
pub mod Symbols
mod Tests
use pricestream.Base.{ℕ, Option, none, some, List, [], ◌∷◌, ◌++◌, map, ◌==◌, if◌then◌else◌}
use pricestream.Base.Text.{Text, text, text_eq, upper}
use pricestream.Json.{Json, string, object, Members, end, member, get}
use Layer.{ChannelLayer}

-- `f"quotes.{symbol}"`
abbrev pub group_of : Text → Text
group_of symbol = text "quotes." ++ symbol

-- The connections by their channel name: a connection that is accepted has its `self.symbol`. What is
-- sent to the clients is kept in the order of sending.
pub record Hub (L : Type 0) : Type 0 where
  pub layer : L
  pub symbol_of : ℕ → Option Text
  pub frames : List (ℕ × Json)

-- `self.send`
abbrev pub to_client : ℕ → Json → ℕ × Json
to_client channel payload = (channel, payload)

-- `QuoteConsumer.quote_update`: the frame that a channel sends its client.
abbrev pub quote_update : Json → ℕ → ℕ × Json
quote_update payload channel = to_client channel payload

-- `{"instrument": self.symbol, **snapshot}`: a key of the snapshot has the snapshot's value.
abbrev pub without : Text → Members → Members
without key end = end
without key (member k v ms) =
    let rest = without key ms in if text_eq k key then rest else member k v rest

abbrev pub with_instrument : Text → Members → Members
with_instrument symbol ms = elim (get (text "instrument") ms) [
  | none ↦ member (text "instrument") (string symbol) ms
  | some v ↦ member (text "instrument") v (without (text "instrument") ms)
]

-- What a new connection is sent, for what `cache.get` gives: nothing where that is empty.
unfoldable pub snapshot : Text → Option Members → List Json
snapshot symbol none = []
snapshot symbol (some end) = []
snapshot symbol (some (member k v ms)) = object (with_instrument symbol (member k v ms)) ∷ []

-- The attribute `self.symbol` of one connection.
abbrev with_symbol : (ℕ → Option Text) → ℕ → Option Text → ℕ → Option Text
with_symbol f c o d = if c == d then o else f d

module _ {L : Type 0} (C : ChannelLayer L) where
  -- `QuoteConsumer.connect`, for the `symbol` of the path
  unfoldable pub connect : (Text → Option Members) → ℕ → Text → Hub L → Hub L
  connect cache channel path h =
      let symbol = upper path in
      record h {
        layer = C.group_add (group_of symbol) channel h.layer;
        symbol_of = with_symbol h.symbol_of channel (some symbol);
        frames =
            h.frames
            ++ map (to_client channel)
                (snapshot symbol (cache (text "pricestream:mid:" ++ symbol)));
      }

  -- `QuoteConsumer.disconnect`
  unfoldable pub disconnect : ℕ → Hub L → Hub L
  disconnect channel h = elim (h.symbol_of channel) [
    | none ↦ h
    | some symbol ↦ record h {
      layer = C.group_discard (group_of symbol) channel h.layer;
      symbol_of = with_symbol h.symbol_of channel none;
    }
  ]

  -- `group_send` of `_broadcast_ws` has each channel of the group run `quote_update`.
  unfoldable pub broadcast : Text → Json → Hub L → Hub L
  broadcast symbol payload h = record h {
    frames = h.frames ++ map (quote_update payload) (C.members h.layer (group_of symbol));
  }

  -- The server has no connection at first.
  abbrev pub no_connections : Hub L
  no_connections = record { layer = C.new_layer; symbol_of = λ c. none; frames = [] }
