-- ===== src/Sockets/Tests.antt =====
-- A layer whose groups are lists without duplicates, and a run of the server on it.
use pricestream.Base.{
  ℕ, ◌≡◌, ◌≢◌, refl, ap, suc, inl, inr, Bool-cases, true, false, ==_iff, none, some, List, [], ◌∷◌,
  arith, ◌==◌, if◌then◌else◌, Option,
}
use pricestream.Base.Text.{Text, text, text_eq, text_eq_iff, text_ne, to_upper, upper}
use pricestream.Json.{Json, string, object, Members, end, member, get}
use pricestream.Sockets.{group_of, connect, disconnect, broadcast, no_connections, snapshot}
use pricestream.Sockets.Layer.{count, ChannelLayer, IsLayer}
use pricestream.Sockets.Frames.{received}
use pricestream.Sockets.Delivery.{
  Event, connects, disconnects, broadcasts, heard, serve, IsNamed, serve-delivers,
}
use pricestream.Sockets.Groups.{expected}
use pricestream.Sockets.Symbols.{serve-IsTuned, broadcast-misses}

abbrev Groups : Type 0
Groups = Text → List ℕ

remove : ℕ → List ℕ → List ℕ
remove c [] = []
remove c (d ∷ ds) = let rest = remove c ds in if d == c then rest else d ∷ rest

abbrev change : Text → (List ℕ → List ℕ) → Groups → Groups
change g f l g' = if text_eq g g' then f (l g') else l g'

abbrev layer : ChannelLayer Groups
layer = record {
  new_layer = λ g. [];
  group_add = λ g c. change g (λ ds. c ∷ remove c ds);
  group_discard = λ g c. change g (remove c);
  members = λ l g. l g;
}

count-remove : (c : ℕ) (ds : List ℕ) → count c (remove c ds) ≡ 0
unfolding remove
count-remove c [] = refl
count-remove c (d ∷ ds) = elim (Bool-cases (d == c)) [
  | inl e ↦ rw e (count-remove c ds)
  | inr e ↦ rw (e, e) (count-remove c ds)
]

apart : (c c' : ℕ) → c ≢ c' → (c == c') ≡ false
apart c c' h = ground arith

itself : (c : ℕ) → (c == c) ≡ true
itself c = (==_iff c c).1 refl

text_itself : (g : Text) → text_eq g g ≡ true
text_itself g = (text_eq_iff g g).1 refl

count-remove_other : (c c' : ℕ) (ds : List ℕ) → c ≢ c' → count c' (remove c ds) ≡ count c' ds
unfolding remove
count-remove_other c c' [] h = refl
count-remove_other c c' (d ∷ ds) h = elim (Bool-cases (d == c)) [
  | inl e ↦
      let other : (d == c') ≡ false = rw ((==_iff d c).0 e) (apart c c' h) in
      rw (e, other) (count-remove_other c c' ds h)
  | inr e ↦ elim (Bool-cases (d == c')) [
    | inl f ↦ rw (e, f) (ap suc (count-remove_other c c' ds h))
    | inr f ↦ rw (e, f) (count-remove_other c c' ds h)
  ]
]

layer-IsLayer : IsLayer layer
layer-IsLayer = record {
  empty = λ g c. refl;
  added = λ g c l. rw (text_itself g, itself c) (ap suc (count-remove c (l g)));
  discarded = λ g c l. rw (text_itself g) (count-remove c (l g));
  add_channel = λ g g' c c' l h. elim (Bool-cases (text_eq g g')) [
    | inl e ↦ rw (e, apart c c' h) (count-remove_other c c' (l g') h)
    | inr e ↦ rw e refl
  ];
  add_group = λ g g' c c' l h. rw (text_ne g g' h) refl;
  discard_channel = λ g g' c c' l h. elim (Bool-cases (text_eq g g')) [
    | inl e ↦ rw e (count-remove_other c c' (l g') h)
    | inr e ↦ rw e refl
  ];
  discard_group = λ g g' c c' l h. rw (text_ne g g' h) refl;
}

-- The cache has a snapshot of one symbol.
abbrev cache : Text → Option Members
cache key =
    if text_eq key (text "pricestream:mid:BTC-USDT")
    then some (member (text "mid") (string (text "101")) end)
    else none

abbrev ticker : Json
ticker = string (text "tick")

-- Two clients of one symbol, one in lower case, and one of another symbol; the second leaves.
abbrev run : List Event
run =
    connects 1 (text "BTC-USDT") cache
    ∷ connects 2 (text "btc-usdt") cache
    ∷ broadcasts (text "BTC-USDT") ticker
    ∷ connects 3 (text "ETH-USDT") cache
    ∷ disconnects 2
    ∷ broadcasts (text "BTC-USDT") ticker
    ∷ broadcasts (text "ETH-USDT") (string (text "other"))
    ∷ []

run-IsNamed : IsNamed layer (no_connections layer) run
unfolding connect disconnect broadcast
run-IsNamed = (refl, (refl, (refl, tt)))

abbrev sent : Json
sent = object (
    member (text "instrument") (string (text "BTC-USDT"))
      (member (text "mid") (string (text "101")) end))

heard_by_2 : heard 2 none run ≡ sent ∷ ticker ∷ []
unfolding heard snapshot text_eq upper to_upper get
heard_by_2 = refl

serve-delivers_example :
    received 2 (serve layer (no_connections layer) run).frames ≡ heard 2 none run
serve-delivers_example = serve-delivers layer layer-IsLayer run 2 run-IsNamed

serve-IsTuned_example :
    count 2
      (layer.members (serve layer (no_connections layer) run).layer (group_of (text "BTC-USDT")))
    ≡ expected ((serve layer (no_connections layer) run).symbol_of 2) (text "BTC-USDT")
serve-IsTuned_example = serve-IsTuned layer layer-IsLayer run run-IsNamed 2 (text "BTC-USDT")

lower_case : upper (text "btc-usdt") ≢ text "btc-usdt"
unfolding upper to_upper text_eq
lower_case h =
    let same : false ≡ true = (text_eq_iff (upper (text "btc-usdt")) (text "btc-usdt")).1 h in cc

broadcast-misses_example :
    received 2
      (broadcast layer (text "btc-usdt") ticker (serve layer (no_connections layer) run)).frames
    ≡ received 2 (serve layer (no_connections layer) run).frames
broadcast-misses_example =
    broadcast-misses layer layer-IsLayer run (text "btc-usdt") ticker 2 run-IsNamed lower_case
