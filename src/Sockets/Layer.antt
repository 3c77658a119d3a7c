-- ===== src/Sockets/Layer.antt =====
-- What the program relies on in a channel layer: groups are sets of channels.
use pricestream.Base.{ℕ, suc, ◌≡◌, ◌≢◌, List, [], ◌∷◌, ◌==◌, if◌then◌else◌}
use pricestream.Base.Text.{Text}

-- How often a channel is in a list.
abbrev pub count : ℕ → List ℕ → ℕ
count c [] = 0
count c (d ∷ ds) = let rest = count c ds in if d == c then suc rest else rest

-- The operations.
pub record ChannelLayer (L : Type 0) : Type 0 where
  pub new_layer : L
  pub group_add : Text → ℕ → L → L
  pub group_discard : Text → ℕ → L → L
  pub members : L → Text → List ℕ

-- The laws: a channel is added once, and other memberships stay as they are.
pub record IsLayer {L : Type 0} (C : ChannelLayer L) : Type 0 where
  pub empty : (g : Text) (c : ℕ) → count c (C.members C.new_layer g) ≡ 0
  pub added : (g : Text) (c : ℕ) (l : L) → count c (C.members (C.group_add g c l) g) ≡ 1
  pub discarded : (g : Text) (c : ℕ) (l : L) → count c (C.members (C.group_discard g c l) g) ≡ 0
  pub add_channel :
      (g g' : Text) (c c' : ℕ) (l : L)
      → c ≢ c'
      → count c' (C.members (C.group_add g c l) g') ≡ count c' (C.members l g')
  pub add_group :
      (g g' : Text) (c c' : ℕ) (l : L)
      → g ≢ g'
      → count c' (C.members (C.group_add g c l) g') ≡ count c' (C.members l g')
  pub discard_channel :
      (g g' : Text) (c c' : ℕ) (l : L)
      → c ≢ c'
      → count c' (C.members (C.group_discard g c l) g') ≡ count c' (C.members l g')
  pub discard_group :
      (g g' : Text) (c c' : ℕ) (l : L)
      → g ≢ g'
      → count c' (C.members (C.group_discard g c l) g') ≡ count c' (C.members l g')
