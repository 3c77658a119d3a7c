-- ===== src/Sockets/Frames.antt =====
-- The frames of one client, among all that the server sends.
use pricestream.Base.{
  ℕ, zero, suc, ◌≡◌, refl, ap, inl, inr, Bool-cases, List, [], ◌∷◌, ◌++◌, map, ◌==◌, if◌then◌else◌,
}
use pricestream.Json.{Json}
use pricestream.Sockets.{to_client, quote_update}
use pricestream.Sockets.Layer.{count}

-- The frames of one channel, in order.
abbrev pub received : ℕ → List (ℕ × Json) → List Json
received c [] = []
received c ((d, payload) ∷ frames) =
    let rest = received c frames in if d == c then payload ∷ rest else rest

pub received-append :
    (c : ℕ) (xs ys : List (ℕ × Json)) → received c (xs ++ ys) ≡ received c xs ++ received c ys
received-append c [] ys = refl
received-append c ((d, payload) ∷ xs) ys = elim (Bool-cases (d == c)) [
  | inl e ↦ rw e (ap (λ t. payload ∷ t) (received-append c xs ys))
  | inr e ↦ rw e (received-append c xs ys)
]

-- As often as the channel is a member.
abbrev pub times : ℕ → Json → List Json
times zero payload = []
times (suc n) payload = payload ∷ times n payload

pub received-to_client :
    (c d : ℕ) (ps : List Json) → received c (map (to_client d) ps) ≡ (if d == c then ps else [])
received-to_client c d [] = elim (Bool-cases (d == c)) [ inl e ↦ rw e refl | inr e ↦ rw e refl ]
received-to_client c d (p ∷ ps) = elim (Bool-cases (d == c)) [
  | inl e ↦ rw (e, received-to_client c d ps, e) refl
  | inr e ↦ rw (e, received-to_client c d ps, e) refl
]

pub received-quote_update :
    (c : ℕ) (payload : Json) (ds : List ℕ)
    → received c (map (quote_update payload) ds) ≡ times (count c ds) payload
received-quote_update c payload [] = refl
received-quote_update c payload (d ∷ ds) = elim (Bool-cases (d == c)) [
  | inl e ↦ rw e (ap (λ t. payload ∷ t) (received-quote_update c payload ds))
  | inr e ↦ rw e (received-quote_update c payload ds)
]
