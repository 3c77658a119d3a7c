-- ===== src/Json.antt =====
-- What `json.loads` can return, and how the program looks into it.
use pricestream.Base.{ℕ, Bool, true, false, Option, none, some, if◌then◌else◌}
use pricestream.Base.Int.{pos, negsuc}
use pricestream.Base.Text.{Text, text_eq}
use pricestream.Base.{[], ◌∷◌}
use pricestream.Base.Result.{Result, ok, raise, key_error, index_error, type_error}
use pricestream.Decimal.{Decimal}

-- An object has each key once: `json.loads` keeps the last.
mutual
  pub data Json : Type 0 where
    null : Json
    boolean : Bool → Json
    number : Decimal → Json
    string : Text → Json
    array : Items → Json
    object : Members → Json

  pub data Items : Type 0 where
    nil : Items
    item : Json → Items → Items

  pub data Members : Type 0 where
    end : Members
    member : Text → Json → Members → Members

-- `payload.get(key)`
unfoldable pub get : Text → Members → Option Json
get key end = none
get key (member k v rest) = if text_eq k key then some v else get key rest

-- `bool(value)`
unfoldable pub truthy : Json → Bool
truthy null = false
truthy (boolean b) = b
truthy (number (pos ℕ.zero)) = false
truthy (number (pos (ℕ.suc n))) = true
truthy (number (negsuc n)) = true
truthy (string []) = false
truthy (string (c ∷ s)) = true
truthy (array nil) = false
truthy (array (item v vs)) = true
truthy (object end) = false
truthy (object (member k v vs)) = true

-- `value[key]`
unfoldable pub subscript : Text → Json → Result Json
subscript key (object ms) = elim (get key ms) [ none ↦ raise key_error | some v ↦ ok v ]
subscript key null = raise type_error
subscript key (boolean b) = raise type_error
subscript key (number n) = raise type_error
subscript key (string s) = raise type_error
subscript key (array vs) = raise type_error

-- `value[0]`. The keys of an object are strings.
unfoldable pub first : Json → Result Json
first (array nil) = raise index_error
first (array (item v vs)) = ok v
first (string []) = raise index_error
first (string (c ∷ s)) = ok (string (c ∷ []))
first (object ms) = raise key_error
first null = raise type_error
first (boolean b) = raise type_error
first (number n) = raise type_error
