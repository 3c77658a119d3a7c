-- ===== src/Samples/Wire.antt =====
-- Texts of numbers and times that are read back, and a consumer's platform with them.
use pricestream.Base.{ℕ, ◌≡◌, refl, [], ◌∷◌}
use pricestream.Base.Int.{ℤ, pos, negsuc}
use pricestream.Base.Text.{Text}
use pricestream.Base.Result.{Result, ok, raise, value_error, type_error}
use pricestream.Json.{string}
use pricestream.Decimal.{Decimal}
use pricestream.Clock.{Datetime}
use pricestream.Consumer.{Platform}
use pricestream.Producer.Wire.{IsWire}
use pricestream.Samples.{column}

abbrev pub str : Decimal → Text
str (pos n) = 0 ∷ n ∷ []
str (negsuc n) = 1 ∷ n ∷ []

abbrev pub number_of : ℕ → ℕ → ℤ
number_of ℕ.zero n = pos n
number_of (ℕ.suc k) n = negsuc n

abbrev pub decimal_of : Text → Result Decimal
decimal_of (k ∷ n ∷ []) = ok (number_of k n)
decimal_of s = raise value_error

abbrev pub isoformat : Datetime → Text
isoformat t = elim t.local [ pos n ↦ 0 ∷ n ∷ str t.offset | negsuc n ↦ 1 ∷ n ∷ str t.offset ]

abbrev pub datetime_of : Text → Result Datetime
datetime_of (k ∷ n ∷ l ∷ m ∷ []) = ok (record { local = number_of k n; offset = number_of l m })
datetime_of s = raise value_error

abbrev pub platform : Platform
platform = record {
  column = column;
  to_decimal = λ v. elim v [ string s ↦ decimal_of s | _ ↦ raise type_error ];
  from_iso = datetime_of;
  as_text = λ v. [];
}

decimal_of-str : (d : Decimal) → decimal_of (str d) ≡ ok d
decimal_of-str (pos n) = refl
decimal_of-str (negsuc n) = refl

datetime_of-isoformat :
    (l o : ℤ)
    → datetime_of (isoformat (record { local = l; offset = o }))
      ≡ ok (record { local = l; offset = o })
datetime_of-isoformat (pos n) (pos m) = refl
datetime_of-isoformat (pos n) (negsuc m) = refl
datetime_of-isoformat (negsuc n) (pos m) = refl
datetime_of-isoformat (negsuc n) (negsuc m) = refl

isoformat-some :
    (l o : ℤ) → (c : ℕ) × (cs : Text) × (isoformat (record { local = l; offset = o }) ≡ c ∷ cs)
isoformat-some (pos n) o = (_, _, refl)
isoformat-some (negsuc n) o = (_, _, refl)

pub platform-IsWire : IsWire platform str isoformat
platform-IsWire = record {
  decimal = decimal_of-str;
  datetime = λ t. datetime_of-isoformat t.local t.offset;
  some_text = λ t. isoformat-some t.local t.offset;
}
