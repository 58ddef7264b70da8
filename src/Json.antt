-- ===== src/Json.antt =====
-- The values of a decoded JSON text, as the Stripe library hands them over once `_as_dict` has made
-- plain dictionaries of them. Every number that the service computes with is a count or a time, so a
-- number is a natural one; any other is kept as its text. Reading a value as Python does may raise,
-- which is `none`.
use subscription_service.Prelude.{
  Bool, Dict, Option, String, [], false, if◌then◌else◌, ltb, none, not, some, true, ℕ, ◌==◌, ◌∷◌,
}

mutual
  pub data Json : Type 0 where
    null : Json
    boolean : Bool → Json
    number : ℕ → Json
    fraction : String → Json
    text : String → Json
    array : Values → Json
    object : Fields → Json

  pub data Values : Type 0 where
    nil : Values
    cons : Json → Values → Values

  pub data Fields : Type 0 where
    end : Fields
    field : String → Json → Fields → Fields

-- Exceptions while a value is read.
infixl 5 ◌>>=◌ ◌>>◌
unfoldable pub ◌>>=◌ {ℓ κ} : {A : Type ℓ} {B : Type κ} → Option A → (A → Option B) → Option B
some a >>= f = f a
none >>= f = none

abbrev pub ◌>>◌ {ℓ κ} : {A : Type ℓ} {B : Type κ} → Option A → Option B → Option B
m >> n = m >>= λ _. n

-- `bool(value)`
unfoldable pub truthy : Json → Bool
truthy null = false
truthy (boolean b) = b
truthy (number n) = ltb 0 n
truthy (fraction s) = true
truthy (text s) = not (s == "")
truthy (array nil) = false
truthy (array (cons v vs)) = true
truthy (object end) = false
truthy (object (field k v fs)) = true

-- a value, or this one where it counts as false
abbrev pub or_else : Json → Json → Json
or_else j default = if truthy j then j else default

abbrev pub field_of : String → Fields → Option Json
field_of key end = none
field_of key (field k v fs) = if k == key then some v else field_of key fs

null_if_absent : Option Json → Json
null_if_absent none = null
null_if_absent (some v) = v

-- `value.get(key)`, which only a dictionary has
unfoldable pub get_key : String → Json → Option Json
unfolding null_if_absent
get_key key (object fs) = some (null_if_absent (field_of key fs))
get_key key _ = none

-- `value[key]`
unfoldable pub require_key : String → Json → Option Json
require_key key (object fs) = field_of key fs
require_key key _ = none

-- a value that is a text, or None
unfoldable pub as_text : Json → Option (Option String)
as_text null = some none
as_text (text s) = some (some s)
as_text _ = none

unfoldable pub as_string : Json → Option String
as_string (text s) = some s
as_string _ = none

-- a value that is a number, or None
unfoldable pub as_number : Json → Option (Option ℕ)
as_number null = some none
as_number (number n) = some (some n)
as_number _ = none

unfoldable pub as_values : Json → Option Values
as_values (array vs) = some vs
as_values _ = none

-- the entries of a dictionary of texts
unfoldable pub as_texts : Fields → Option (Dict String)
as_texts end = some []
as_texts (field k v fs) = do s ← as_string v; rest ← as_texts fs; some ((k, s) ∷ rest)

unfoldable pub as_dict : Json → Option (Dict String)
as_dict (object fs) = as_texts fs
as_dict _ = none
