-- ===== src/Flags.antt =====
-- app/flags.py: `value` and `is_enabled`. The client of the flag service is a parameter: from a
-- flag, its default and the attributes of the user to a value, or an exception; none where it is not
-- configured. Every flag is a Boolean.
use subscription_service.Prelude.{
  Bool, Dict, Option, String, [], false, lookup, none, present, some, true, ◌∷◌,
}
use subscription_service.Effects.{Result, ok, err}

-- DEFAULTS
abbrev pub defaults : Dict Bool
defaults = ("checkout-enabled", true) ∷ []

abbrev pub FlagClient : Type 0
FlagClient = String → Bool → String → Result Bool

-- an evaluation that fails gives the default
evaluated : Bool → Result Bool → Bool
evaluated default (ok v) = v
evaluated default (err e) = default

value_of : Option FlagClient → String → String → Option Bool → Option Bool
unfolding evaluated
value_of client name user_id none = none
value_of none name user_id (some default) = some default
value_of (some evaluate) name user_id (some default) =
    some (evaluated default (evaluate name default user_id))

user_or_anonymous : Option String → String
user_or_anonymous none = "anonymous"
user_or_anonymous (some id) = id

-- `value`, none for a flag that is not known
unfoldable pub value : Option FlagClient → String → Option String → Option Bool
unfolding value_of user_or_anonymous
value client name user_id =
    value_of client name (user_or_anonymous (present user_id)) (lookup name defaults)

-- `bool(value)`
as_bool : Option Bool → Bool
as_bool none = false
as_bool (some b) = b

unfoldable pub is_enabled : Option FlagClient → String → Option String → Bool
unfolding as_bool
is_enabled client name user_id = as_bool (value client name user_id)
