-- ===== src/Decimal.antt =====
-- Numbers as text, as an f-string of Python prints them.
use subscription_service.Prelude.{List, String, [], false, ltb, suc, true, zero, ℕ, ◌%◌, ◌/◌, ◌∷◌}
use Prim.Native.String.{◌++◌ as append}

-- a number in decimal; there are at most as many rounds as the number
digit_of : ℕ → List String → String
digit_of n [] = "9"
digit_of zero (s ∷ texts) = s
digit_of (suc n) (s ∷ texts) = digit_of n texts

digit : ℕ → String
unfolding digit_of
digit n = digit_of n ("0" ∷ "1" ∷ "2" ∷ "3" ∷ "4" ∷ "5" ∷ "6" ∷ "7" ∷ "8" ∷ [])

decimal_on : ℕ → ℕ → String
unfolding digit
decimal_on zero n = digit n
decimal_on (suc fuel) n = elim (ltb n 10) [
  | true ↦ digit n
  | false ↦ append (decimal_on fuel (n / 10)) (digit (n % 10))
]

unfoldable pub decimal : ℕ → String
unfolding decimal_on
decimal n = decimal_on n n
