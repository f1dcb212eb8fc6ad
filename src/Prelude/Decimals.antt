-- ===== src/Prelude/Decimals.antt =====
-- Numbers in decimal: `Display` of the unsigned integers, and the value of a run of digits.
use wispers_access.Prelude.{
  Bool, Bool-cases, Option, Text, [], arith, if◌then◌else◌, inl, inr, leb, ltb, none, some, suc,
  true, zero, ℕ, ◌%◌, ◌&&◌, ◌*◌, ◌+◌, ◌-◌, ◌/◌, ◌∷◌, ◌≡◌,
}

unfoldable pub is_ascii_digit : ℕ → Bool
is_ascii_digit c = leb 48 c && leb c 57

-- The value of decimal digits, none when one is no digit.
unfoldable pub digits_value : ℕ → Text → Option ℕ
unfolding is_ascii_digit
digits_value n [] = some n
digits_value n (c ∷ s) = if is_ascii_digit c then digits_value (n * 10 + (c - 48)) s else none

-- `Display` of a u16: five digits at most, so a fuel of five.
unfoldable pub decimal_digits : ℕ → ℕ → Text → Text
decimal_digits zero n acc = (48 + n % 10) ∷ acc
decimal_digits (suc fuel) n acc =
    let rest = decimal_digits fuel (n / 10) ((48 + n % 10) ∷ acc) in
    if ltb n 10 then (48 + n) ∷ acc else rest

unfoldable pub decimal : ℕ → Text
unfolding decimal_digits
decimal n = decimal_digits 5 n []

-- `Display` of a number of any size: it has no more digits than its value, but for 0.
unfoldable pub to_decimal : ℕ → Text
unfolding decimal_digits
to_decimal n = decimal_digits n n []

digits_value-decimal_digits :
    (fuel n : ℕ) (acc : Text)
    → leb n fuel ≡ true
    → digits_value 0 (decimal_digits fuel n acc) ≡ digits_value n acc
unfolding digits_value decimal_digits is_ascii_digit
digits_value-decimal_digits zero n acc h = ground arith
digits_value-decimal_digits (suc fuel) n acc h = elim (Bool-cases (ltb n 10)) [
  | inl e ↦ ground (arith, e)
  | inr e ↦ ground (arith, e, digits_value-decimal_digits fuel (n / 10) ((48 + n % 10) ∷ acc))
]

-- The digits of a number have it as their value.
pub digits_value-to_decimal : (n : ℕ) → digits_value 0 (to_decimal n) ≡ some n
unfolding to_decimal digits_value
digits_value-to_decimal n = digits_value-decimal_digits n n [] (ground arith)

pub to_decimal-injective : (m n : ℕ) → to_decimal m ≡ to_decimal n → m ≡ n
to_decimal-injective m n h = ground (arith, digits_value-to_decimal m, digits_value-to_decimal n, h)
