-- ===== src/Utils/Decimals.antt =====
-- shared/utils.py: the numbers of DynamoDB, on their way to JSON.
pub mod Whole
use pay_ledger.Prelude.{
  ℕ, zero, suc, ◌+◌, ◌-◌, ◌*◌, ◌/◌, ◌%◌, ◌≤◌, ◌<◌, String, ◌≡◌, refl, sym, ◌∙◌, ap, subst, ◌↔◌,
  Bool, true, false, ◌&&◌, ◌||◌, not, ltb, eqb, if◌then◌else◌, Bool-cases, inl, inr, arith,
}
use pay_ledger.Prelude.Int.{ℤ, pos, negsuc, pos_part, neg_part}

-- `decimal.Decimal`: a sign, the number that the digits are, and the exponent of 10; or no number.
pub data Decimal : Type 0 where
  finite : (negative : Bool) (digits : ℕ) (exponent : ℤ) → Decimal
  infinity : (negative : Bool) → Decimal
  not_a_number : Decimal

unfoldable pub ten_to : ℕ → ℕ
ten_to zero = 1
ten_to (suc k) = 10 * ten_to k

abbrev pub signed : Bool → ℕ → ℤ
signed true (suc n) = negsuc n
signed true zero = pos 0
signed false n = pos n

-- To the nearest whole number, of two such to the even one.
unfoldable pub rounded : (digits power : ℕ) → ℕ
rounded digits power =
    let whole = digits / power in
    let twice = 2 * (digits % power) in
    if ltb twice power || (eqb twice power && eqb (whole % 2) 0) then whole else suc whole

unfoldable pub to_integral_value : Decimal → Decimal
unfolding ten_to
to_integral_value (finite negative digits (negsuc k)) =
    finite negative (rounded digits (ten_to (suc k))) (pos 0)
to_integral_value value = value

-- The digits, shifted to the smaller of the two exponents.
abbrev pub aligned : (digits : ℕ) (exponent other : ℤ) → ℕ
aligned digits exponent other =
    digits * ten_to ((pos_part exponent + neg_part other) - (neg_part exponent + pos_part other))

abbrev pub same_sign : Bool → Bool → Bool
same_sign true b = b
same_sign false b = not b

-- `==`. Zero has no sign here.
unfoldable pub equal : Decimal → Decimal → Bool
equal (finite n c e) (finite n' c' e') =
    (eqb c 0 && eqb c' 0) || (same_sign n n' && eqb (aligned c e e') (aligned c' e' e))
equal (infinity n) (infinity n') = same_sign n n'
equal _ _ = false

-- What the encoder of JSON is given, or the exception. `float` is left to Python.
pub data Encoded : Type 0 where
  as_int : ℤ → Encoded
  as_float : Decimal → Encoded
  overflow_error value_error : Encoded
  type_error : String → Encoded

-- `int(value)`, towards zero
unfoldable pub int : Decimal → Encoded
int (finite negative digits (pos e)) = as_int (signed negative (digits * ten_to e))
int (finite negative digits (negsuc k)) = as_int (signed negative (digits / ten_to (suc k)))
int (infinity negative) = overflow_error
int not_a_number = value_error

-- A value that `json.dumps` does not know: a Decimal, or another one, by the name of its type.
pub data Unknown : Type 0 where
  decimal : Decimal → Unknown
  other : String → Unknown

unfoldable pub json_default : Unknown → Encoded
json_default (decimal value) =
    if equal value (to_integral_value value) then int value else as_float value
json_default (other type_name) = type_error type_name
