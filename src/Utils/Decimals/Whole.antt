-- ===== src/Utils/Decimals/Whole.antt =====
-- Which numbers are written as whole ones.
use native.Mathlib.Nat.{zero-mul, mul-one, mul-div_cancel, mul-mod_left}
use pay_ledger.Prelude.{
  ℕ, zero, suc, ◌+◌, ◌-◌, ◌*◌, ◌/◌, ◌<◌, ◌≡◌, refl, sym, ◌∙◌, ap, ◌↔◌, ◌⊎◌, Bool, true, false, ◌&&◌,
  ◌||◌, eqb, Bool-cases, inl, inr, arith,
}
use pay_ledger.Prelude.Int.{ℤ, pos, negsuc, pos_part, neg_part}
use pay_ledger.Utils.Decimals.{
  finite, decimal, ten_to, signed, rounded, to_integral_value, aligned, same_sign, equal, as_int,
  as_float, int, json_default,
}

ten_to-pos : (k : ℕ) → 0 < ten_to k
unfolding ten_to
ten_to-pos zero = omega arith
ten_to-pos (suc k) = omega (arith, ten_to-pos k)

rounded-exact : (m power : ℕ) → 0 < power → rounded (m * power) power ≡ m
unfolding rounded
rounded-exact m power h = rw (mul-div_cancel m h, mul-mod_left m power) (ground arith)

same_sign_refl : (b : Bool) → same_sign b b ≡ true
same_sign_refl true = refl
same_sign_refl false = refl

-- The test of `json_default`, at an exponent that is not negative, and at one that is.
equal-raised :
    (negative : Bool) (digits e : ℕ)
    → equal (finite negative digits (pos e)) (finite negative digits (pos e)) ≡ true
unfolding equal
equal-raised negative digits e = rw (same_sign_refl negative) (ground arith)

aligned-down : (digits k : ℕ) → aligned digits (negsuc k) (pos 0) ≡ digits
unfolding ten_to
aligned-down digits k = rw (nothing k) (omega arith)
  where
    nothing : (k : ℕ) → 0 - (suc k + 0) ≡ 0
    nothing k = omega arith

aligned-up : (whole k : ℕ) → aligned whole (pos 0) (negsuc k) ≡ whole * ten_to (suc k)
aligned-up whole k = ap (λ e. whole * ten_to e) (exponent k)
  where
    exponent : (k : ℕ) → 0 + suc k - 0 ≡ suc k
    exponent k = omega arith

test_iff :
    (digits whole raised : ℕ)
    → (whole ≡ 0 → raised ≡ 0)
    → (((eqb digits 0 && eqb whole 0) || (true && eqb digits raised)) ≡ true) ↔ (digits ≡ raised)
test_iff digits whole raised h = (λ e. ground (arith, h), λ e. ground arith)

equal-rounded :
    (negative : Bool) (digits k : ℕ)
    → (equal
          (finite negative digits (negsuc k))
          (finite negative (rounded digits (ten_to (suc k))) (pos 0))
        ≡ true)
      ↔ (digits ≡ rounded digits (ten_to (suc k)) * ten_to (suc k))
unfolding equal
equal-rounded negative digits k =
    let whole = rounded digits (ten_to (suc k)) in
    rw (same_sign_refl negative, aligned-down digits k, aligned-up whole k)
      (test_iff digits whole (whole * ten_to (suc k)) (λ e. rw e (zero-mul (ten_to (suc k)))))

drop_one : {a b : ℕ} → a * 1 ≡ b → a ≡ b
drop_one h = omega arith

quotient : (m k : ℕ) → m * ten_to (suc k) / ten_to (suc k) ≡ m
quotient m k = mul-div_cancel m (ten_to-pos (suc k))

rounds :
    {digits : ℕ} (m k : ℕ)
    → digits ≡ m * ten_to (suc k)
    → digits ≡ rounded digits (ten_to (suc k)) * ten_to (suc k)
rounds m k h =
    rw h
      (ap (λ x. x * ten_to (suc k)) (sym (rounded-exact m (ten_to (suc k)) (ten_to-pos (suc k)))))

-- `digits * 10 ^ exponent` is the whole number m.
abbrev pub IsWhole : (digits : ℕ) → ℤ → ℕ → Type 0
IsWhole digits exponent m = digits * ten_to (pos_part exponent) ≡ m * ten_to (neg_part exponent)

-- A finite Decimal that is a whole number is written as this integer, with the sign of the Decimal
-- and nothing rounded, and every other finite one becomes a float.
pub json_default-IsWhole :
    (negative : Bool) (digits : ℕ) (exponent : ℤ)
    → ((m : ℕ) × IsWhole digits exponent m
        × (json_default (decimal (finite negative digits exponent)) ≡ as_int (signed negative m)))
      ⊎ ((¬ ((m : ℕ) × IsWhole digits exponent m))
          × (json_default (decimal (finite negative digits exponent))
              ≡ as_float (finite negative digits exponent)))
unfolding json_default to_integral_value int
json_default-IsWhole negative digits (pos e) =
    rw (equal-raised negative digits e) (inl (digits * ten_to e, omega arith, refl))
json_default-IsWhole negative digits (negsuc k) =
    let power = ten_to (suc k) in
    elim (Bool-cases (
      equal (finite negative digits (negsuc k)) (finite negative (rounded digits power) (pos 0)))) [
        | inl e ↦
            let exact = (equal-rounded negative digits k).0 e in
            let q = ap (λ d. d / power) exact ∙ quotient (rounded digits power) k in
            rw e (inl (digits / power, mul-one digits ∙ exact ∙ ap (λ x. x * power) (sym q), refl))
        | inr e ↦ rw e (
            inr (
              λ (m, is_m).
                  let exact = (equal-rounded negative digits k).1 (rounds m k (drop_one is_m)) in
                  cc,
              refl,
            ))
      ]
