-- ===== src/Js/Number/Decimal.antt =====
-- Printing a number in decimal and reading it back.
use x402guard.Base.{
  ℕ, zero, suc, ◌+◌, ◌/◌, ◌%◌, ◌≤◌, ◌<◌, ◌≡◌, refl, ap, ◌∙◌, [], ◌∷◌, arith, ltb, ltb→lt,
  Bool-cases, inl, inr,
}
use x402guard.Js.Text.{Text, is_digit}
use x402guard.Js.Text.Laws.{Each}
use x402guard.Js.Number.{digits_of, decimal, digits_value, to_double, max_exact}

digits_value-digits_of :
    (fuel n : ℕ) (out : Text)
    → n < fuel
    → digits_value 0 (digits_of fuel n out) ≡ digits_value n out
unfolding digits_of digits_value
digits_value-digits_of zero n out h = elim h [ ]
digits_value-digits_of (suc fuel) n out h = elim (Bool-cases (ltb n 10)) [
  | inl small ↦ let lt = ltb→lt n 10 small in rw small (ap (λ k. digits_value k out) (omega arith))
  | inr large ↦
      let ge : 10 ≤ n = ground arith in
      rw large (
        digits_value-digits_of fuel (n / 10) ((b'0' + n % 10) ∷ out) (omega arith)
        ∙ ap (λ k. digits_value k out) (omega arith))
]

pub digits_value-decimal : (n : ℕ) → digits_value 0 (decimal n) ≡ n
unfolding decimal digits_value
digits_value-decimal n = digits_value-digits_of (suc n) n [] (omega arith)

Each-digits_of :
    (fuel n : ℕ) (out : Text) → Each is_digit out → Each is_digit (digits_of fuel n out)
unfolding digits_of is_digit
Each-digits_of zero n out h = h
Each-digits_of (suc fuel) n out h =
    ground (arith, Each-digits_of fuel (n / 10) ((b'0' + n % 10) ∷ out))

pub Each-decimal : (n : ℕ) → Each is_digit (decimal n)
unfolding decimal
Each-decimal n = Each-digits_of (suc n) n [] tt

digits_of-cons :
    (fuel n d : ℕ) (out : Text) → (c : ℕ) × (s : Text) × (digits_of fuel n (d ∷ out) ≡ c ∷ s)
unfolding digits_of
digits_of-cons zero n d out = (d, out, refl)
digits_of-cons (suc fuel) n d out = elim (Bool-cases (ltb n 10)) [
  | inl small ↦ (b'0' + n % 10, d ∷ out, rw small)
  | inr large ↦ rw large (digits_of-cons fuel (n / 10) (b'0' + n % 10) (d ∷ out))
]

-- A number prints to at least one digit.
pub decimal-cons : (n : ℕ) → (c : ℕ) × (s : Text) × (decimal n ≡ c ∷ s)
unfolding decimal digits_of
decimal-cons n = elim (Bool-cases (ltb n 10)) [
  | inl small ↦ (b'0' + n % 10, [], rw small)
  | inr large ↦ rw large (digits_of-cons n (n / 10) (b'0' + n % 10) [])
]

pub to_double_exact : (n : ℕ) → n ≤ max_exact → to_double n ≡ n
unfolding to_double
to_double_exact n h = ground arith
