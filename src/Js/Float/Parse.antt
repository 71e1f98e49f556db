-- ===== src/Js/Float/Parse.antt =====
-- What `parseFloat` makes of a decimal number.
use native.Mathlib.Nat.{mul-one}
use x402guard.Base.{
  ℕ, ◌*◌, ◌^◌, ◌≡◌, refl, ◌∙◌, ap, true, false, ◌==◌, [], ◌∷◌, ◌++◌, append-nil, length, arith,
}
use x402guard.Js.Text.{
  Text, text, is_space, is_digit, starts_with, strip_prefix, take_while, drop_while,
}
use x402guard.Js.Text.Laws.{
  Each, take_while-append, drop_while-append, take_while_all, drop_while_all,
}
use x402guard.Js.Number.{digits_value}
use x402guard.Js.Number.Numeral.{digit_no_space, digit_no_sign}
use x402guard.Js.Float.{
  from_fraction, decimal_float, with_point, after_point, unsigned_float, signed_float, parse_float,
}

module _ (c : ℕ) (digit : is_digit c ≡ true) where
  drop_space-digit : (s : Text) → drop_while is_space (c ∷ s) ≡ c ∷ s
  unfolding drop_while
  drop_space-digit s = rw (digit_no_space c digit) refl

  sign_none : (s : Text) → signed_float (c ∷ s) ≡ unsigned_float false (c ∷ s)
  sign_none s = let (minus, plus) = digit_no_sign c digit in rw (minus, plus) refl

  signless : (s : Text) → parse_float (c ∷ s) ≡ unsigned_float false (c ∷ s)
  unfolding parse_float
  signless s = ap signed_float (drop_space-digit s) ∙ sign_none s

  no_capital : (b'I' == c) ≡ false
  unfolding is_digit
  no_capital = ground arith

  not_infinity : (s : Text) → starts_with (c ∷ s) (text "Infinity") ≡ false
  unfolding starts_with strip_prefix text
  not_infinity s = rw no_capital refl

  unsigned_digits :
      (s : Text)
      → unsigned_float false (c ∷ s)
        ≡ with_point false
            (take_while is_digit (c ∷ s))
            (drop_while is_digit (c ∷ s))
            (after_point (drop_while is_digit (c ∷ s)))
  unfolding unsigned_float
  unsigned_digits s = rw (not_infinity s) refl

  decimal_float_lem :
      (w f : Text)
      → decimal_float false (c ∷ w) f []
        ≡ from_fraction false (digits_value 0 ((c ∷ w) ++ f)) (10 ^ length f)
  unfolding decimal_float
  decimal_float_lem w f =
      ap (λ n. from_fraction false n (10 ^ length f * 1)) (mul-one (digits_value 0 ((c ∷ w) ++ f)))
      ∙ ap (from_fraction false (digits_value 0 ((c ∷ w) ++ f))) (mul-one (10 ^ length f))

  -- Digits, a point and more digits.
  pub parse_float-point :
      (w f : Text)
      → Each is_digit w
      → Each is_digit f
      → parse_float (c ∷ w ++ b'.' ∷ f)
        ≡ from_fraction false (digits_value 0 (c ∷ w ++ f)) (10 ^ length f)
  unfolding is_digit
  parse_float-point w f hw hf =
      signless (w ++ b'.' ∷ f)
      ∙ (unsigned_digits (w ++ b'.' ∷ f)
          ∙ (ap
                (λ t.
                  with_point false t (drop_while is_digit (c ∷ (w ++ b'.' ∷ f)))
                    (after_point (drop_while is_digit (c ∷ (w ++ b'.' ∷ f)))))
                (take_while-append is_digit (c ∷ w) b'.' f (digit, hw) refl)
              ∙ (ap (λ t. with_point false (c ∷ w) t (after_point t))
                    (drop_while-append is_digit (c ∷ w) b'.' f (digit, hw) refl)
                  ∙ (ap (λ t. decimal_float false (c ∷ w) t (drop_while is_digit f))
                        (take_while_all is_digit f hf)
                      ∙ (ap (decimal_float false (c ∷ w) f) (drop_while_all is_digit f hf)
                          ∙ decimal_float_lem w f)))))

  -- Digits only.
  pub parse_float-whole :
      (w : Text)
      → Each is_digit w
      → parse_float (c ∷ w) ≡ from_fraction false (digits_value 0 (c ∷ w)) 1
  parse_float-whole w hw =
      signless w
      ∙ (unsigned_digits w
          ∙ (ap
                (λ t.
                  with_point false t (drop_while is_digit (c ∷ w))
                    (after_point (drop_while is_digit (c ∷ w))))
                (take_while_all is_digit (c ∷ w) (digit, hw))
              ∙ (ap (λ t. with_point false (c ∷ w) t (after_point t))
                    (drop_while_all is_digit (c ∷ w) (digit, hw))
                  ∙ (decimal_float_lem w []
                      ∙ ap (λ t. from_fraction false (digits_value 0 t) 1) (append-nil (c ∷ w))))))
