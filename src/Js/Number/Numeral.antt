-- ===== src/Js/Number/Numeral.antt =====
-- A nonempty run of digits, as a pattern meets it: the classes before, on and after it.
use x402guard.Base.{ℕ, ◌≡◌, refl, ap, ◌∙◌, false, true, some, [], ◌∷◌, ◌++◌, arith, ◌==◌}
use x402guard.Js.Text.{Text, is_empty, is_space, is_digit, take_while, drop_while}
use x402guard.Js.Text.Laws.{
  Each, take_while-append, drop_while-append, take_while_all, drop_while_all,
}
use x402guard.Js.Number.{
  decimal, digits_value, to_double, pos, leading_number, signed_number, parse_int, map_sign,
}
use x402guard.Js.Number.Decimal.{digits_value-decimal, Each-decimal, decimal-cons}

pub record IsNumeral (s : Text) : Type 0 where
  pub nonempty : is_empty s ≡ false
  pub all_digits : Each is_digit s

pub decimal-IsNumeral : (n : ℕ) → IsNumeral (decimal n)
decimal-IsNumeral n = record {
  nonempty = let (c, s, e) = decimal-cons n in ap is_empty e;
  all_digits = Each-decimal n;
}

pub digit_no_space : (c : ℕ) → is_digit c ≡ true → is_space c ≡ false
unfolding is_digit is_space
digit_no_space c h = ground arith

drop_space_lem : (s t : Text) → IsNumeral s → drop_while is_space (s ++ t) ≡ s ++ t
unfolding drop_while
drop_space_lem [] t h = cc (h.nonempty)
drop_space_lem (c ∷ s) t h = rw (digit_no_space c h.all_digits.0)

drop_space_end_lem : (s : Text) → IsNumeral s → drop_while is_space s ≡ s
unfolding drop_while
drop_space_end_lem [] h = refl
drop_space_end_lem (c ∷ s) h = rw (digit_no_space c h.all_digits.0)

leading_number-numeral :
    (s : Text) → IsNumeral s → leading_number s ≡ some (to_double (digits_value 0 s))
unfolding leading_number
leading_number-numeral s h = rw (take_while_all is_digit s h.all_digits, h.nonempty)

pub digit_no_sign : (c : ℕ) → is_digit c ≡ true → ((c == b'-') ≡ false) × ((c == b'+') ≡ false)
unfolding is_digit
digit_no_sign c h = ground arith

parse_int-numeral :
    (s : Text) → IsNumeral s → parse_int s ≡ some (pos (to_double (digits_value 0 s)))
unfolding parse_int
parse_int-numeral [] h = cc (h.nonempty)
parse_int-numeral (c ∷ s) h = rw (drop_space_end_lem (c ∷ s) h) (
    unfold signed_number in
    rw ((digit_no_sign c h.all_digits.0).0, (digit_no_sign c h.all_digits.0).1)
      (ap (map_sign pos) (leading_number-numeral (c ∷ s) h)))

module _ (s : Text) (h : IsNumeral s) where
  pub drop_space-numeral : (t : Text) → drop_while is_space (s ++ t) ≡ s ++ t
  drop_space-numeral t = drop_space_lem s t h

  pub drop_space-numeral_end : drop_while is_space s ≡ s
  drop_space-numeral_end = drop_space_end_lem s h

  pub take_digits-numeral : (t : Text) → take_while is_digit (s ++ b' ' ∷ t) ≡ s
  unfolding is_digit
  take_digits-numeral t = take_while-append is_digit s b' ' t h.all_digits refl

  pub drop_digits-numeral : (t : Text) → drop_while is_digit (s ++ b' ' ∷ t) ≡ b' ' ∷ t
  unfolding is_digit
  drop_digits-numeral t = drop_while-append is_digit s b' ' t h.all_digits refl

  pub take_digits-numeral_end : take_while is_digit s ≡ s
  take_digits-numeral_end = take_while_all is_digit s h.all_digits

  pub drop_digits-numeral_end : drop_while is_digit s ≡ []
  drop_digits-numeral_end = drop_while_all is_digit s h.all_digits

-- `parseInt` reads back what was printed in decimal, up to the rounding to a double.
pub parse_int-decimal : (n : ℕ) → parse_int (decimal n) ≡ some (pos (to_double n))
parse_int-decimal n =
    parse_int-numeral (decimal n) (decimal-IsNumeral n)
    ∙ ap (λ k. some (pos (to_double k))) (digits_value-decimal n)
