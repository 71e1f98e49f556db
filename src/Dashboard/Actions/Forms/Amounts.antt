-- ===== src/Dashboard/Actions/Forms/Amounts.antt =====
-- The amounts that the forms send.
use x402guard.Base.{
  ℕ, zero, suc, ◌-◌, ◌*◌, ◌^◌, ◌≤◌, ◌<◌, ◌≡◌, refl, ◌∙◌, ap, false, some, [], ◌∷◌, ◌++◌, length,
  arith,
}
use x402guard.Js.Text.{is_space, drop_while, strip_prefix, starts_with, Text, text, is_digit}
use x402guard.Js.Text.Laws.{Each}
use x402guard.Js.Number.{pos, digits_value}
use x402guard.Js.Json.{Json, num, object}
use x402guard.Js.Float.{
  unsigned_float, parse_float, from_fraction, is_nan, at_most_zero, times, rounded_json,
}
use x402guard.Js.Float.Laws.{rounded_json-times, from_fraction-positive}
use x402guard.Js.Float.Parse.{parse_float-point, parse_float-whole}
use x402guard.Dashboard.Actions.Forms.{valid, no_amount, micro_usdc, spend_params}

million : (k : ℕ) → k ≤ 6 → 10 ^ k * 10 ^ (6 - k) ≡ 1000000
million zero h = refl
million (suc zero) h = refl
million (suc (suc zero)) h = refl
million (suc (suc (suc zero))) h = refl
million (suc (suc (suc (suc zero)))) h = refl
million (suc (suc (suc (suc (suc zero))))) h = refl
million (suc (suc (suc (suc (suc (suc zero)))))) h = refl
million (suc (suc (suc (suc (suc (suc (suc k))))))) h = elim (too_large k h) [ ]
  where
    too_large : (m : ℕ) → suc (suc (suc (suc (suc (suc (suc m)))))) ≤ 6 → ⊥
    too_large m l = omega arith

spend_params-fraction :
    (n b s : ℕ)
    → b * s ≡ 1000000
    → 0 < n
    → n * s ≤ 2 ^ 50
    → spend_params (from_fraction false n b)
      ≡ valid (object ((text "limit", some (num (pos (n * s)))) ∷ []))
unfolding spend_params no_amount micro_usdc
spend_params-fraction n b s whole some_n small =
    rw (from_fraction-positive n b s whole some_n small) (
      ap (λ j. valid (object ((text "limit", some j) ∷ [])))
        (rounded_json-times n b s whole some_n small))

-- An amount in USDC with six decimals at most is sent as exactly so many millionths, if it is above
-- zero and at most 2^50 of them.
pub spend_params-exact :
    (c : ℕ) (w f : Text)
    → Each is_digit (c ∷ w)
    → Each is_digit f
    → length f ≤ 6
    → 0 < digits_value 0 (c ∷ w ++ f)
    → digits_value 0 (c ∷ w ++ f) * 10 ^ (6 - length f) ≤ 2 ^ 50
    → spend_params (parse_float (c ∷ w ++ b'.' ∷ f))
      ≡ valid (
          object (
            (text "limit", some (num (pos (digits_value 0 (c ∷ w ++ f) * 10 ^ (6 - length f)))))
            ∷ []))
spend_params-exact c w f (hc, hw) hf short some_n small =
    ap spend_params (parse_float-point c hc w f hw hf)
    ∙ spend_params-fraction (digits_value 0 (c ∷ w ++ f)) (10 ^ length f) (10 ^ (6 - length f))
        (million (length f) short) some_n small

-- Likewise without a point.
spend_params-whole :
    (c : ℕ) (w : Text)
    → Each is_digit (c ∷ w)
    → 0 < digits_value 0 (c ∷ w)
    → digits_value 0 (c ∷ w) * 1000000 ≤ 2 ^ 50
    → spend_params (parse_float (c ∷ w))
      ≡ valid (object ((text "limit", some (num (pos (digits_value 0 (c ∷ w) * 1000000)))) ∷ []))
spend_params-whole c w (hc, hw) some_n small =
    ap spend_params (parse_float-whole c hc w hw)
    ∙ spend_params-fraction (digits_value 0 (c ∷ w)) 1 1000000 refl some_n small

-- `Infinity` passes for a positive number, and is sent as the limit `null`.
spend_params-infinite :
    (s : Text)
    → spend_params (parse_float (text "Infinity" ++ s))
      ≡ valid (object ((text "limit", some Json.null) ∷ []))
unfolding spend_params no_amount micro_usdc parse_float unsigned_float starts_with strip_prefix text
    drop_while is_space is_nan at_most_zero times rounded_json
spend_params-infinite s = refl
