-- ===== src/Sdk/Errors/RoundTrip/Formats.antt =====
-- From the proxy's violation to its 403 body and back to the structured error.
use x402guard.Base.{get_or, ℕ, ◌≡◌, refl, ◌∙◌, Bool, true, false}
use x402guard.Js.Text.{
  Text, text, starts_with, drop_while, is_space, lower_ascii, text_eq, take_while, strip_prefix,
  is_digit,
}
use x402guard.Js.Pattern.{search_text, match_here}
use x402guard.Js.Number.{decimal, to_double, pos}
use x402guard.Js.Number.Numeral.{decimal-IsNumeral, parse_int-decimal}
use x402guard.Js.Json.{get_field, fields_of}
use x402guard.Sdk.Errors.{
  unknown_details, Amount, number, string, ok, cleaned, rule_type_of, details_of, amount_of,
  violation_of, from_api_response, property, spend_tx_pattern, spend_day_pattern, leverage_pattern,
  slippage_pattern,
}
use x402guard.Sdk.Errors.Messages.{
  ProxyViolation, spend_tx, spend_day, leverage, slippage, contract, empty_whitelist,
  invalid_leverage, invalid_slippage, print, framed, error_body,
}
use x402guard.Sdk.Errors.RoundTrip.Search.{
  search_spend_tx, search_spend_day, search_spend_tx_day, search_leverage, search_spend_leverage,
  search_slippage, search_other_slippage,
}
use x402guard.Sdk.Errors.RoundTrip.Targets.{IsTarget, search_contract, contract_lacks_gt}

amount_of-decimal : (n : ℕ) → amount_of (decimal n) ≡ number (pos (to_double n))
unfolding amount_of
amount_of-decimal n = rw (parse_int-decimal n, amount_of)

-- What the SDK should report of a violation: the rule, the limit and the actual value.
abbrev pub rule_of : ProxyViolation → Text
rule_of (spend_tx _ _) = text "MaxSpendPerTx"
rule_of (spend_day _ _) = text "MaxSpendPerDay"
rule_of (leverage _ _) = text "MaxLeverage"
rule_of (slippage _ _) = text "MaxSlippage"
rule_of (contract _) = text "AllowedContracts"
rule_of empty_whitelist = text "AllowedContracts"
rule_of invalid_leverage = text "MaxLeverage"
rule_of invalid_slippage = text "MaxSlippage"

abbrev double : ℕ → Amount
double n = number (pos (to_double n))

abbrev pub limit_of : ProxyViolation → Amount
limit_of (spend_tx _ l) = double l
limit_of (spend_day _ l) = double l
limit_of (leverage _ l) = double l
limit_of (slippage _ l) = double l
limit_of (contract _) = string (text "whitelist")
limit_of _ = string (text "unknown")

abbrev pub actual_of : ProxyViolation → Amount
actual_of (spend_tx a _) = double a
actual_of (spend_day a _) = double a
actual_of (leverage a _) = double a
actual_of (slippage a _) = double a
actual_of (contract t) = string t
actual_of _ = string (text "unknown")

abbrev pub IsReadable : ProxyViolation → Type 0
IsReadable (contract t) = IsTarget t
IsReadable _ = Unit

details-print :
    (v : ProxyViolation)
    → IsReadable v
    → get_or (details_of (print v)) unknown_details ≡ (actual_of v, limit_of v)
unfolding details_of print text search_text match_here take_while drop_while strip_prefix is_space
    is_digit starts_with
details-print (spend_tx a l) h =
    simp (search_spend_tx _ _ (decimal-IsNumeral a) (decimal-IsNumeral l), amount_of-decimal)
details-print (spend_day a l) h =
    let da = decimal-IsNumeral a in
    let dl = decimal-IsNumeral l in
    simp (search_spend_tx_day _ _ da dl, search_spend_day _ _ da dl, amount_of-decimal)
details-print (leverage a l) h =
    let da = decimal-IsNumeral a in
    let dl = decimal-IsNumeral l in
    let (no_tx, no_day) = search_spend_leverage _ _ da dl in
    simp (no_tx, no_day, search_leverage _ _ da dl, amount_of-decimal)
details-print (slippage a l) h =
    let da = decimal-IsNumeral a in
    let dl = decimal-IsNumeral l in
    let (no_tx, no_day, no_leverage) = search_other_slippage _ _ da dl in
    simp (no_tx, no_day, no_leverage, search_slippage _ _ da dl, amount_of-decimal)
details-print (contract t) h = simp (
  contract_lacks_gt t h spend_tx_pattern refl,
  contract_lacks_gt t h spend_day_pattern refl,
  contract_lacks_gt t h leverage_pattern refl,
  contract_lacks_gt t h slippage_pattern refl,
  search_contract t h,
)
details-print empty_whitelist h = refl
details-print invalid_leverage h = refl
details-print invalid_slippage h = refl

cleaned-framed : (b : Bool) (v : ProxyViolation) → cleaned (framed b (print v)) ≡ print v
unfolding cleaned framed print text lower_ascii drop_while is_space
cleaned-framed true (spend_tx a l) = refl
cleaned-framed true _ = refl
cleaned-framed false (spend_tx a l) = refl
cleaned-framed false _ = refl

rule_type_of-print : (v : ProxyViolation) → rule_type_of (print v) ≡ rule_of v
unfolding rule_type_of starts_with print text
rule_type_of-print (spend_tx a l) = refl
rule_type_of-print _ = refl

from_api_response-error_body :
    (m : Text) (code : ℕ) → from_api_response (error_body m code) ≡ ok (violation_of m)
unfolding from_api_response error_body property get_field fields_of text text_eq
from_api_response-error_body m code = refl

pub from_api_response-print :
    (b : Bool) (v : ProxyViolation) (code : ℕ)
    → IsReadable v
    → from_api_response (error_body (framed b (print v)) code)
      ≡ ok (record {
        message = framed b (print v);
        rule_type = rule_of v;
        limit = limit_of v;
        actual = actual_of v;
      })
unfolding violation_of
from_api_response-print b v code h =
    from_api_response-error_body (framed b (print v)) code
    ∙ rw (cleaned-framed b v, rule_type_of-print v, details-print v h)
