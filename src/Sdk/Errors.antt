-- ===== src/Sdk/Errors.antt =====
-- examples/core/src/errors.ts: the error classes, and the structured form of the proxy's 403 body.
pub mod Messages
pub mod RoundTrip
use x402guard.Base.{
  ℕ, Bool, true, false, ◌&&◌, Option, none, some, List, [], ◌∷◌, ◌++◌, ◌==◌, if◌then◌else◌, or_else,
  get_or,
}
use x402guard.Js.Text.{Text, text, is_space, lower_ascii, drop_while, starts_with}
use x402guard.Js.Number.{ℤ, parse_int}
use x402guard.Js.Json.{Json, null, bool, num, str, arr, obj, get_field}
use x402guard.Js.Pattern.{Pattern, word, spaces, blanks, digits, nonspaces, search_text}

-- `number | string`
pub data Amount : Type 0 where
  number : ℤ → Amount
  nan : Amount
  string : Text → Amount

pub record Violation : Type 0 where
  pub message : Text
  pub rule_type : Text
  pub limit : Amount
  pub actual : Amount

-- A thrown value, by its class. `error` stands for every other `Error` of the language, the
-- runtime and the libraries, `other` for a thrown value that is no `Error` (as `String` prints it).
pub data Thrown : Type 0 where
  type_error error : Text → Thrown
  x402_guard_error : Text → Option ℕ → Thrown
  guardrail_violation : Violation → Thrown
  proxy_unreachable : Text → Option Text → Thrown
  session_key_expired : Text → Thrown
  rate_limited : Text → ℕ → Thrown
  other : Text → Thrown

-- `error instanceof Error ? error.message : String(error)`
unfoldable pub message_of : Thrown → Text
message_of (type_error m) = m
message_of (error m) = m
message_of (x402_guard_error m code) = m
message_of (guardrail_violation v) = v.message
message_of (proxy_unreachable m cause) = m
message_of (session_key_expired m) = m
message_of (rate_limited m after) = m
message_of (other m) = m

-- `statusCode`, `undefined` for what is no `X402GuardError`.
unfoldable pub status_code : Thrown → Option ℕ
status_code (x402_guard_error m code) = code
status_code (guardrail_violation v) = some 403
status_code (session_key_expired m) = some 403
status_code (rate_limited m after) = some 429
status_code _ = none

-- `new ProxyUnreachableError(proxyUrl, cause)`; of the cause its message is kept.
unfoldable pub proxy_unreachable_error : Text → Option Text → Thrown
proxy_unreachable_error url cause =
    proxy_unreachable
      (text "Proxy unreachable at " ++ url ++ text " -- is docker compose up running?") cause

pub data Result {ℓ} (A : Type ℓ) : Type ℓ where
  ok : A → Result A
  throw : Thrown → Result A

-- The beginning of a text in the given lower-case letters, whatever their case there.
unfoldable pub strip_prefix_any_case : Text → Text → Option Text
strip_prefix_any_case [] s = some s
strip_prefix_any_case (c ∷ w) [] = none
strip_prefix_any_case (c ∷ w) (d ∷ s) =
    if c == lower_ascii d then strip_prefix_any_case w s else none

-- `errorStr.replace(/^guardrail violated:\s*/i, "")`
unfoldable pub cleaned : Text → Text
unfolding strip_prefix_any_case
cleaned s = elim (strip_prefix_any_case (text "guardrail violated:") s) [
  | none ↦ s
  | some rest ↦ drop_while is_space rest
]

abbrev pub rule_names : List Text
rule_names =
    text "MaxSpendPerTx"
    ∷ text "MaxSpendPerDay"
    ∷ text "AllowedContracts"
    ∷ text "MaxLeverage"
    ∷ text "MaxSlippage"
    ∷ []

-- The first of the names that the text begins with.
unfoldable pub first_prefix : List Text → Text → Option Text
first_prefix [] s = none
first_prefix (w ∷ ws) s = if starts_with s w then some w else first_prefix ws s

unfoldable pub rule_type_of : Text → Text
unfolding first_prefix
rule_type_of s = get_or (first_prefix rule_names s) (text "Unknown")

abbrev pub spend_tx_pattern : Pattern
spend_tx_pattern =
    word (text "payment")
    ∷ spaces
    ∷ digits
    ∷ blanks
    ∷ word (text ">")
    ∷ blanks
    ∷ word (text "limit")
    ∷ spaces
    ∷ digits
    ∷ []

abbrev pub spend_day_pattern : Pattern
spend_day_pattern =
    word (text "daily total")
    ∷ spaces
    ∷ digits
    ∷ blanks
    ∷ word (text ">")
    ∷ blanks
    ∷ word (text "limit")
    ∷ spaces
    ∷ digits
    ∷ []

abbrev pub leverage_pattern : Pattern
leverage_pattern =
    digits ∷ blanks ∷ word (text ">") ∷ blanks ∷ word (text "max") ∷ spaces ∷ digits ∷ []

abbrev pub slippage_pattern : Pattern
slippage_pattern =
    digits
    ∷ blanks
    ∷ word (text "bps")
    ∷ blanks
    ∷ word (text ">")
    ∷ blanks
    ∷ word (text "max")
    ∷ spaces
    ∷ digits
    ∷ blanks
    ∷ word (text "bps")
    ∷ []

abbrev pub contract_pattern : Pattern
contract_pattern =
    word (text "target") ∷ spaces ∷ nonspaces ∷ spaces ∷ word (text "not in whitelist") ∷ []

-- `parseInt(group, 10)`
unfoldable pub amount_of : Text → Amount
amount_of s = elim (parse_int s) [ none ↦ nan | some n ↦ number n ]

-- The groups of a match as (actual, limit).
abbrev pub two_numbers : Option (List Text) → Option (Amount × Amount)
two_numbers (some (actual ∷ limit ∷ _)) = some (amount_of actual, amount_of limit)
two_numbers _ = none

abbrev pub one_target : Option (List Text) → Option (Amount × Amount)
one_target (some (actual ∷ _)) = some (string actual, string (text "whitelist"))
one_target _ = none

-- The (actual, limit) of the first format that is found.
unfoldable pub details_of : Text → Option (Amount × Amount)
details_of s = or_else (two_numbers (search_text spend_tx_pattern s)) (
    or_else (two_numbers (search_text spend_day_pattern s)) (
      or_else (two_numbers (search_text leverage_pattern s)) (
        or_else (two_numbers (search_text slippage_pattern s))
          (one_target (search_text contract_pattern s)))))

abbrev pub unknown_details : Amount × Amount
unknown_details = (string (text "unknown"), string (text "unknown"))

-- `fromApiResponse` on the text of the error.
unfoldable pub violation_of : Text → Violation
violation_of error_str =
    let (actual, limit) = get_or (details_of (cleaned error_str)) unknown_details in
    record {
      message = error_str;
      rule_type = rule_type_of (cleaned error_str);
      limit = limit;
      actual = actual;
    }

-- `body.error`, which a body of `null` does not have.
unfoldable pub property : Text → Json → Result (Option Json)
property k null = throw (type_error (text "Cannot read properties of null"))
property k (obj fs) = ok (get_field k fs)
property k _ = ok none

-- `(body.error ?? "").replace(…)`: anything but a string has no `replace`.
abbrev pub error_string : Option Json → Result Text
error_string none = ok []
error_string (some null) = ok []
error_string (some (str s)) = ok s
error_string (some _) = throw (type_error (text "errorStr.replace is not a function"))

abbrev pub map_result {ℓ κ} : {A : Type ℓ} {B : Type κ} → (A → B) → Result A → Result B
map_result f (ok a) = ok (f a)
map_result f (throw e) = throw e

abbrev pub bind_result {ℓ κ} : {A : Type ℓ} {B : Type κ} → Result A → (A → Result B) → Result B
bind_result (ok a) f = f a
bind_result (throw e) f = throw e

-- `GuardrailViolationError.fromApiResponse`
unfoldable pub from_api_response : Json → Result Violation
from_api_response body =
    map_result violation_of (bind_result (property (text "error") body) error_string)
