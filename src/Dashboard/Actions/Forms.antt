-- ===== src/Dashboard/Actions/Forms.antt =====
-- dashboard/src/app/dashboard/actions.ts: the server actions that create rules and session keys from
-- a form.
pub mod Laws
pub mod Keys
pub mod Amounts
pub mod Rules
use x402guard.Base.{
  zero, suc, suc, leb, ℕ, Bool, true, false, not, ◌&&◌, ◌||◌, any, map, keep, Option, some, none,
  List, [], ◌∷◌, ◌++◌, get_or, if◌then◌else◌,
}
use x402guard.Js.Text.{Text, text, text_eq, is_empty, split, trim}
use x402guard.Js.Number.{ℤ, pos, negsuc, parse_int}
use x402guard.Js.Float.{Float, parse_float, is_nan, at_most_zero, times, rounded_json}
use x402guard.Js.Json.{Json, num, str, arr, object, items_of}
use x402guard.Sdk.Errors.{error, Result, ok, throw}
use x402guard.Sdk.Io.{Io, Trace, lift, catch, ◌>>=◌, ◌>>◌, is_ok}
use x402guard.Adapters.Openclaw.{present}
use x402guard.Dashboard.Session.{Server, verify_session}
use x402guard.Dashboard.Ownership.{is_uuid, fetch, agent_url}
use x402guard.Dashboard.Actions.{
  ActionResult, complain, error_text, failed_response, send, succeed, if_owner, post_request,
}

-- The text fields of a `FormData`.
abbrev pub Form : Type 0
Form = Text → Option Text

-- What a form is worth: a complaint, or what to send.
pub data Checked {ℓ} (A : Type ℓ) : Type ℓ where
  invalid : Text → Checked A
  valid : A → Checked A

-- `validTypes`
abbrev pub valid_types : List Text
valid_types =
    text "MaxSpendPerTx"
    ∷ text "MaxSpendPerDay"
    ∷ text "AllowedContracts"
    ∷ text "MaxLeverage"
    ∷ text "MaxSlippage"
    ∷ []

-- `isNaN(x) || x <= 0`
unfoldable pub no_amount : Float → Bool
unfolding is_nan at_most_zero
no_amount x = is_nan x || at_most_zero x

-- `Math.round(amount * 1_000_000)`
unfoldable pub micro_usdc : Float → Json
unfolding times rounded_json
micro_usdc amount = rounded_json (times amount 1000000)

-- `s.split(',').map(s => s.trim()).filter(Boolean)`
unfoldable pub split_list : Text → List Text
unfolding split trim keep
split_list s = keep (λ t. not (is_empty t)) (map trim (split b',' s))

unfoldable pub spend_params : Float → Checked Json
unfolding no_amount micro_usdc
spend_params amount =
    if no_amount amount
    then invalid (text "Amount must be a positive number")
    else valid (object ((text "limit", some (micro_usdc amount)) ∷ []))

unfoldable pub contract_params : List Text → Checked Json
contract_params [] = invalid (text "At least one contract address required")
contract_params (a ∷ more) =
    valid (object ((text "addresses", some (arr (items_of (a ∷ more)))) ∷ []))

-- `isNaN(n) || n < 1` complains.
unfoldable pub count_params : Text → Text → Option ℤ → Checked Json
count_params name complaint none = invalid complaint
count_params name complaint (some (negsuc n)) = invalid complaint
count_params name complaint (some (pos zero)) = invalid complaint
count_params name complaint (some (pos (suc n))) =
    valid (object ((name, some (num (pos (suc n)))) ∷ []))

-- The `switch` of `createGuardrailRule`.
unfoldable pub rule_params : Text → Text → Checked Json
unfolding spend_params contract_params count_params split_list parse_float parse_int
rule_params rule_type value =
    if text_eq rule_type (text "MaxSpendPerTx") || text_eq rule_type (text "MaxSpendPerDay")
    then spend_params (parse_float value)
    else (if text_eq rule_type (text "AllowedContracts")
        then contract_params (split_list value)
        else (if text_eq rule_type (text "MaxLeverage")
            then count_params (text "max") (text "Leverage must be a positive integer")
                (parse_int value)
            else (if text_eq rule_type (text "MaxSlippage")
                then count_params (text "bps") (text "Slippage must be at least 1 basis point")
                    (parse_int value)
                else invalid (text "Unknown rule type"))))

abbrev rule_body : Text → Checked Json → Checked Json
rule_body rule_type (invalid m) = invalid m
rule_body rule_type (valid params) =
    valid
      (object ((text "rule_type", some (str rule_type)) ∷ (text "rule_params", some params) ∷ []))

abbrev check_rule : Option Text → Option Text → Checked Json
check_rule (some rule_type) (some value) =
    if any (text_eq rule_type) valid_types
    then rule_body rule_type (rule_params rule_type value)
    else invalid (text "Invalid rule type")
check_rule _ _ = invalid (text "Rule type and value are required")

-- The checks of `createGuardrailRule`, up to the body of the request.
unfoldable pub rule_of : Form → Checked Json
unfolding rule_params
rule_of form = check_rule (present (form (text "rule_type"))) (present (form (text "value")))

-- The clock and the dates of the language: the present, what `new Date` makes of a text (`none` for
-- an invalid date; milliseconds), and `toISOString`.
pub record Dates : Type 0 where
  pub now : Trace → ℤ
  pub parse_date : Text → Option ℤ
  pub iso_text : ℤ → Text

abbrev pub at_most : ℤ → ℤ → Bool
at_most (pos a) (pos b) = leb a b
at_most (pos a) (negsuc b) = false
at_most (negsuc a) (pos b) = true
at_most (negsuc a) (negsuc b) = leb b a

-- `expiresAt <= new Date()`; an invalid date is not.
abbrev pub is_past : Option ℤ → ℤ → Bool
is_past none now = false
is_past (some ms) now = at_most ms now

-- `expiresAt.toISOString()`
abbrev pub iso_or_throw : Dates → Option ℤ → Result Text
iso_or_throw dates none = throw (error (text "Invalid time value"))
iso_or_throw dates (some ms) = ok (dates.iso_text ms)

pub record Key : Type 0 where
  pub public_key : Text
  pub max_spend : Float
  pub expires_at : Option ℤ
  pub allowed_contracts : List Text

abbrev new_key : Form → Text → Float → Option ℤ → Key
new_key form key spend expires_at = record {
  public_key = key;
  max_spend = spend;
  expires_at = expires_at;
  allowed_contracts = split_list (get_or (form (text "allowed_contracts")) []);
}

abbrev check_expiry : Dates → Trace → Form → Text → Float → Option Text → Checked Key
check_expiry dates t form key spend none = invalid (text "Expiration date is required")
check_expiry dates t form key spend (some s) =
    if is_past (dates.parse_date s) (dates.now t)
    then invalid (text "Expiration must be in the future")
    else valid (new_key form key spend (dates.parse_date s))

-- `s?.trim()`
abbrev trim_option : Option Text → Option Text
trim_option none = none
trim_option (some s) = some (trim s)

abbrev check_key : Dates → Trace → Form → Option Text → Checked Key
check_key dates t form none = invalid (text "Public key is required")
check_key dates t form (some key) =
    let spend = parse_float (get_or (form (text "max_spend")) []) in
    if no_amount spend
    then invalid (text "Max spend must be a positive number")
    else check_expiry dates t form key spend (present (form (text "expires_at")))

-- The checks of `createSessionKey`.
unfoldable pub key_of : Dates → Form → Trace → Checked Key
unfolding no_amount split_list parse_float trim
key_of dates form t = check_key dates t form (present (trim_option (form (text "public_key"))))

abbrev with_expiry : Key → Result Text → Result Json
with_expiry key (throw e) = throw e
with_expiry key (ok iso) = ok (
    object (
      (text "public_key", some (str key.public_key))
      ∷ (text "max_spend", some (micro_usdc key.max_spend))
      ∷ (text "allowed_contracts", some (arr (items_of key.allowed_contracts)))
      ∷ (text "expires_at", some (str iso))
      ∷ []))

-- The body of the request of `createSessionKey`.
unfoldable pub key_body : Dates → Key → Result Json
unfolding micro_usdc
key_body dates key = with_expiry key (iso_or_throw dates key.expires_at)

module _ (server : Server) where
  -- The request of an action with a body that may not be made.
  unfoldable pub send_built : Text → Text → Result Json → Io ActionResult
  unfolding fetch error_text
  send_built id path built =
      catch
        (lift built >>= λ body.
          fetch server (post_request server (agent_url server id ++ path) body) >>= λ r.
          if is_ok r then succeed server id r else failed_response r)
        (λ e. complain (error_text e))

  abbrev pub post_rule : Text → Checked Json → Io ActionResult
  post_rule id (invalid m) = complain m
  post_rule id (valid body) = send_built id (text "/rules") (ok body)

  abbrev pub post_key : Text → Dates → Checked Key → Io ActionResult
  post_key id dates (invalid m) = complain m
  post_key id dates (valid key) = send_built id (text "/session-keys") (key_body dates key)

  -- `createGuardrailRule`
  unfoldable pub create_guardrail_rule : Text → Form → Io ActionResult
  unfolding send_built rule_of
  create_guardrail_rule id form =
      verify_session server
      >> (if is_uuid id
          then if_owner server id (post_rule id (rule_of form))
          else complain (text "Invalid agent ID"))

  -- `createSessionKey`
  unfoldable pub create_session_key : Dates → Text → Form → Io ActionResult
  unfolding send_built key_of key_body
  create_session_key dates id form =
      verify_session server
      >> (if is_uuid id
          then if_owner server id (λ t. post_key id dates (key_of dates form t) t)
          else complain (text "Invalid agent ID"))
