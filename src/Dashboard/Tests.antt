-- ===== src/Dashboard/Tests.antt =====
-- Runs of the dashboard's actions at a concrete session and agent.
use x402guard.Base.{arith, ◌||◌, if◌then◌else◌, ◌∷◌, ◌≡◌, refl, true, false, some, none, [], map}
use x402guard.Js.Text.{
  drop_end, trim, is_space, drop_while, take_while, starts_with, strip_prefix, is_digit, Text, text,
  text_eq, lower_ascii,
}
use x402guard.Js.Json.{num, object, Json, obj, str, field, end, get_field}
use x402guard.Sdk.Errors.{ok, property}
use x402guard.Sdk.Io.{Response, Network, resolved}
use x402guard.Dashboard.Actions.Forms.{
  Form, Dates, rule_of, create_guardrail_rule, create_session_key, spend_params, valid, key_of,
  key_body, send_built, split_list, no_amount, micro_usdc,
}
use x402guard.Dashboard.Actions.Forms.Laws.{actions-Guarded}
use x402guard.Dashboard.Actions.Forms.Keys.{IsSound, create_session_key-IsSound}
use x402guard.Dashboard.Actions.Forms.Amounts.{spend_params-exact}
use x402guard.Dashboard.Actions.Forms.Rules.{ValidIs, IsRule, rule_of-IsRule}
use x402guard.Js.Number.{pos, digits_value, spare_bits}
use x402guard.Js.Float.{
  parse_float, unsigned_float, decimal_float, from_fraction, bounded, unit, round_quotient, nearest,
  step_at, times, rounded_json, is_nan, at_most_zero,
}
use x402guard.Dashboard.Session.{Server, verify_session}
use x402guard.Dashboard.Ownership.{
  is_uuid, fits, assert_agent_ownership, check_owner, check_agent, fetch, owner_of, compare_owner,
}
use x402guard.Dashboard.Ownership.Laws.{MayAct, assert_agent_ownership-MayAct}
use x402guard.Dashboard.Login.{Incoming, LoginServer, post}
use x402guard.Dashboard.Login.Safety.{Granted, post-Safe}
use x402guard.Dashboard.Actions.{delete_guardrail_rule, revoke_key, revoke_all_session_keys}
use x402guard.Dashboard.Actions.Laws.{Guarded}
use x402guard.Dashboard.Actions.Buttons.{Dialog}

abbrev agent_body : Json
agent_body =
    obj (field (text "data") (obj (field (text "owner_address") (str (text "0xAB")) end)) end)

abbrev agent_answer : Response
agent_answer = record { status = 200; retry_after = none; body = some agent_body }

abbrev owned : Network
owned _ _ = resolved agent_answer

abbrev server : Server
server = record {
  proxy_base = text "http://p";
  management_api_key = text "k";
  is_dev = false;
  dev_skip_auth = true;
  get_user = λ _. some (record { wallet_address = some (text "0xab") });
  to_lower_case = map lower_ascii;
  network = owned;
}

abbrev agent : Text
agent = text "0f8fad5b-d9cb-469f-a165-70867728950e"

assert_agent_ownership-MayAct_example : MayAct server agent []
unfolding assert_agent_ownership verify_session check_owner check_agent fetch owner_of compare_owner
    property get_field text text_eq lower_ascii
assert_agent_ownership-MayAct_example = assert_agent_ownership-MayAct server agent [] refl

abbrev login : Incoming
login = record {
  origin = some (text "https://site.evil.com");
  host = some (text "site");
  forwarded = none;
  nonce_cookie = some (text "n");
  body = some (
      obj
        (field (text "message") (str (text "m")) (field (text "signature") (str (text "s")) end)));
}

abbrev login_server : LoginServer
login_server = record {
  wallet_secret = some (text "secret");
  now = λ _. 0;
  limiter = none;
  verify_message = λ m s n. ok (record { success = true; chain_id = 8453; address = text "0xAB" });
  hmac_hex = λ secret wallet. wallet;
  to_lower_case = map lower_ascii;
  sign_in = λ t e p. ok (record { failure = none; session = some (str (text "token")) });
  create_user = λ t e p w. ok none;
}

post-Safe_example : Granted login_server login [] (post login_server login [])
post-Safe_example = post-Safe login_server login []

-- A form that has what all actions ask for.
abbrev filled : Form
filled k =
    if text_eq k (text "rule_type")
    then some (text "MaxSpendPerDay")
    else (if text_eq k (text "value") || text_eq k (text "max_spend")
        then some (text "2.5")
        else (if text_eq k (text "public_key")
            then some (text " 0xcd ")
            else (if text_eq k (text "expires_at") then some (text "2026") else none)))

abbrev dates : Dates
dates = record { now = λ _. pos 5; parse_date = λ _. some (pos 9); iso_text = λ _. text "iso" }

rule_of-IsRule_example : ValidIs IsRule (rule_of filled)
rule_of-IsRule_example = rule_of-IsRule filled

create_session_key-IsSound_example : IsSound dates filled (assert_agent_ownership server agent []).1
unfolding create_session_key key_of key_body send_built split_list no_amount micro_usdc is_uuid fits
    fetch assert_agent_ownership verify_session check_owner check_agent owner_of compare_owner
    property get_field text text_eq lower_ascii is_digit parse_float unsigned_float decimal_float
    from_fraction bounded unit round_quotient nearest step_at spare_bits times rounded_json
    digits_value take_while drop_while starts_with strip_prefix is_space is_nan at_most_zero trim
    drop_end
create_session_key-IsSound_example = create_session_key-IsSound server dates agent filled [] refl

spend_params-exact_example :
    spend_params (parse_float (text "0.29"))
    ≡ valid (object ((text "limit", some (num (pos 290000))) ∷ []))
unfolding digits_value is_digit text
spend_params-exact_example =
    spend_params-exact b'0' [] (text "29") (refl, tt) (refl, (refl, tt)) (omega arith) (omega arith)
      (omega arith)

actions-Guarded_example :
    Guarded server agent [] (create_guardrail_rule server agent filled [])
    × Guarded server agent [] (delete_guardrail_rule server agent agent [])
    × Guarded server agent [] (create_session_key server dates agent filled [])
    × Guarded server agent [] (revoke_key server agent agent [])
    × Guarded server agent [] (revoke_all_session_keys server agent (text "0xab") [])
actions-Guarded_example = actions-Guarded server dates agent agent agent (text "0xab") filled []

abbrev opened : Dialog
opened = record { is_open = true; selected_type = []; state = none; toasts = [] }
