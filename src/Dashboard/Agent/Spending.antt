-- ===== src/Dashboard/Agent/Spending.antt =====
-- dashboard/src/app/api/agent/route.ts: the tool that sums up the day's spending.
pub mod Laws
use x402guard.Base.{
  ℕ, zero, suc, ◌+◌, ◌-◌, leb, Bool, true, false, not, ◌||◌, Option, some, none, List, [], ◌∷◌,
  ◌++◌, length, any, get_or, if◌then◌else◌,
}
use x402guard.Js.Text.{Text, text, text_eq, is_empty, includes}
use x402guard.Js.Number.{ℤ, pos, negsuc, negate, decimal}
use x402guard.Js.Float.{Float, times, rounded_json}
use x402guard.Js.Json.{
  Json, null, bool, num, str, arr, obj, Items, nil, cons, Fields, end, field, get_field, set_field,
  object, to_text,
}
use x402guard.Sdk.Errors.{error, type_error, Result, ok, throw, property}
use x402guard.Sdk.Io.{Request}
use x402guard.Dashboard.Audit.{Condition, eq, gte}
use x402guard.Dashboard.Agent.{
  Question, Act, asked, Acts, Found, found, problem, AgentServer, Agent, pure, lift, ◌>>=◌,
  or_catch, get_demo_agent_id, get_proxy_url, error_object, answered, Reached, reach, json_of,
  proxy_fetch,
}
use x402guard.Dashboard.Agent.Values.{
  is_truthy, is_text, has_text, includes_text, rows_or_error, merge_fields, spread_fields,
  optional_field, select, select_amounts, rules_question,
}

abbrev pub is_daily : Option Json → Bool
is_daily (some (str s)) = text_eq s (text "MaxSpendPerDay")
is_daily _ = false

-- The first of the rules with a daily limit.
unfoldable pub daily_rule : Items → Option Json
unfolding optional_field text_eq text
daily_rule nil = none
daily_rule (cons r rs) =
    let later = daily_rule rs in
    if is_daily (optional_field (text "type") (optional_field (text "rule_type") (some r)))
    then some r
    else later

abbrev pub or_no_limit : Option Json → Json
or_no_limit none = str (text "No limit set")
or_no_limit (some null) = str (text "No limit set")
or_no_limit (some v) = v

-- `dailyLimit`
unfoldable pub daily_limit : Items → Json
unfolding daily_rule optional_field
daily_limit rules = or_no_limit (
    optional_field (text "limit")
      (optional_field (text "params") (optional_field (text "rule_type") (daily_rule rules))))

-- `z - n`
abbrev pub minus : ℤ → ℕ → ℤ
minus (pos m) n = if leb n m then pos (m - n) else negate (n - m)
minus (negsuc m) n = negsuc (m + n)

-- An amount in USDC, given in millionths, or a value that is no number.
pub data Usdc : Type 0 where
  millionths : ℤ → Usdc
  value : Json → Usdc

pub record Summary : Type 0 where
  pub today_spent : ℕ
  pub transaction_count : ℕ
  pub daily_limit : Usdc
  pub remaining : Usdc

-- What a tool answers.
pub data Output : Type 0 where
  json : Json → Output
  summary : Summary → Output

unfoldable pub sum : List ℕ → ℕ
sum [] = 0
sum (n ∷ ns) = n + sum ns

abbrev pub summary_of : List ℕ → Json → Summary
summary_of amounts (num z) = record {
  today_spent = sum amounts;
  transaction_count = length amounts;
  daily_limit = millionths z;
  remaining = millionths (minus z (sum amounts));
}
summary_of amounts v = record {
  today_spent = sum amounts;
  transaction_count = length amounts;
  daily_limit = value v;
  remaining = value (str (text "Unlimited"));
}

abbrev pub rules_found : Found Items → Items
rules_found (found (some rules)) = rules
rules_found _ = nil

module _ (s : AgentServer) where
  abbrev pub spends_question : Text → Text → Question
  spends_question id since = record {
    table = text "spend_ledger";
    columns = text "amount";
    conditions = eq (text "agent_id") id ∷ gte (text "created_at") since ∷ [];
    orders = [];
    limit = none;
  }

  abbrev pub summarize : Text → Found (List ℕ) → Agent Output
  summarize id (problem m) = pure (json (error_object m))
  summarize id (found amounts) = do
    rules ← select s (rules_question (text "rule_type") id)
    pure (summary (summary_of (get_or amounts []) (daily_limit (rules_found rules))))

  -- The tool `get_spend_summary`.
  unfoldable pub get_spend_summary : Agent Output
  unfolding get_demo_agent_id daily_limit sum
  get_spend_summary = do
    id ← lift (get_demo_agent_id s)
    since ← (λ t. (ok (s.today t), t))
    amounts ← select_amounts s (spends_question id since)
    summarize id amounts
