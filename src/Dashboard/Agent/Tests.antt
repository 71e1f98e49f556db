-- ===== src/Dashboard/Agent/Tests.antt =====
-- Runs of the AI agent's API at a concrete demo agent.
use x402guard.Base.{◌^◌, true, false, All, some, none, [], ◌∷◌, ◌++◌, ◌≡◌, refl}
use x402guard.Js.Text.{text, text_eq}
use x402guard.Js.Json.{Json, str, arr, obj, nil, cons, field, end, get_field}
use x402guard.Js.Float.{Float, finite}
use x402guard.Sdk.Errors.{ok}
use x402guard.Sdk.Errors.Messages.{spend_day}
use x402guard.Dashboard.Agent.{
  ◌>>=◌, pure, lift, AgentServer, Acts, answered, found, fetched, error_object, proxy_request,
}
use x402guard.Dashboard.Agent.Values.{optional_field}
use x402guard.Dashboard.Agent.Spending.{summary, value, sum, get_spend_summary}
use x402guard.Dashboard.Agent.Spending.Laws.{get_spend_summary_unlimited}
use x402guard.Dashboard.Agent.Payment.{payment_body, with_result, simulate_payment}
use x402guard.Dashboard.Agent.Tools.{payment, run_agent_tool}
use x402guard.Dashboard.Agent.Scope.{IsScoped, run_agent_tool-IsScoped}
use x402guard.Dashboard.Agent.Flags.{report_text, answer_text, simulate_payment_unflagged}
use x402guard.Dashboard.Agent.Post.{AgentRequest, post_agent, checked_messages}
use x402guard.Dashboard.Agent.Post.Laws.{Passes, Admitted, post_agent-Admitted}

abbrev daily_row : Json
daily_row = obj (field (text "rule_type") (str (text "MaxSpendPerDay")) end)

abbrev demo : AgentServer
demo = record {
  demo_agent_id = some (text "demo");
  proxy_url = some (text "http://p");
  anthropic_api_key = some (text "key");
  network = λ _ _. answered (record { status = 403; body = some (report_text (spend_day 7 5)) });
  select = λ _ _. found (some (cons daily_row nil));
  select_amounts = λ _ _. found (some (3 ∷ 4 ∷ []));
  limiter = some (λ _ _. ok (record { success = true; reset = 9 }));
  now = λ _. 5;
  today = λ _. text "2026-01-01T00:00:00.000Z";
  parse_json = λ _. none;
  stringify = λ _. text "{}";
  number_text = λ _. text "0.5";
  convert_messages = λ vs. ok (arr vs);
}

abbrev half : Float
half = finite false (2 ^ 1073)

abbrev chat : AgentRequest
chat = record {
  forwarded = none;
  body = some (obj (field (text "messages") (arr (cons (str (text "hi")) nil)) end));
}

post_agent-Admitted_example :
    Passes demo chat [] × Admitted demo chat (arr (cons (str (text "hi")) nil))
unfolding post_agent checked_messages get_field text text_eq lift pure ◌>>=◌
post_agent-Admitted_example =
    post_agent-Admitted demo chat (arr (cons (str (text "hi")) nil)) [] refl

run_agent_tool-IsScoped_example :
    (new : Acts) × ((run_agent_tool demo (payment half (text "http://t")) []).1 ≡ new ++ [])
    × All (IsScoped demo) new
run_agent_tool-IsScoped_example = run_agent_tool-IsScoped demo (payment half (text "http://t")) []

get_spend_summary_unlimited_example :
    (get_spend_summary demo []).0
    ≡ ok (
        summary (record {
          today_spent = 7;
          transaction_count = 2;
          daily_limit = value (str (text "No limit set"));
          remaining = value (str (text "Unlimited"));
        }))
unfolding sum optional_field get_field text text_eq
get_spend_summary_unlimited_example =
    get_spend_summary_unlimited demo [] (text "demo") (3 ∷ 4 ∷ []) (cons daily_row nil) refl refl
      refl ((text "MaxSpendPerDay", refl), tt)

simulate_payment_unflagged_example : simulate_payment demo half (text "http://t") [] ≡ (
  ok (
      with_result demo
        (error_object (answer_text (spend_day 7 5)))
        (text "Proxy response: " ++ answer_text (spend_day 7 5))),
  fetched (
        proxy_request demo
          (text "http://p")
          (text "POST")
          (text "/proxy")
          (some (payment_body demo (text "demo") half (text "http://t"))))
      ∷ [],
)
unfolding text
simulate_payment_unflagged_example =
    simulate_payment_unflagged demo half (text "http://t") [] (text "demo") (text "http://p")
      (spend_day 7 5) refl refl tt refl
