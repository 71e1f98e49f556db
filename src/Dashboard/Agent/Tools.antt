-- ===== src/Dashboard/Agent/Tools.antt =====
-- dashboard/src/app/api/agent/route.ts: the agent's tools.
use x402guard.Base.{ℕ, false, some, none, [], ◌∷◌, ◌++◌}
use x402guard.Js.Text.{Text, text}
use x402guard.Js.Float.{Float}
use x402guard.Js.Json.{Json, str, obj, end, field, object}
use x402guard.Sdk.Errors.{error, Result, throw}
use x402guard.Sdk.Io.{Request}
use x402guard.Dashboard.Audit.{eq}
use x402guard.Dashboard.Agent.{
  Question, AgentServer, Agent, pure, lift, ◌>>=◌, or_catch, get_demo_agent_id, get_proxy_url,
  answered, Reached, reach, json_of,
}
use x402guard.Dashboard.Agent.Values.{
  rows_or_error, merge_fields, spread_fields, select, rules_question,
}
use x402guard.Dashboard.Agent.Spending.{Output, json, get_spend_summary}
use x402guard.Dashboard.Agent.Payment.{simulate_payment}

module _ (s : AgentServer) where
  abbrev pub health_request : Text → Request
  health_request url = record {
    url = url ++ text "/api/v1/health";
    method = text "GET";
    headers = [];
    body = none;
  }

  abbrev pub health_answer : Reached → Result Json
  health_answer (answered r) = json_of s r
  health_answer _ = throw (error (text "fetch failed"))

  -- The tool `check_proxy_health`.
  unfoldable pub check_proxy_health : Agent Json
  unfolding get_proxy_url json_of merge_fields spread_fields
  check_proxy_health =
      or_catch
        (do
          url ← lift (get_proxy_url s)
          reached ← reach s (health_request url)
          answer ← lift (health_answer reached)
          pure (
              obj (
                merge_fields (field (text "status") (str (text "online")) end)
                  (spread_fields answer))))
        (pure (
          object (
            (text "status", some (str (text "offline")))
            ∷ (text "error", some (str (text "Proxy unreachable")))
            ∷ [])))

  abbrev pub agents_question : Text → Question
  agents_question id = record {
    table = text "agents";
    columns = text "id, name, owner_address, is_active, created_at";
    conditions = eq (text "id") id ∷ [];
    orders = [];
    limit = some 1;
  }

  -- The tool `list_agents`.
  unfoldable pub list_agents : Agent Json
  unfolding get_demo_agent_id
  list_agents = do
    id ← lift (get_demo_agent_id s)
    rows ← select s (agents_question id)
    pure (rows_or_error (text "agents") rows)

  -- The tool `get_guardrail_rules`.
  unfoldable pub get_guardrail_rules : Agent Json
  unfolding get_demo_agent_id
  get_guardrail_rules = do
    id ← lift (get_demo_agent_id s)
    rows ← select s (rules_question (text "id, rule_type, is_active, created_at") id)
    pure (rows_or_error (text "rules") rows)

  abbrev pub keys_question : Text → Question
  keys_question id = record {
    table = text "session_keys";
    columns =
        text
          "id, public_key, max_spend, spent, allowed_contracts, expires_at, is_revoked, created_at";
    conditions = eq (text "agent_id") id ∷ [];
    orders = (text "created_at", false) ∷ [];
    limit = some 10;
  }

  -- The tool `get_session_keys`.
  unfoldable pub get_session_keys : Agent Json
  unfolding get_demo_agent_id
  get_session_keys = do
    id ← lift (get_demo_agent_id s)
    rows ← select s (keys_question id)
    pure (rows_or_error (text "session_keys") rows)

  abbrev pub events_question : Text → ℕ → Question
  events_question id limit = record {
    table = text "audit_events";
    columns = text "id, event_type, agent_id, details, created_at";
    conditions = eq (text "agent_id") id ∷ [];
    orders = (text "created_at", false) ∷ [];
    limit = some limit;
  }

  -- The tool `get_audit_log`.
  unfoldable pub get_audit_log : ℕ → Agent Json
  unfolding get_demo_agent_id
  get_audit_log limit = do
    id ← lift (get_demo_agent_id s)
    rows ← select s (events_question id limit)
    pure (rows_or_error (text "events") rows)

-- The tools, with their arguments.
pub data AgentTool : Type 0 where
  proxy_health agents rules keys spending : AgentTool
  payment : Float → Text → AgentTool
  events : ℕ → AgentTool

-- The names of `agentTools`.
unfoldable pub tool_name : AgentTool → Text
tool_name proxy_health = text "check_proxy_health"
tool_name agents = text "list_agents"
tool_name rules = text "get_guardrail_rules"
tool_name keys = text "get_session_keys"
tool_name spending = text "get_spend_summary"
tool_name (payment amount target) = text "simulate_payment"
tool_name (events limit) = text "get_audit_log"

module _ (s : AgentServer) where
  abbrev pub as_output : Agent Json → Agent Output
  as_output m = m >>= λ v. pure (json v)

  -- `agentTools`
  unfoldable pub run_agent_tool : AgentTool → Agent Output
  unfolding check_proxy_health list_agents get_guardrail_rules get_session_keys get_spend_summary
      simulate_payment get_audit_log
  run_agent_tool proxy_health = as_output (check_proxy_health s)
  run_agent_tool agents = as_output (list_agents s)
  run_agent_tool rules = as_output (get_guardrail_rules s)
  run_agent_tool keys = as_output (get_session_keys s)
  run_agent_tool spending = get_spend_summary s
  run_agent_tool (payment amount target) = as_output (simulate_payment s amount target)
  run_agent_tool (events limit) = as_output (get_audit_log s limit)
