-- ===== src/Dashboard/Audit/Logs.antt =====
-- dashboard/src/app/dashboard/logs/page.tsx, with `fetchAgents` of dashboard/src/lib/audit-queries.ts:
-- the page of the audit log.
pub mod Reads
use x402guard.Base.{ℕ, Bool, none, some, List}
use x402guard.Js.Text.{Text, text}
use x402guard.Sdk.Errors.{Result, map_result}
use x402guard.Dashboard.Agent.{Found}
use x402guard.Dashboard.Home.{rows_or_throw}
use x402guard.Dashboard.Pages.{arrive, both, all_arrived}
use x402guard.Dashboard.Audit.{Filters, Page, Database, fetch_audit_log}
use x402guard.Dashboard.Audit.Table.{State, mounted}

-- `AgentOption`
pub record AgentOption : Type 0 where
  pub id : Text
  pub name : Text
  pub is_active : Bool

-- `fetchAgents`: what it makes of the answer of supabase.
unfoldable pub fetch_agents : Found (List AgentOption) → Result (List AgentOption)
fetch_agents = rows_or_throw (text "Agent list query failed: ")

-- The database as the server of the dashboard reaches it, which is by the browser's client without a
-- session; the answer about the agents; and when each of the two arrives.
pub record LogServer : Type 0 where
  pub server_db : Database
  pub agents_found : Found (List AgentOption)
  pub logs_arrival : ℕ
  pub agents_arrival : ℕ

-- `{ pageSize: 25 }`
abbrev pub first_filters : Filters
first_filters = record {
  agent_id = none;
  event_types = none;
  from_date = none;
  to_date = none;
  cursor_id = none;
  page_size = some 25;
}

-- The table as it is mounted, with the agents that it is given.
pub record LogPage : Type 0 where
  pub table : State
  pub agents : List AgentOption

abbrev pub log_page_of : Page × List AgentOption → LogPage
log_page_of (initial_data, agents) = record { table = mounted initial_data; agents = agents }

-- `AuditLogPage`
unfoldable pub audit_log_page : LogServer → Result LogPage
unfolding fetch_agents mounted fetch_audit_log
audit_log_page p = map_result log_page_of (
    all_arrived (
      both (arrive p.logs_arrival (fetch_audit_log p.server_db first_filters))
        (arrive p.agents_arrival (fetch_agents p.agents_found))))
