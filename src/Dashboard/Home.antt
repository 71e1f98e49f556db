-- ===== src/Dashboard/Home.antt =====
-- dashboard/src/app/dashboard/page.tsx: the list of the user's agents, with getAgentsByOwner of
-- dashboard/src/lib/proxy.ts and dashboard/src/lib/spend-queries.ts.
pub mod Laws
pub mod Manage
mod Tests
use x402guard.Base.{
  Bool, false, Option, some, none, List, [], ◌∷◌, ◌++◌, map, get_or, or_else, if◌then◌else◌,
}
use x402guard.Js.Text.{Text, text, text_eq, is_empty}
use x402guard.Js.Json.{Json}
use x402guard.Sdk.Errors.{Thrown, error, other, message_of, Result, ok, throw, bind_result}
use x402guard.Sdk.Io.{Io, Trace, ◌>>=◌}
use x402guard.Adapters.Openclaw.{present}
use x402guard.Dashboard.Session.{Server, User, verify_session}
use x402guard.Dashboard.Agent.{Found, found, problem}

-- A row of the table of agents: what the page passes on to the card besides these is rendering.
pub record AgentRow : Type 0 where
  pub id : Text
  pub owner_address : Text

-- `AgentSpendSummary`
pub record SpendRow : Type 0 where
  pub agent_id : Text
  pub figures : Json

-- A query that the builder of the library supabase makes: the table, a column with a pattern for
-- `ilike`, and a column with whether it ascends.
pub record OwnerQuery : Type 0 where
  pub table : Text
  pub column : Text
  pub pattern : Text
  pub order : Text × Bool

-- The query of `getAgentsByOwner`.
abbrev pub owner_query : Text → OwnerQuery
owner_query owner = record {
  table = text "agents";
  column = text "owner_address";
  pattern = owner;
  order = (text "created_at", false);
}

-- The server, and what supabase answers to the query of the agents and to the call for the summaries of an
-- owner.
pub record HomeServer : Type 0 where
  pub server : Server
  pub agents_of : Trace → OwnerQuery → Found (List AgentRow)
  pub summaries_of : Trace → Text → Found (List SpendRow)

abbrev pub rows_or_throw {ℓ} : {A : Type ℓ} → Text → Found (List A) → Result (List A)
rows_or_throw message (problem m) = throw (error (message ++ m))
rows_or_throw message (found rows) = ok (get_or rows [])

-- What the page shows.
pub data HomePage : Type 0 where
  no_wallet : HomePage
  fetch_error : Text → HomePage
  no_agents : HomePage
  cards : List (AgentRow × Option SpendRow) → HomePage

-- `spendByAgent.get(id)`: the map keeps the last summary of an agent.
unfoldable pub spend_of : Text → List SpendRow → Option SpendRow
spend_of id [] = none
spend_of id (row ∷ rows) =
    let rest = spend_of id rows in or_else rest (if text_eq row.agent_id id then some row else none)

unfoldable pub cards_of : List SpendRow → List AgentRow → HomePage
unfolding spend_of
cards_of spend [] = no_agents
cards_of spend (a ∷ agents) = cards (map (λ r. (r, spend_of r.id spend)) (a ∷ agents))

-- `.catch(() => [])`
abbrev pub rows_or_none {ℓ} : {A : Type ℓ} → Result (List A) → List A
rows_or_none (ok rows) = rows
rows_or_none (throw _) = []

-- `err instanceof Error ? err.message : "Failed to fetch agents"`
abbrev pub fetch_failure : Thrown → Text
fetch_failure (other _) = text "Failed to fetch agents"
fetch_failure e = message_of e

abbrev pub home_of : Result (List AgentRow) → List SpendRow → HomePage
home_of (ok agents) spend = cards_of spend agents
home_of (throw e) spend =
    if is_empty (fetch_failure e) then no_agents else fetch_error (fetch_failure e)

module _ (h : HomeServer) where
  -- `getAgentsByOwner`
  unfoldable pub get_agents_by_owner : Trace → Text → Result (List AgentRow)
  get_agents_by_owner t owner =
      rows_or_throw (text "Failed to fetch agents: ") (h.agents_of t (owner_query owner))

  -- `fetchAgentSpendSummary`
  unfoldable pub fetch_agent_spend_summary : Trace → Text → Result (List SpendRow)
  fetch_agent_spend_summary t owner =
      rows_or_throw (text "Spend summary query failed: ") (h.summaries_of t owner)

  abbrev pub home_for : Option Text → Io HomePage
  home_for none t = (ok no_wallet, t)
  home_for (some owner) t = (
    ok (home_of (get_agents_by_owner t owner) (rows_or_none (fetch_agent_spend_summary t owner))),
    t,
  )

  -- `DashboardPage`
  unfoldable pub home_page : Io HomePage
  unfolding cards_of get_agents_by_owner fetch_agent_spend_summary message_of
  home_page = verify_session h.server >>= λ user. home_for (present user.wallet_address)
