-- ===== src/Dashboard/Home/Manage.antt =====
-- The user may act on the agents that are listed.
use x402guard.Base.{
  ◌++◌, ◌||◌, get_or, ◌==◌, any, ℕ, ◌≡◌, Bool, true, false, Option, some, none, List, [], ◌∷◌, map,
  All, if◌then◌else◌,
}
use x402guard.Js.Text.{Text, text, text_eq}
use x402guard.Js.Json.{Json}
use x402guard.Sdk.Errors.{ok}
use x402guard.Sdk.Io.{Response, Reply, resolved, Trace, is_ok}
use x402guard.Dashboard.Session.{User}
use x402guard.Dashboard.Ownership.{agent_request, owner_of}
use x402guard.Dashboard.Ownership.Laws.{MayAct}
use x402guard.Dashboard.Agent.{found}
use x402guard.Dashboard.Home.{
  OwnerQuery, owner_query, AgentRow, SpendRow, HomeServer, spend_of, rows_or_none,
  fetch_agent_spend_summary,
}

module _ (h : HomeServer) (t : Trace) where
  abbrev Cards : List (AgentRow × Option SpendRow) → Text → Type 0
  Cards cs owner =
      (rows : List AgentRow) × (h.agents_of t (owner_query owner) ≡ found (some rows))
      × (cs
          ≡ map (λ r. (r, spend_of r.id (rows_or_none (fetch_agent_spend_summary h t owner)))) rows)

-- The proxy answers that the agent belongs to the owner of the row.
abbrev pub Serves : Reply → Text → Type 0
Serves rep owner =
    (r : Response) × (body : Json) × (rep ≡ resolved r)
    × (is_ok r ≡ true)
    × (r.body ≡ some body)
    × (owner_of body ≡ ok (some owner))

-- The characters that `ilike` does not take for themselves.
abbrev pub is_wildcard : ℕ → Bool
is_wildcard c = c == b'%' || c == b'_' || c == b'\\'

abbrev pub column_of : Text → AgentRow → Option Text
column_of name row =
    if text_eq name (text "owner_address")
    then some row.owner_address
    else (if text_eq name (text "id") then some row.id else none)

-- The column of a row matches the pattern.
abbrev pub Fulfils : (Text → Text → Bool) → OwnerQuery → AgentRow → Type 0
Fulfils ilike q row = (v : Text) × (column_of q.column row ≡ some v) × (ilike v q.pattern ≡ true)

-- A row that stands somewhere in a table.
abbrev pub IsIn : AgentRow → List AgentRow → Type 0
IsIn row table =
    (before : List AgentRow) × (after : List AgentRow) × (table ≡ before ++ row ∷ after)

-- The table of the agents, which supabase and the proxy both read, here at the two times `t` and `u`:
-- supabase answers a query with rows of the table that match it, where a pattern without wildcards matches
-- what is the same up to upper and lower case; and the proxy answers for each row of the table with its owner.
pub record AgentTable (h : HomeServer) (t u : Trace) : Type 0 where
  pub table : List AgentRow
  pub ilike : Text → Text → Bool
  pub ilike_plain :
      (v pattern : Text)
      → any is_wildcard pattern ≡ false
      → ilike v pattern ≡ true
      → text_eq (h.server.to_lower_case v) (h.server.to_lower_case pattern) ≡ true
  pub queried :
      (q : OwnerQuery) (rows : List AgentRow)
      → q.table ≡ text "agents"
      → h.agents_of t q ≡ found (some rows)
      → All (λ row. IsIn row table × Fulfils ilike q row) rows
  pub proxied :
      All
        (λ row. Serves (h.server.network u (agent_request h.server row.id)) row.owner_address)
        table

module _ (h : HomeServer) (t u : Trace) (data_ : AgentTable h t u) where
  -- All cards are of agents that the user may act on.
  abbrev Manageable : List (AgentRow × Option SpendRow) → Type 0
  Manageable = All (λ c. MayAct h.server c.0.id u)

  abbrev ServesRow : AgentRow → Type 0
  ServesRow row = Serves (h.server.network u (agent_request h.server row.id)) row.owner_address

  -- The wallet of a user has none of the wildcards.
  abbrev pub Plain : Option User → Type 0
  Plain none = Unit
  Plain (some user) = any is_wildcard (get_or user.wallet_address []) ≡ false
