-- ===== src/Dashboard/Audit/Logs/Reads.antt =====
-- What can be read on the page of the audit log.
use x402guard.Base.{
  false, ℕ, ltb, not, ◌&&◌, ◌≤◌, ◌≡◌, refl, ap, ◌∙◌, Bool, true, All, some, List, [], ◌∷◌, length,
  keep,
}
use x402guard.Js.Text.{is_empty}
use x402guard.Sdk.Errors.{ok, map_result}
use x402guard.Dashboard.Agent.{found}
use x402guard.Dashboard.Pages.{arrive, both, all_arrived}
use x402guard.Dashboard.Audit.{Row, Filters, Database, filter_conditions}
use x402guard.Dashboard.Audit.Rest.{Service, Serves, all_hold}
use x402guard.Dashboard.Audit.Pages.{first_page, selected, fetch_first}
use x402guard.Dashboard.Audit.Table.{mounted, next_enabled, change, read_on}
use x402guard.Dashboard.Audit.Table.Reached.{Reached, reads_every}
use x402guard.Dashboard.Audit.Logs.{
  AgentOption, LogServer, LogPage, first_filters, log_page_of, fetch_agents, audit_log_page,
}

-- The filters that the page starts with select all rows.
selected_first : (sv : Service) (rows : List Row) → selected sv first_filters rows ≡ rows
unfolding keep filter_conditions all_hold
selected_first sv [] = refl
selected_first sv (r ∷ rows) = ap (λ l. r ∷ l) (selected_first sv rows)

and-true : (b : Bool) → (b && not false) ≡ b
and-true true = refl
and-true false = refl

-- The server of the dashboard, without a session, sees some rows of the audit log (none, where the policies
-- of docker/init.sql hold), and the visitor's browser sees others. Where the service answers both from these
-- rows, and the query for the agents answers: the page opens with these agents and the newest 25 of the
-- rows that the server sees, and Next can be pressed exactly if the server sees more. Once the visitor has
-- chosen filters, by whatever controls, that choice and then Next, for as long as it can be pressed, read
-- what the filters select of the rows that the browser sees, none of which has an empty id: every row once,
-- the newest first.
pub audit_log_page_reads :
    (sv : Service) (seen rows : List Row) (p : LogServer) (browser_db : Database)
    (agents : List AgentOption) (f : Filters) (fuel : ℕ)
    → Serves sv seen p.server_db
    → Serves sv rows browser_db
    → p.agents_found ≡ found (some agents)
    → Reached f
    → All (λ r. is_empty r.id ≡ false) (selected sv f rows)
    → length (selected sv f rows) ≤ fuel
    → (page : LogPage) × (audit_log_page p ≡ ok page)
      × (page.agents ≡ agents)
      × (page.table.page ≡ first_page 25 seen)
      × (next_enabled page.table ≡ ltb 25 (length seen))
      × (read_on fuel browser_db (change browser_db f page.table) ≡ selected sv f rows)
unfolding audit_log_page fetch_agents mounted next_enabled
audit_log_page_reads sv seen rows p browser_db agents f fuel served serves answered reached ids
      enough =
    let start = mounted (first_page 25 (selected sv first_filters seen)) in
    let all_seen = selected_first sv seen in
    (
      log_page_of (first_page 25 (selected sv first_filters seen), agents),
      (λ i. map_result log_page_of (
          all_arrived (
            both
              (arrive p.logs_arrival (fetch_first sv seen p.server_db served first_filters refl i))
              (arrive p.agents_arrival (fetch_agents (answered i)))))),
      refl,
      ap (first_page 25) all_seen,
      and-true (ltb 25 (length (selected sv first_filters seen)))
          ∙ ap (λ l. ltb 25 (length l)) all_seen,
      reads_every sv rows browser_db f start fuel serves reached ids refl enough,
    )
