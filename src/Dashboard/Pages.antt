-- ===== src/Dashboard/Pages.antt =====
-- dashboard/src/app/dashboard/agents/[agentId]/page.tsx: the page of an agent.
pub mod Parts
pub mod Laws
pub mod Refused
mod Tests
use x402guard.Base.{
  ℕ, ltb, Bool, true, false, Option, some, none, List, [], ◌∷◌, ◌++◌, if◌then◌else◌,
}
use x402guard.Js.Text.{Text, text, includes}
use x402guard.Js.Json.{Json, null}
use x402guard.Sdk.Errors.{Thrown, type_error, other, message_of, Result, ok, throw, bind_result}
use x402guard.Sdk.Io.{Request, Reply, called, Io, Trace, ◌>>◌}
use x402guard.Dashboard.Session.{verify_session}
use x402guard.Dashboard.Proxy.{
  PageServer, page_request, agent_path, rules_path, keys_path, get_agent, get_agent_rules,
  get_agent_session_keys,
}

-- What the visitor sees: the agent with its rules and session keys, the page for what is not found, or
-- a message.
pub data AgentPage : Type 0 where
  shown : Json → Json → Json → AgentPage
  not_found : AgentPage
  failed : Text → AgentPage

-- The exception that arrives first.
pub data Arrived {ℓ} (A : Type ℓ) : Type ℓ where
  late : A → Arrived A
  early : ℕ → Thrown → Arrived A

abbrev pub arrive {ℓ} : {A : Type ℓ} → ℕ → Result A → Arrived A
arrive n (ok a) = late a
arrive n (throw e) = early n e

-- Two promises of a `Promise.all`.
abbrev pub both {ℓ κ} : {A : Type ℓ} {B : Type κ} → Arrived A → Arrived B → Arrived (A × B)
both (late a) (late b) = late (a, b)
both (late a) (early m e) = early m e
both (early n d) (late b) = early n d
both (early n d) (early m e) = if ltb m n then early m e else early n d

abbrev pub all_arrived {ℓ} : {A : Type ℓ} → Arrived A → Result A
all_arrived (late a) = ok a
all_arrived (early _ e) = throw e

-- The list that is rendered with its `length`.
abbrev pub listed : Option Json → Result Json
listed none = throw (type_error (text "Cannot read properties of undefined (reading 'length')"))
listed (some null) = throw (type_error (text "Cannot read properties of null (reading 'length')"))
listed (some v) = ok v

-- `err instanceof Error ? err.message : "Unknown error"`
abbrev pub failure_text : Thrown → Text
failure_text (other _) = text "Unknown error"
failure_text e = message_of e

-- The block `catch`.
unfoldable pub page_of_failure : Text → AgentPage
page_of_failure message = if includes message (text "404") then not_found else failed message

abbrev pub page_of : Result AgentPage → AgentPage
page_of (ok page) = page
page_of (throw e) = page_of_failure (failure_text e)

abbrev pub render : Json × (Option Json × Option Json) → Result AgentPage
render (agent, (rules, keys)) =
    bind_result (listed rules) λ rs. bind_result (listed keys) λ ks. ok (shown agent rs ks)

module _ (p : PageServer) where
  abbrev pub loaded : Text → Reply → Reply → Reply → Result (Json × (Option Json × Option Json))
  loaded id a r k = all_arrived (
      both (arrive (p.arrival (agent_path id)) (get_agent p id a)) (
        both (arrive (p.arrival (rules_path id)) (get_agent_rules p id r))
          (arrive (p.arrival (keys_path id)) (get_agent_session_keys p id k))))

  -- The three requests, which are sent at once.
  unfoldable pub load : Text → Io AgentPage
  unfolding page_request get_agent get_agent_rules get_agent_session_keys page_of_failure
  load id t =
      let ask_agent = page_request p (agent_path id) in
      let ask_rules = page_request p (rules_path id) in
      let ask_keys = page_request p (keys_path id) in
      let t1 = called ask_agent ∷ t in
      let t2 = called ask_rules ∷ t1 in
      (
        ok (
            page_of (
              bind_result
                (loaded id (p.server.network t ask_agent) (p.server.network t1 ask_rules)
                  (p.server.network t2 ask_keys))
                render)),
        called ask_keys ∷ t2,
      )

  -- `AgentDetailPage`; what the parts of the page make of the data is rendering.
  unfoldable pub agent_page : Text → Io AgentPage
  unfolding load
  agent_page id = verify_session p.server >> load id
