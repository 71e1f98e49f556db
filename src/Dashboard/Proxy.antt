-- ===== src/Dashboard/Proxy.antt =====
-- dashboard/src/lib/proxy.ts: how the dashboard's pages read from the proxy.
use x402guard.Base.{ℕ, Option, some, none, [], ◌∷◌, ◌++◌, ◌&&◌, if◌then◌else◌}
use x402guard.Js.Text.{Text, text}
use x402guard.Js.Number.{decimal}
use x402guard.Js.Json.{Json, null, to_text}
use x402guard.Sdk.Errors.{error, Result, ok, throw, property, bind_result}
use x402guard.Sdk.Io.{Request, Response, Reply, resolved, rejected, is_ok, json}
use x402guard.Dashboard.Session.{Server}
use x402guard.Dashboard.Agent.Values.{is_truthy}

-- What of a page's surroundings is not fixed: the environment and the network, the text of a status,
-- and when what is read at a path has arrived.
pub record PageServer : Type 0 where
  pub server : Server
  pub status_text : Response → Text
  pub arrival : Text → ℕ

-- The request of `proxyFetch`, which has no headers of its own.
unfoldable pub page_request : PageServer → Text → Request
page_request p path = record {
  url = p.server.proxy_base ++ path;
  method = text "GET";
  headers = [];
  body = none;
}

abbrev pub proxy_error : PageServer → Text → Response → Text
proxy_error p path r =
    text "Proxy API error: "
    ++ (decimal r.status ++ b' ' ∷ (p.status_text r ++ (text " for " ++ path)))

-- What `proxyFetch` makes of an answer.
unfoldable pub answer_at : PageServer → Text → Reply → Result Json
answer_at p path (rejected e) = throw e
answer_at p path (resolved r) = if is_ok r then json r else throw (error (proxy_error p path r))

abbrev pub agent_path : Text → Text
agent_path id = text "/api/v1/agents/" ++ id

abbrev pub rules_path : Text → Text
rules_path id = agent_path id ++ text "/rules"

abbrev pub keys_path : Text → Text
keys_path id = agent_path id ++ text "/session-keys"

-- `body.error ?? "Agent " + id + " not found"`, as a text.
abbrev pub missing_text : Text → Option Json → Text
missing_text id none = text "Agent " ++ (id ++ text " not found")
missing_text id (some null) = text "Agent " ++ (id ++ text " not found")
missing_text id (some v) = to_text v

abbrev pub present_data : Text → Json → Option Json → Option Json → Result Json
present_data id body success none =
    bind_result (property (text "error") body) (λ e. throw (error (missing_text id e)))
present_data id body success (some v) =
    if is_truthy success && is_truthy (some v)
    then ok v
    else bind_result (property (text "error") body) (λ e. throw (error (missing_text id e)))

-- What `getAgent` finds in the body.
unfoldable pub agent_in : Text → Json → Result Json
unfolding is_truthy
agent_in id body =
    bind_result (property (text "success") body) λ success.
      bind_result (property (text "data") body) λ found. present_data id body success found

-- What `getAgentRules` and `getAgentSessionKeys` find in the body.
abbrev pub list_in : Json → Result (Option Json)
list_in = property (text "data")

-- `getAgent`
unfoldable pub get_agent : PageServer → Text → Reply → Result Json
unfolding answer_at agent_in
get_agent p id rep = bind_result (answer_at p (agent_path id) rep) (agent_in id)

-- `getAgentRules`
unfoldable pub get_agent_rules : PageServer → Text → Reply → Result (Option Json)
unfolding answer_at
get_agent_rules p id rep = bind_result (answer_at p (rules_path id) rep) list_in

-- `getAgentSessionKeys`
unfoldable pub get_agent_session_keys : PageServer → Text → Reply → Result (Option Json)
unfolding answer_at
get_agent_session_keys p id rep = bind_result (answer_at p (keys_path id) rep) list_in
