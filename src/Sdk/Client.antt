-- ===== src/Sdk/Client.antt =====
-- examples/core/src/client.ts: the typed client of the proxy's REST API.
pub mod Outcome
pub mod ErrorClasses
pub mod Paths
use x402guard.Base.{
  ℕ, Bool, true, false, not, Option, none, some, List, [], ◌∷◌, ◌++◌, ◌==◌, if◌then◌else◌,
}
use x402guard.Js.Text.{Text, text, is_empty, drop_end}
use x402guard.Js.Number.{decimal}
use x402guard.Js.Json.{Json, null, to_text}
use x402guard.Js.Uri.{encode_uri_component}
use x402guard.Sdk.Errors.{
  Thrown, type_error, x402_guard_error, guardrail_violation, proxy_unreachable, Result, ok, throw,
  property, proxy_unreachable_error, from_api_response, map_result, bind_result,
}
use x402guard.Sdk.Io.{Request, Response, Io, pure, raise, lift, catch, ◌>>=◌, ◌>>◌, is_ok, json}
use x402guard.Sdk.Retry.{RetryConfig, fetch_with_retry}
use x402guard.Sdk.Types.{
  PartialConfig, CreateAgentRequest, RuleType, CreateSessionKeyRequest, RevokeAllRequest,
  ProxyRequest, SolanaProxyRequest, create_agent_json, create_rule_json, create_session_key_json,
  revoke_all_json, proxy_request_json, solana_proxy_request_json,
}
use x402guard.Sdk.Config.{Host, Config, parse_config}

pub record Client : Type 0 where
  pub config : Config
  pub base_url : Text

abbrev pub retry_config : Client → RetryConfig
retry_config c = record {
  max_retries = c.config.max_retries;
  retry_base_ms = c.config.retry_base_ms;
}

-- `new X402GuardClient(config)`: trailing slashes are taken off the URL.
unfoldable pub new_client : Host → PartialConfig → Result Client
unfolding parse_config
new_client host partial =
    map_result
      (λ config. record { config = config; base_url = drop_end (λ c. c == b'/') config.proxy_url })
      (parse_config host partial)

-- `if (this.config.apiKey)`: an empty key is left out.
unfoldable pub api_key_headers : Option Text → List (Text × Text)
api_key_headers none = []
api_key_headers (some key) = if is_empty key then [] else (text "X-Api-Key", key) ∷ []

unfoldable pub request_of : Client → Text → Text → Option Json → Request
unfolding api_key_headers
request_of c method path body = record {
  url = c.base_url ++ (text "/api/v1" ++ path);
  method = method;
  headers =
      (text "Content-Type", text "application/json")
      ∷ (text "Accept", text "application/json")
      ∷ api_key_headers c.config.api_key;
  body = body;
}

-- `responseBody.error ?? "HTTP " + status`, as the constructor of the error prints it.
unfoldable pub error_message : ℕ → Option Json → Text
error_message status none = text "HTTP " ++ decimal status
error_message status (some null) = text "HTTP " ++ decimal status
error_message status (some v) = to_text v

-- The answer to the caller once the body is parsed.
unfoldable pub interpret : Response → Json → Result Json
unfolding error_message
interpret r body =
    if is_ok r
    then ok body
    else (if r.status == 403
        then bind_result (from_api_response body) (λ v. throw (guardrail_violation v))
        else bind_result (property (text "error") body)
            (λ e. throw (x402_guard_error (error_message r.status e) (some r.status))))

-- A `TypeError` of `fetch` becomes a `ProxyUnreachableError`; other errors are thrown again.
unfoldable pub unreachable_if_type_error {ℓ} : {A : Type ℓ} → Client → Thrown → Io A
unreachable_if_type_error c (type_error m) = raise (proxy_unreachable_error c.base_url (some m))
unreachable_if_type_error c e = raise e

-- `body.data`, `undefined` where the answer has none.
data_of : Io Json → Io (Option Json)
data_of m = do body ← m; lift (property (text "data") body)

unfoldable pub agent_path : Text → Text
agent_path id = text "/agents/" ++ encode_uri_component id

unfoldable pub session_key_path : Text → Text → Text
unfolding agent_path
session_key_path id key = agent_path id ++ (text "/session-keys/" ++ encode_uri_component key)

module _ (host : Host) (c : Client) where
  -- `request`
  unfoldable pub request : Text → Text → Option Json → Io Json
  unfolding unreachable_if_type_error interpret
  request method path body = do
    response ←
        catch (fetch_with_retry host.network (retry_config c) (request_of c method path body))
          (unreachable_if_type_error c)
    parsed ← lift (json response)
    lift (interpret response parsed)

  -- `healthCheck`; a parsed body is never `undefined`.
  unfoldable pub health_check : Io Bool
  health_check =
      catch (request (text "GET") (text "/health") none >> pure true) (unreachable_if_type_error c)

  unfoldable pub create_agent : CreateAgentRequest → Io (Option Json)
  unfolding data_of
  create_agent req = data_of (request (text "POST") (text "/agents") (some (create_agent_json req)))

  unfoldable pub get_agent : Text → Io (Option Json)
  unfolding data_of agent_path
  get_agent id = data_of (request (text "GET") (agent_path id) none)

  unfoldable pub create_rule : Text → RuleType → Io (Option Json)
  unfolding data_of agent_path
  create_rule id rule =
      data_of
        (request (text "POST") (agent_path id ++ text "/rules") (some (create_rule_json rule)))

  unfoldable pub list_rules : Text → Io (Option Json)
  unfolding data_of agent_path
  list_rules id = data_of (request (text "GET") (agent_path id ++ text "/rules") none)

  unfoldable pub create_session_key : Text → CreateSessionKeyRequest → Io (Option Json)
  unfolding data_of agent_path
  create_session_key id req = data_of (
      request (text "POST") (agent_path id ++ text "/session-keys")
        (some (create_session_key_json req)))

  unfoldable pub list_session_keys : Text → Io (Option Json)
  unfolding data_of agent_path
  list_session_keys id = data_of (request (text "GET") (agent_path id ++ text "/session-keys") none)

  unfoldable pub get_session_key : Text → Text → Io (Option Json)
  unfolding data_of session_key_path
  get_session_key id key = data_of (request (text "GET") (session_key_path id key) none)

  unfoldable pub revoke_session_key : Text → Text → Io (Unit {0})
  unfolding session_key_path
  revoke_session_key id key = request (text "DELETE") (session_key_path id key) none >> pure tt

  unfoldable pub revoke_all : Text → RevokeAllRequest → Io Json
  unfolding agent_path
  revoke_all id req =
      request (text "POST") (agent_path id ++ text "/revoke-all") (some (revoke_all_json req))

  unfoldable pub proxy_payment : ProxyRequest → Io Json
  proxy_payment req = request (text "POST") (text "/proxy") (some (proxy_request_json req))

  unfoldable pub proxy_solana_payment : SolanaProxyRequest → Io Json
  proxy_solana_payment req =
      request (text "POST") (text "/proxy/solana") (some (solana_proxy_request_json req))
