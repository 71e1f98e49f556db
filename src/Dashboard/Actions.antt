-- ===== src/Dashboard/Actions.antt =====
-- dashboard/src/app/dashboard/actions.ts: the server actions that change rules and session keys.
pub mod Laws
pub mod Success
pub mod Forms
pub mod Buttons
use x402guard.Base.{Bool, not, true, false, Option, some, none, List, [], ◌∷◌, ◌++◌, if◌then◌else◌}
use x402guard.Js.Text.{Text, text, is_empty}
use x402guard.Js.Number.{decimal}
use x402guard.Js.Json.{Json, Fields, null, str, obj, end, object}
use x402guard.Sdk.Errors.{Thrown, other, message_of, Result, ok, throw, property, map_result}
use x402guard.Sdk.Io.{
  Request, Response, Io, Trace, revalidated, pure, lift, catch, ◌>>=◌, ◌>>◌, is_ok, json,
}
use x402guard.Sdk.Types.{opt_str}
use x402guard.Dashboard.Session.{Server, User, verify_session}
use x402guard.Dashboard.Ownership.{
  is_uuid, api_headers, api_headers_no_body, fetch, agent_url, assert_agent_ownership,
}

-- `ActionResult`; an error is whatever value the proxy gave.
pub data ActionResult : Type 0 where
  success : ActionResult
  revoked : Option Json → ActionResult
  failed : Json → ActionResult

abbrev pub complain : Text → Io ActionResult
complain message = pure (failed (str message))

-- `res.json().catch(() => ({}))`
abbrev body_or_empty : Response → Json
body_or_empty r = elim (json r) [ ok v ↦ v | throw _ ↦ obj end ]

-- `body.error ?? "Failed: " + status`
abbrev failure_of : Response → Option Json → ActionResult
failure_of r none = failed (str (text "Failed: " ++ decimal r.status))
failure_of r (some null) = failed (str (text "Failed: " ++ decimal r.status))
failure_of r (some v) = failed v

abbrev pub failed_response : Response → Io ActionResult
failed_response r = lift (map_result (failure_of r) (property (text "error") (body_or_empty r)))

abbrev pub revalidate : Text → Io (Unit {0})
revalidate id t = (ok tt, revalidated (text "/dashboard/agents/" ++ id) ∷ t)

-- `err instanceof Error ? err.message : "Network error"`
unfoldable pub error_text : Thrown → Text
unfolding message_of
error_text (other s) = text "Network error"
error_text e = message_of e

module _ (server : Server) where
  -- The request of an action, and what it answers: the page is revalidated after a success, which
  -- `done` turns into a result.
  unfoldable pub send : Text → Request → (Response → Io ActionResult) → Io ActionResult
  unfolding fetch error_text
  send id req done =
      catch (fetch server req >>= λ r. if is_ok r then done r else failed_response r)
        (λ e. complain (error_text e))

  abbrev pub succeed : Text → Response → Io ActionResult
  succeed id r = revalidate id >> pure success

  abbrev pub report_revoked : Text → Response → Io ActionResult
  report_revoked id r = do
    answer ← lift (json r)
    revalidate id
    keys ← lift (property (text "keys_revoked") answer)
    pure (revoked keys)

  -- An action goes on after the check of ownership, or answers with its complaint.
  abbrev pub if_owner : Text → Io ActionResult → Io ActionResult
  if_owner id next = assert_agent_ownership server id >>= λ c. elim c [
    | some message ↦ complain message
    | none ↦ next
  ]

  abbrev pub delete_request : Text → Request
  delete_request url = record {
    url = url;
    method = text "DELETE";
    headers = api_headers_no_body server;
    body = none;
  }

  abbrev pub post_request : Text → Json → Request
  post_request url body = record {
    url = url;
    method = text "POST";
    headers = api_headers server;
    body = some body;
  }

  -- `deleteGuardrailRule`
  unfoldable pub delete_guardrail_rule : Text → Text → Io ActionResult
  unfolding send
  delete_guardrail_rule id rule_id =
      verify_session server
      >> (if is_uuid id
          then (if is_uuid rule_id
              then if_owner id (
                  send id (delete_request (agent_url server id ++ (text "/rules/" ++ rule_id)))
                    (succeed id))
              else complain (text "Invalid rule ID"))
          else complain (text "Invalid agent ID"))

  -- `revokeSessionKey`
  unfoldable pub revoke_key : Text → Text → Io ActionResult
  unfolding send
  revoke_key id key_id =
      verify_session server
      >> (if is_uuid id
          then (if is_uuid key_id
              then if_owner id (
                  send id
                    (delete_request (agent_url server id ++ (text "/session-keys/" ++ key_id)))
                    (succeed id))
              else complain (text "Invalid key ID"))
          else complain (text "Invalid agent ID"))

  -- `revokeAllSessionKeys`
  unfoldable pub revoke_all_session_keys : Text → Text → Io ActionResult
  unfolding send
  revoke_all_session_keys id owner =
      verify_session server
      >> (if is_uuid id
          then (if not (is_empty owner)
              then if_owner id (
                  send id
                    (post_request (agent_url server id ++ text "/revoke-all")
                      (object ((text "owner_address", opt_str (some owner)) ∷ [])))
                    (report_revoked id))
              else complain (text "Owner address is required"))
          else complain (text "Invalid agent ID"))
