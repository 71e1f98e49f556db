-- ===== src/Dashboard/Actions/Forms/Laws.antt =====
-- The actions with a form change nothing for a user who may not.
use x402guard.Base.{◌≡◌, refl, inl, inr, Bool, true, false, ◌++◌, if◌then◌else◌}
use x402guard.Js.Text.{Text, text, text_eq}
use x402guard.Js.Json.{Json}
use x402guard.Sdk.Errors.{Result, ok, throw}
use x402guard.Sdk.Io.{Io, Trace}
use x402guard.Dashboard.Session.{Server}
use x402guard.Dashboard.Ownership.{is_uuid, agent_url}
use x402guard.Dashboard.Actions.{
  delete_guardrail_rule, revoke_key, revoke_all_session_keys, send, ActionResult, post_request,
  complain, succeed, if_owner,
}
use x402guard.Dashboard.Actions.Laws.{
  delete_guardrail_rule-Guarded, revoke_key-Guarded, revoke_all_session_keys-Guarded, Guarded,
  Settles, if_owner-Guarded, verify_session-Guarded, send-mutations, succeed-Quiet,
}
use x402guard.Dashboard.Actions.Forms.{
  Form, Checked, invalid, valid, Dates, Key, rule_of, key_of, key_body, send_built, post_rule,
  post_key, create_guardrail_rule, create_session_key,
}

module _ (server : Server) (id : Text) where
  send_built-Settles :
      (path : Text) (built : Result Json) → Settles server id (send_built server id path built)
  unfolding send_built send text text_eq
  send_built-Settles path (throw e) t = inl (refl, refl)
  send_built-Settles path (ok body) t = inr (
      send-mutations server id (post_request server (agent_url server id ++ path) body)
        (succeed server id) t refl (succeed-Quiet server id))

  post_rule-Settles : (c : Checked Json) → Settles server id (post_rule server id c)
  post_rule-Settles (invalid m) t = inl (refl, refl)
  post_rule-Settles (valid body) t = send_built-Settles (text "/rules") (ok body) t

  post_key-Settles :
      (dates : Dates) (c : Checked Key) → Settles server id (post_key server id dates c)
  post_key-Settles dates (invalid m) t = inl (refl, refl)
  post_key-Settles dates (valid key) t =
      send_built-Settles (text "/session-keys") (key_body dates key) t

  if_uuid-Guarded :
      (next : Io ActionResult) (b : Bool) (t : Trace)
      → (is_uuid id ≡ b)
      → Settles server id next
      → Guarded server id t
          ((if b then if_owner server id next else complain (text "Invalid agent ID")) t)
  if_uuid-Guarded next false t e settles = inl (refl, refl)
  if_uuid-Guarded next true t e settles = if_owner-Guarded server id next e settles t

  -- Whatever the form, the network and the session, the creation of a rule reports no success and
  -- changes nothing, or the agent's id is a UUID, the user may act on the agent, and one request that
  -- changes something was sent.
  pub create_guardrail_rule-Guarded :
      (form : Form) (t : Trace) → Guarded server id t (create_guardrail_rule server id form t)
  unfolding create_guardrail_rule
  create_guardrail_rule-Guarded form t =
      verify_session-Guarded server id
        (if is_uuid id
          then if_owner server id (post_rule server id (rule_of form))
          else complain (text "Invalid agent ID"))
        t
        (if_uuid-Guarded (post_rule server id (rule_of form)) (is_uuid id) t refl
          (post_rule-Settles (rule_of form)))

  -- Whatever the form, the clock, the network and the session, the creation of a session key reports
  -- no success and changes nothing, or the agent's id is a UUID, the user may act on the agent, and
  -- one request that changes something was sent.
  pub create_session_key-Guarded :
      (dates : Dates) (form : Form) (t : Trace)
      → Guarded server id t (create_session_key server dates id form t)
  unfolding create_session_key
  create_session_key-Guarded dates form t =
      let next : Io ActionResult = λ u. post_key server id dates (key_of dates form u) u in
      verify_session-Guarded server id
        (if is_uuid id then if_owner server id next else complain (text "Invalid agent ID")) t
        (if_uuid-Guarded next (is_uuid id) t refl
          (λ u. post_key-Settles dates (key_of dates form u) u))

-- Whatever the arguments, the clock, the network and the session: each of the five actions reports no
-- success and changes nothing, or the agent's id is a UUID, the user may act on the agent, and one
-- request that changes something was sent.
pub actions-Guarded :
    (server : Server) (dates : Dates) (id rule key owner : Text) (form : Form) (t : Trace)
    → Guarded server id t (create_guardrail_rule server id form t)
      × Guarded server id t (delete_guardrail_rule server id rule t)
      × Guarded server id t (create_session_key server dates id form t)
      × Guarded server id t (revoke_key server id key t)
      × Guarded server id t (revoke_all_session_keys server id owner t)
actions-Guarded server dates id rule key owner form t = (
  create_guardrail_rule-Guarded server id form t,
  delete_guardrail_rule-Guarded server id t rule,
  create_session_key-Guarded server id dates form t,
  revoke_key-Guarded server id t key,
  revoke_all_session_keys-Guarded server id t owner,
)
