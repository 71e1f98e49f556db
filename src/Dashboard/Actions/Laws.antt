-- ===== src/Dashboard/Actions/Laws.antt =====
-- No action changes anything for a user who may not.
use x402guard.Base.{
  suc, ◌≡◌, refl, ◌∙◌, ap, ◌⊎◌, inl, inr, Bool, not, true, false, Bool-cases, Option, some, none,
  [], ◌∷◌, ◌++◌, if◌then◌else◌,
}
use x402guard.Js.Text.{Text, text, text_eq, is_empty}
use x402guard.Js.Json.{Json, object}
use x402guard.Sdk.Errors.{Result, ok, throw, property}
use x402guard.Sdk.Io.{
  Request, Response, Reply, resolved, rejected, Io, Trace, called, pure, lift, catch, ◌>>=◌, ◌>>◌,
  is_ok, json, settle,
}
use x402guard.Sdk.Types.{opt_str}
use x402guard.Dashboard.Session.{
  Server, User, skips_auth, verify_session, user_or_redirect, dev_user,
}
use x402guard.Dashboard.Ownership.{agent_url, is_uuid, fetch, assert_agent_ownership}
use x402guard.Dashboard.Ownership.Laws.{
  MayAct, mutations, assert_agent_ownership-MayAct, assert_agent_ownership-mutations,
}
use x402guard.Dashboard.Actions.{
  delete_request, post_request, ActionResult, revoked, failed, complain, error_text,
  failed_response, revalidate, send, succeed, report_revoked, if_owner, delete_guardrail_rule,
  revoke_key, revoke_all_session_keys,
}

abbrev pub is_success : Result ActionResult → Bool
is_success (ok (failed _)) = false
is_success (ok _) = true
is_success (throw _) = false

-- The action reports no success and has sent no request that changes anything; or it has sent one,
-- the agent's id is a UUID, and the user may act on the agent.
abbrev pub Guarded : Server → Text → Trace → Result ActionResult × Trace → Type 0
Guarded server id t (r, t') =
    ((is_success r ≡ false) × (mutations t' ≡ mutations t))
    ⊎ ((is_uuid id ≡ true) × MayAct server id t × (mutations t' ≡ suc (mutations t)))

module _ (server : Server) (id : Text) where
  -- An answer that sends nothing.
  abbrev Quiet : (Response → Io ActionResult) → Type 0
  Quiet done = (r : Response) (t : Trace) → mutations (done r t).1 ≡ mutations t

  caught-mutations :
      (out : Result ActionResult × Trace)
      → mutations (catch (λ _. out) (λ e. complain (error_text e)) []).1 ≡ mutations out.1
  caught-mutations (ok a, t) = refl
  caught-mutations (throw e, t) = refl

  answered-mutations :
      (done : Response → Io ActionResult) (rep : Reply) (t : Trace)
      → Quiet done
      → mutations
          (((λ _. (settle rep, t)) >>= λ r. if is_ok r then done r else failed_response r) []).1
        ≡ mutations t
  answered-mutations done (rejected e) t h = refl
  answered-mutations done (resolved r) t h = elim (Bool-cases (is_ok r)) [
    | inl good ↦ rw good (h r t)
    | inr bad ↦ rw bad refl
  ]

  changes :
      (req : Request) (t : Trace)
      → text_eq req.method (text "GET") ≡ false
      → mutations (called req ∷ t) ≡ suc (mutations t)
  changes req t h = rw h refl

  pub send-mutations :
      (req : Request) (done : Response → Io ActionResult) (t : Trace)
      → text_eq req.method (text "GET") ≡ false
      → Quiet done
      → mutations (send server id req done t).1 ≡ suc (mutations t)
  unfolding send fetch
  send-mutations req done t h quiet =
      caught-mutations ((fetch server req >>= λ r. if is_ok r then done r else failed_response r) t)
      ∙ (answered-mutations done (server.network t req) (called req ∷ t) quiet ∙ changes req t h)

  pub succeed-Quiet : Quiet (succeed server id)
  succeed-Quiet r t = refl

  last_read :
      (m : Result (Option Json)) (t : Trace)
      → mutations ((lift m >>= λ keys. pure (revoked keys)) t).1 ≡ mutations t
  last_read (ok v) t = refl
  last_read (throw e) t = refl

  report_of :
      (m : Result Json) (t : Trace)
      → mutations
          ((lift m >>= λ answer.
              revalidate id
              >> (lift (property (text "keys_revoked") answer) >>= λ keys. pure (revoked keys)))
            t).1
        ≡ mutations t
  report_of (throw e) t = refl
  report_of (ok v) t = last_read (property (text "keys_revoked") v) _

  report_revoked-Quiet : Quiet (report_revoked server id)
  report_revoked-Quiet r t = report_of (json r) t

  -- What is done after the checks reports no success and changes nothing, or it sends one request that
  -- changes something.
  abbrev pub Settles : Io ActionResult → Type 0
  Settles next =
      (t : Trace)
      → ((is_success (next t).0 ≡ false) × (mutations (next t).1 ≡ mutations t))
        ⊎ (mutations (next t).1 ≡ suc (mutations t))

  module _ (next : Io ActionResult) (uuid : is_uuid id ≡ true) (settles : Settles next) where
    after_check :
        (t : Trace) (out : Result (Option Text) × Trace)
        → (out.0 ≡ ok none → MayAct server id t)
        → mutations out.1 ≡ mutations t
        → Guarded server id t
            (((λ _. out) >>= λ c. elim c [ some message ↦ complain message | none ↦ next ]) [])
    after_check t (throw e, u) may same = inl (refl, same)
    after_check t (ok (some m), u) may same = inl (refl, same)
    after_check t (ok none, u) may same = elim (settles u) [
      | inl (none_sent, kept) ↦ inl (none_sent, kept ∙ same)
      | inr sent ↦ inr (uuid, may refl, sent ∙ ap suc same)
    ]

    pub if_owner-Guarded : (t : Trace) → Guarded server id t (if_owner server id next t)
    if_owner-Guarded t =
        after_check t (assert_agent_ownership server id t)
          (assert_agent_ownership-MayAct server id t) (assert_agent_ownership-mutations server id t)

  module _ (body : Io ActionResult) (t : Trace) (h : Guarded server id t (body t)) where
    in_session :
        (b : Bool) (u : Option User)
        → Guarded server id t
            (((λ v. if b then (ok dev_user, v) else user_or_redirect u v) >> body) t)
    in_session true u = h
    in_session false none = inl (refl, refl)
    in_session false (some user) = h

    pub verify_session-Guarded : Guarded server id t ((verify_session server >> body) t)
    unfolding verify_session
    verify_session-Guarded = in_session (skips_auth server) (server.get_user t)

  -- The request of an action, after the checks of the two ids, the session and the owner.
  module _ (req : Request) (done : Response → Io ActionResult)
      (change : text_eq req.method (text "GET") ≡ false) (quiet : Quiet done) (m n : Text) where
    abbrev body : Io ActionResult
    body = if_owner server id (send server id req done)

    two_ids :
        (b valid : Bool)
        → ((b ≡ true) → (t : Trace) → Guarded server id t (body t))
        → (t : Trace)
        → Guarded server id t ((if b then (if valid then body else complain m) else complain n) t)
    two_ids false valid h t = inl (refl, refl)
    two_ids true false h t = inl (refl, refl)
    two_ids true true h t = h refl t

    action-Guarded :
        (valid : Bool) (t : Trace)
        → Guarded server id t (
            (verify_session server
                >> (if is_uuid id then (if valid then body else complain m) else complain n))
              t)
    action-Guarded valid t =
        verify_session-Guarded
          (if is_uuid id then (if valid then body else complain m) else complain n) t
          (two_ids (is_uuid id) valid
            (λ uuid.
              if_owner-Guarded (send server id req done) uuid
                (λ u. inr (send-mutations req done u change quiet)))
            t)

module _ (server : Server) (id : Text) (t : Trace) where
  -- Whatever the network and the session do, deleting a rule changes nothing and reports no success,
  -- or the agent's id is a UUID, the user may act on the agent, and one request that changes
  -- something was sent.
  pub delete_guardrail_rule-Guarded :
      (rule : Text) → Guarded server id t (delete_guardrail_rule server id rule t)
  unfolding delete_guardrail_rule text text_eq
  delete_guardrail_rule-Guarded rule =
      action-Guarded server id
        (delete_request server (agent_url server id ++ (text "/rules/" ++ rule)))
        (succeed server id) refl (succeed-Quiet server id) (text "Invalid rule ID")
        (text "Invalid agent ID") (is_uuid rule) t

  -- Whatever the network and the session do, revoking a session key changes nothing and
  -- reports no success, or the agent's id is a UUID, the user may act on the agent, and one request
  -- that changes something was sent.
  pub revoke_key-Guarded : (key : Text) → Guarded server id t (revoke_key server id key t)
  unfolding revoke_key text text_eq
  revoke_key-Guarded key =
      action-Guarded server id
        (delete_request server (agent_url server id ++ (text "/session-keys/" ++ key)))
        (succeed server id) refl (succeed-Quiet server id) (text "Invalid key ID")
        (text "Invalid agent ID") (is_uuid key) t

  -- Whatever the network and the session do, revoking all keys of an agent changes nothing and
  -- reports no success, or the agent's id is a UUID, the user may act on the agent, and one request
  -- that changes something was sent.
  pub revoke_all_session_keys-Guarded :
      (owner : Text) → Guarded server id t (revoke_all_session_keys server id owner t)
  unfolding revoke_all_session_keys text text_eq
  revoke_all_session_keys-Guarded owner =
      action-Guarded server id
        (post_request server (agent_url server id ++ text "/revoke-all")
          (object ((text "owner_address", opt_str (some owner)) ∷ [])))
        (report_revoked server id) refl (report_revoked-Quiet server id)
        (text "Owner address is required") (text "Invalid agent ID") (not (is_empty owner)) t
