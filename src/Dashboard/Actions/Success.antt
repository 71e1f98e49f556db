-- ===== src/Dashboard/Actions/Success.antt =====
-- What an action does for a user who may act on the agent.
use x402guard.Base.{
  ◌≡◌, refl, ◌∙◌, ap, Bool, true, false, Option, some, none, [], ◌∷◌, ◌++◌, if◌then◌else◌,
}
use x402guard.Js.Text.{Text, text}
use x402guard.Sdk.Errors.{ok}
use x402guard.Sdk.Io.{
  Request, Response, resolved, Trace, called, revalidated, catch, ◌>>=◌, ◌>>◌, is_ok, settle,
}
use x402guard.Dashboard.Session.{
  Server, User, skips_auth, dev_user, user_or_redirect, verify_session,
}
use x402guard.Dashboard.Ownership.{is_uuid, agent_url, fetch, assert_agent_ownership}
use x402guard.Dashboard.Ownership.Laws.{MayAct, unchecked, owns}
use x402guard.Dashboard.Ownership.Converse.{assert_agent_ownership_passes}
use x402guard.Dashboard.Actions.{
  success, complain, error_text, failed_response, send, succeed, if_owner, delete_request,
  delete_guardrail_rule,
}

module _ (server : Server) (id : Text) (t : Trace) where
  session_of :
      (b : Bool) (o : Option User) (user : User)
      → o ≡ some user
      → (u : User) × ((if b then (ok dev_user, t) else user_or_redirect o t) ≡ (ok u, t))
  session_of true o user e = (dev_user, refl)
  session_of false o user e = (user, ap (λ x. user_or_redirect x t) e)

  MayAct-session : MayAct server id t → (u : User) × (verify_session server t ≡ (ok u, t))
  unfolding verify_session
  MayAct-session (unchecked skip) = (dev_user, rw skip refl)
  MayAct-session (owns user wallet g has filled own) =
      session_of (skips_auth server) (server.get_user t) user g

  module _ (req : Request) (r : Response) (u : Trace) where
    send_accepted :
        server.network u req ≡ resolved r
        → is_ok r ≡ true
        → send server id req (succeed server id) u
          ≡ (ok success, revalidated (text "/dashboard/agents/" ++ id) ∷ called req ∷ u)
    unfolding send fetch
    send_accepted answer good =
        ap
          (λ rep.
            catch
              ((λ _. (settle rep, called req ∷ u)) >>= λ x.
                if is_ok x then succeed server id x else failed_response x)
              (λ e. complain (error_text e)) [])
          answer
        ∙ ap
            (λ b.
              catch (λ _. (if b then succeed server id r else failed_response r) (called req ∷ u))
                (λ e. complain (error_text e)) [])
            good

  -- Deleting a rule succeeds for a user who may act on the agent, if both ids are UUIDs and the proxy
  -- accepts the request: after the requests of the ownership check, the deletion is sent and the
  -- agent's page is revalidated.
  pub delete_guardrail_rule_accepted :
      (rule : Text) (r : Response)
      → is_uuid id ≡ true
      → is_uuid rule ≡ true
      → MayAct server id t
      → let u = (assert_agent_ownership server id t).1 in
        let req = delete_request server (agent_url server id ++ (text "/rules/" ++ rule)) in
        server.network u req ≡ resolved r
        → is_ok r ≡ true
        → delete_guardrail_rule server id rule t
          ≡ (ok success, revalidated (text "/dashboard/agents/" ++ id) ∷ called req ∷ u)
  unfolding delete_guardrail_rule
  delete_guardrail_rule_accepted rule r uuid uuid' may answer good =
      let u = (assert_agent_ownership server id t).1 in
      let req = delete_request server (agent_url server id ++ (text "/rules/" ++ rule)) in
      let next = send server id req (succeed server id) in
      let (user, session) = MayAct-session may in
      ap
        (λ out.
          ((λ _. out)
              >> (if is_uuid id
                  then (if is_uuid rule
                      then if_owner server id next
                      else complain (text "Invalid rule ID"))
                  else complain (text "Invalid agent ID")))
            [])
        session
      ∙ ((λ i.
            (if uuid i
                then (if uuid' i
                    then if_owner server id next
                    else complain (text "Invalid rule ID"))
                else complain (text "Invalid agent ID"))
              t)
          ∙ ((λ i.
                ((λ _. (assert_agent_ownership_passes server id t may i, u)) >>= λ c. elim c [
                  | some message ↦ complain message
                  | none ↦ next
                ])
                  [])
              ∙ send_accepted req r u answer good))
