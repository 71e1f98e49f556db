-- ===== src/Dashboard/Agent/Post/Streams.antt =====
-- The handler of the AI agent's API has the model answer a request that is admitted.
use x402guard.Base.{◌≡◌, ap, ◌∙◌, ◌∷◌, ◌++◌, if◌then◌else◌}
use x402guard.Js.Text.{text}
use x402guard.Js.Json.{Json}
use x402guard.Sdk.Errors.{ok}
use x402guard.Adapters.Openclaw.{present}
use x402guard.Dashboard.Login.{ceil_seconds, client_ip}
use x402guard.Dashboard.Agent.{limited, Acts, AgentServer, pure, lift, ◌>>=◌}
use x402guard.Dashboard.Agent.Post.{
  AgentRequest, too_many, streamed, stream, check_body, check_key, check_agent, limit_agent,
  after_limiter, post_agent,
}
use x402guard.Dashboard.Agent.Post.Laws.{Admitted, Passes, unlimited, within}

module _ (s : AgentServer) (req : AgentRequest) (m : Json) (admitted : Admitted s req m) where
  admitted_streams :
      (u : Acts) → (check_agent s (present s.demo_agent_id) req u).0 ≡ ok (streamed m)
  unfolding lift pure ◌>>=◌
  admitted_streams u =
      ap (λ o. (check_agent s o req u).0) admitted.has_agent
      ∙ (ap (λ o. (check_key s o req u).0) admitted.has_key
          ∙ (ap (λ o. (check_body s o u).0) admitted.is_json
              ∙ (ap (λ o. (stream s o u).0) admitted.accepted
                  ∙ ap (λ r. ((lift r >>= λ messages. pure (streamed messages)) u).0)
                      admitted.converted)))

  -- The converse of what an answer needs: a request that passes the limiter and is admitted is answered
  -- by the model.
  pub post_agent_streams : (t : Acts) → Passes s req t → (post_agent s req t).0 ≡ ok (streamed m)
  unfolding post_agent lift ◌>>=◌
  post_agent_streams t (unlimited e) = ap (λ l. (after_limiter s l req t).0) e ∙ admitted_streams t
  post_agent_streams t (within ask a e answer passed) =
      let u = limited (text "agent:" ++ client_ip req.forwarded) ∷ t in
      ap (λ l. (after_limiter s l req t).0) e
      ∙ (ap (λ r. ((lift r >>= λ x. limit_agent s x req) u).0) answer
          ∙ (ap
                (λ b.
                  (if b
                    then check_agent s (present s.demo_agent_id) req u
                    else (ok (too_many (ceil_seconds a.reset (s.now u))), u)).0)
                passed
              ∙ admitted_streams u))
