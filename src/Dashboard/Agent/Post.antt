-- ===== src/Dashboard/Agent/Post.antt =====
-- dashboard/src/app/api/agent/route.ts: the handler of the AI agent's API.
pub mod Laws
pub mod Streams
use x402guard.Base.{
  ◌⊎◌, ℕ, Bool, true, false, ◌&&◌, leb, ltb, Option, some, none, List, [], ◌∷◌, ◌++◌, if◌then◌else◌,
}
use x402guard.Js.Text.{Text, text}
use x402guard.Js.Number.{ℤ}
use x402guard.Js.Json.{Json, null, bool, num, str, arr, obj, Items, get_field, count_items}
use x402guard.Sdk.Errors.{Result, ok, throw}
use x402guard.Adapters.Openclaw.{present}
use x402guard.Dashboard.Login.{LimitAnswer, ceil_seconds, client_ip}
use x402guard.Dashboard.Agent.{limited, Acts, AgentServer, Agent, pure, lift, ◌>>=◌}

-- A request: the header `x-forwarded-for`, and the body where it is JSON.
pub record AgentRequest : Type 0 where
  pub forwarded : Option Text
  pub body : Option Json

-- The response: an error with its status (the details of the library zod are left out), the answer
-- 429 with its `Retry-After`, or the stream of the model's answers to the messages.
pub data AgentAnswer : Type 0 where
  refused : ℕ → Text → AgentAnswer
  too_many : ℤ → AgentAnswer
  streamed : Json → AgentAnswer

abbrev pub messages_in : Option Json → Option Items
messages_in (some (arr vs)) =
    if leb 1 (count_items vs) && leb (count_items vs) 20 then some vs else none
messages_in _ = none

-- `RequestBodySchema`: the messages of a body that it accepts.
unfoldable pub checked_messages : Json → Option Items
unfolding get_field
checked_messages (obj fs) = messages_in (get_field (text "messages") fs)
checked_messages _ = none

module _ (s : AgentServer) where
  abbrev pub stream : Option Items → Agent AgentAnswer
  stream none = pure (refused 400 (text "Invalid request"))
  stream (some vs) = lift (s.convert_messages vs) >>= λ messages. pure (streamed messages)

  abbrev pub check_body : Option Json → Agent AgentAnswer
  check_body none = pure (refused 400 (text "Invalid JSON body"))
  check_body (some body) = stream (checked_messages body)

  abbrev pub check_key : Option Text → AgentRequest → Agent AgentAnswer
  check_key none req = pure (refused 500 (text "ANTHROPIC_API_KEY not configured"))
  check_key (some _) req = check_body req.body

  abbrev pub check_agent : Option Text → AgentRequest → Agent AgentAnswer
  check_agent none req = pure (refused 503 (text "Agent demo is not configured"))
  check_agent (some _) req = check_key (present s.anthropic_api_key) req

  abbrev pub limit_agent : LimitAnswer → AgentRequest → Agent AgentAnswer
  limit_agent a req t =
      if a.success
      then check_agent (present s.demo_agent_id) req t
      else (ok (too_many (ceil_seconds a.reset (s.now t))), t)

  abbrev pub after_limiter :
      Option (Acts → Text → Result LimitAnswer) → AgentRequest → Agent AgentAnswer
  after_limiter none req t = check_agent (present s.demo_agent_id) req t
  after_limiter (some ask) req t =
      let id = text "agent:" ++ client_ip req.forwarded in
      (lift (ask t id) >>= λ a. limit_agent a req) (limited id ∷ t)

  -- `POST`
  unfoldable pub post_agent : AgentRequest → Agent AgentAnswer
  unfolding checked_messages client_ip ceil_seconds
  post_agent req = after_limiter s.limiter req
