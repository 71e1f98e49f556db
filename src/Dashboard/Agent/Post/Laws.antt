-- ===== src/Dashboard/Agent/Post/Laws.antt =====
-- When the handler of the AI agent's API has the model answer.
use mathlib.Core.Option.{some-injective}
use x402guard.Base.{
  leb, ◌&&◌, ◌≤◌, subst, arith, Bool, true, false, Option, some, none, ◌∷◌, ◌++◌, ◌≡◌, refl,
  if◌then◌else◌,
}
use x402guard.Js.Text.{Text, text}
use x402guard.Js.Number.{ℤ}
use x402guard.Js.Json.{Json, null, bool, num, str, arr, obj, Items, count_items, get_field}
use x402guard.Sdk.Errors.{Result, ok, throw}
use x402guard.Adapters.Openclaw.{present}
use x402guard.Dashboard.Login.{LimitAnswer, ceil_seconds, client_ip}
use x402guard.Dashboard.Agent.{limited, Acts, AgentServer, pure, lift, ◌>>=◌}
use x402guard.Dashboard.Agent.Post.{
  AgentRequest, AgentAnswer, too_many, streamed, checked_messages, messages_in, stream, check_body,
  check_key, check_agent, limit_agent, after_limiter, post_agent,
}

-- What a request needs for an answer of the model, after the limiter.
pub record Admitted (s : AgentServer) (req : AgentRequest) (m : Json) : Type 0 where
  pub agent_id : Text
  pub has_agent : present s.demo_agent_id ≡ some agent_id
  pub key : Text
  pub has_key : present s.anthropic_api_key ≡ some key
  pub body : Json
  pub is_json : req.body ≡ some body
  pub messages : Items
  pub accepted : checked_messages body ≡ some messages
  pub some_messages : 1 ≤ count_items messages
  pub at_most_20 : count_items messages ≤ 20
  pub converted : s.convert_messages messages ≡ ok m

counted :
    (o : Option Json) (vs : Items)
    → messages_in o ≡ some vs
    → (1 ≤ count_items vs) × (count_items vs ≤ 20)
counted none vs h = cc
counted (some null) vs h = cc
counted (some (bool b)) vs h = cc
counted (some (num z)) vs h = cc
counted (some (str t)) vs h = cc
counted (some (obj fs)) vs h = cc
counted (some (arr ws)) vs h =
    in_range ws vs (leb 1 (count_items ws) && leb (count_items ws) 20) refl h
  where
    in_range :
        (ws vs : Items) (b : Bool)
        → (leb 1 (count_items ws) && leb (count_items ws) 20) ≡ b
        → (if b then some ws else none) ≡ some vs
        → (1 ≤ count_items vs) × (count_items vs ≤ 20)
    in_range ws vs false e g = cc
    in_range ws vs true e g =
        subst (λ x. (1 ≤ count_items x) × (count_items x ≤ 20)) (some-injective _ _ g)
          (ground arith, ground arith)

checked-counted :
    (body : Json) (vs : Items)
    → checked_messages body ≡ some vs
    → (1 ≤ count_items vs) × (count_items vs ≤ 20)
unfolding checked_messages
checked-counted (obj fs) vs h = counted (get_field (text "messages") fs) vs h
checked-counted null vs h = cc
checked-counted (bool b) vs h = cc
checked-counted (num z) vs h = cc
checked-counted (str t) vs h = cc
checked-counted (arr ws) vs h = cc

-- The limiter is not configured, or it lets the request pass.
pub data Passes (s : AgentServer) (req : AgentRequest) (t : Acts) : Type 0 where
  unlimited : s.limiter ≡ none → Passes s req t
  within :
      (ask : Acts → Text → Result LimitAnswer) (a : LimitAnswer)
      → s.limiter ≡ some ask
      → ask t (text "agent:" ++ client_ip req.forwarded) ≡ ok a
      → a.success ≡ true
      → Passes s req t

module _ (s : AgentServer) (req : AgentRequest) (m : Json) where
  abbrev Streams : Result AgentAnswer → Type 0
  Streams r = r ≡ ok (streamed m)

  Streams-converted :
      (o : Result Json) (u : Acts)
      → Streams ((lift o >>= λ messages. pure (streamed messages)) u).0
      → o ≡ ok m
  unfolding lift pure ◌>>=◌
  Streams-converted (throw e) u h = cc
  Streams-converted (ok v) u h = cc

  Streams-messages :
      (o : Option Items) (u : Acts)
      → Streams (stream s o u).0
      → (vs : Items) × (o ≡ some vs) × (s.convert_messages vs ≡ ok m)
  unfolding pure
  Streams-messages none u h = cc
  Streams-messages (some vs) u h = (vs, refl, Streams-converted (s.convert_messages vs) u h)

  Streams-body :
      (o : Option Json) (u : Acts)
      → Streams (check_body s o u).0
      → (body : Json) × (vs : Items) × (o ≡ some body)
        × (checked_messages body ≡ some vs)
        × (s.convert_messages vs ≡ ok m)
  unfolding pure
  Streams-body none u h = cc
  Streams-body (some body) u h =
      let (vs, e, k) = Streams-messages (checked_messages body) u h in (body, vs, refl, e, k)

  Streams-key :
      (o : Option Text) (u : Acts)
      → Streams (check_key s o req u).0
      → (key : Text) × (o ≡ some key) × Streams (check_body s req.body u).0
  unfolding pure
  Streams-key none u h = cc
  Streams-key (some key) u h = (key, refl, h)

  Streams-agent :
      (o : Option Text) (u : Acts)
      → Streams (check_agent s o req u).0
      → (id : Text) × (o ≡ some id) × Streams (check_key s (present s.anthropic_api_key) req u).0
  unfolding pure
  Streams-agent none u h = cc
  Streams-agent (some id) u h = (id, refl, h)

  Streams-Admitted :
      (u : Acts) → Streams (check_agent s (present s.demo_agent_id) req u).0 → Admitted s req m
  Streams-Admitted u h =
      let (id, has_agent, g) = Streams-agent (present s.demo_agent_id) u h in
      let (key, has_key, k) = Streams-key (present s.anthropic_api_key) u g in
      let (body, vs, is_json, accepted, converted) = Streams-body req.body u k in
      record {
        agent_id = id;
        has_agent = has_agent;
        key = key;
        has_key = has_key;
        body = body;
        is_json = is_json;
        messages = vs;
        some_messages = (checked-counted body vs accepted).0;
        at_most_20 = (checked-counted body vs accepted).1;
        accepted = accepted;
        converted = converted;
      }

  Streams-let_pass :
      (b : Bool) (r : Result AgentAnswer × Acts) (w : ℤ) (u : Acts)
      → Streams (if b then r else (ok (too_many w), u)).0
      → (b ≡ true) × Streams r.0
  Streams-let_pass true r w u h = (refl, h)
  Streams-let_pass false r w u h = cc

  Streams-answer :
      (o : Result LimitAnswer) (u : Acts)
      → Streams ((lift o >>= λ a. limit_agent s a req) u).0
      → (a : LimitAnswer) × (o ≡ ok a) × (a.success ≡ true) × Admitted s req m
  unfolding lift ◌>>=◌
  Streams-answer (throw e) u h = cc
  Streams-answer (ok a) u h =
      let (passed, g) =
        Streams-let_pass a.success (check_agent s (present s.demo_agent_id) req u)
          (ceil_seconds a.reset (s.now u)) u h in
      (a, refl, passed, Streams-Admitted u g)

  Streams-limiter :
      (l : Option (Acts → Text → Result LimitAnswer)) (t : Acts)
      → s.limiter ≡ l
      → Streams (after_limiter s l req t).0
      → Passes s req t × Admitted s req m
  Streams-limiter none t e h = (unlimited e, Streams-Admitted t h)
  Streams-limiter (some ask) t e h =
      let id = text "agent:" ++ client_ip req.forwarded in
      let (a, answer, passed, admitted) = Streams-answer (ask t id) (limited id ∷ t) h in
      (within ask a e answer passed, admitted)

  -- Whatever came before: the model answers a request only if the limiter is not configured or lets
  -- it pass, the demo agent and the key of the model are configured, the body is JSON, its schema
  -- finds 1 to 20 messages, and what is answered are these, converted.
  pub post_agent-Admitted :
      (t : Acts) → (post_agent s req t).0 ≡ ok (streamed m) → Passes s req t × Admitted s req m
  unfolding post_agent
  post_agent-Admitted t h = Streams-limiter s.limiter t refl h
