-- ===== src/Dashboard/Agent/Scope.antt =====
-- The agent's tools touch the data of the demo agent only.
use x402guard.Base.{
  ℕ, Bool, true, false, All, All-append, Option, some, none, List, [], ◌∷◌, ◌++◌, append_assoc, ◌≡◌,
  refl, ◌∙◌, sym, ap, if◌then◌else◌,
}
use x402guard.Js.Text.{Text, text}
use x402guard.Js.Float.{Float}
use x402guard.Js.Text.{text_eq}
use x402guard.Js.Json.{fields_of, Json, Fields, obj, str, get_field}
use x402guard.Sdk.Errors.{Result, ok, throw}
use x402guard.Sdk.Io.{Request}
use x402guard.Adapters.Openclaw.{present}
use x402guard.Dashboard.Audit.{Condition, eq}
use x402guard.Dashboard.Agent.{
  Question, Act, fetched, asked, Acts, Found, found, problem, AgentServer, Agent, pure, lift, ◌>>=◌,
  or_catch, get_demo_agent_id, get_proxy_url, proxy_fetch, required,
}
use x402guard.Dashboard.Agent.Values.{is_truthy, includes_text}
use x402guard.Dashboard.Agent.Spending.{get_spend_summary, summarize}
use x402guard.Dashboard.Agent.Payment.{
  payment_body, interpret_answer, interpret_success, interpret_error, with_result, error_meaning,
  simulate_payment,
}
use x402guard.Dashboard.Agent.Tools.{
  check_proxy_health, agents_question, list_agents, get_guardrail_rules, get_session_keys,
  get_audit_log, AgentTool, proxy_health, agents, rules, keys, spending, payment, events, as_output,
  run_agent_tool,
}

-- An act that asks the configured proxy for its health, or concerns the demo agent: a query for its
-- rows, or a POST in its name to the route of the payments.
pub data IsScoped (s : AgentServer) : Act → Type 0 where
  health :
      (url : Text) (req : Request)
      → get_proxy_url s ≡ ok url
      → req.url ≡ url ++ text "/api/v1/health"
      → req.method ≡ text "GET"
      → IsScoped s (fetched req)
  own_agent :
      (id : Text) (q : Question)
      → present s.demo_agent_id ≡ some id
      → q.table ≡ text "agents"
      → q.conditions ≡ eq (text "id") id ∷ []
      → IsScoped s (asked q)
  own_rows :
      (id : Text) (q : Question) (more : List Condition)
      → present s.demo_agent_id ≡ some id
      → q.conditions ≡ eq (text "agent_id") id ∷ more
      → IsScoped s (asked q)
  own_payment :
      (id url : Text) (req : Request) (fs : Fields)
      → present s.demo_agent_id ≡ some id
      → get_proxy_url s ≡ ok url
      → req.url ≡ url ++ (text "/api/v1" ++ text "/proxy")
      → req.method ≡ text "POST"
      → req.body ≡ some (obj fs)
      → get_field (text "agentId") fs ≡ some (str id)
      → IsScoped s (fetched req)

module _ (s : AgentServer) where
  -- What is done from `t` to `u` concerns the demo agent.
  abbrev pub Adds : Acts → Acts → Type 0
  Adds t u = (new : Acts) × (u ≡ new ++ t) × All (IsScoped s) new

  pub record Scoped {ℓ} {A : Type ℓ} (m : Agent A) : Type 0 where
    pub adds : (t : Acts) → Adds t (m t).1

  Adds-append : (t u v : Acts) → Adds t u → Adds u v → Adds t v
  Adds-append t u v (a, e, h) (b, g, k) =
      (b ++ a, g ∙ (ap (λ w. b ++ w) e ∙ sym (append_assoc b a t)), All-append (IsScoped s) b a k h)

  lift-Scoped {ℓ} : {A : Type ℓ} (r : Result A) → Scoped (lift r)
  unfolding lift
  lift-Scoped r = record { adds = λ t. ([], refl, tt) }

  pure-Scoped {ℓ} : {A : Type ℓ} (a : A) → Scoped (pure a)
  unfolding pure
  pure-Scoped a = record { adds = λ t. ([], refl, tt) }

  after-Scoped {ℓ κ} :
      {A : Type ℓ} {B : Type κ} (f : A → Agent B) (t : Acts) (out : Result A × Acts)
      → Adds t out.1
      → ((a : A) → Scoped (f a))
      → Adds t (((λ _. out) >>= f) t).1
  unfolding ◌>>=◌
  after-Scoped f t (ok a, u) h k = Adds-append t u (f a u).1 h ((k a).adds u)
  after-Scoped f t (throw e, u) h k = h

  bind-Scoped {ℓ κ} :
      {A : Type ℓ} {B : Type κ} {m : Agent A} {f : A → Agent B}
      → Scoped m
      → ((a : A) → Scoped (f a))
      → Scoped (m >>= f)
  unfolding ◌>>=◌
  bind-Scoped {f = f} h k = record { adds = λ t. after-Scoped f t _ (h.adds t) k }

  caught-Scoped {ℓ} :
      {A : Type ℓ} (other : Agent A) (t : Acts) (out : Result A × Acts)
      → Adds t out.1
      → Scoped other
      → Adds t (or_catch (λ _. out) other t).1
  unfolding or_catch
  caught-Scoped other t (ok a, u) h k = h
  caught-Scoped other t (throw e, u) h k = Adds-append t u (other u).1 h (k.adds u)

  or_catch-Scoped {ℓ} :
      {A : Type ℓ} {m other : Agent A} → Scoped m → Scoped other → Scoped (or_catch m other)
  unfolding or_catch
  or_catch-Scoped {other = other} h k = record { adds = λ t. caught-Scoped other t _ (h.adds t) k }

  one-Scoped {ℓ} :
      {A : Type ℓ} (f : Acts → A) (a : Act) → IsScoped s a → Scoped (λ t. (ok (f t), a ∷ t))
  one-Scoped f a h = record { adds = λ t. (a ∷ [], refl, (h, tt)) }

  required-Scoped {ℓ} :
      {B : Type ℓ} (m : Text) (f : Text → Agent B) (o : Option Text) (t : Acts)
      → ((id : Text) → o ≡ some id → Scoped (f id))
      → Adds t ((lift (required m o) >>= f) t).1
  unfolding lift ◌>>=◌
  required-Scoped m f none t k = ([], refl, tt)
  required-Scoped m f (some id) t k = (k id refl).adds t

  with_id-Scoped {ℓ} :
      {B : Type ℓ} {f : Text → Agent B}
      → ((id : Text) → present s.demo_agent_id ≡ some id → Scoped (f id))
      → Scoped (lift (get_demo_agent_id s) >>= f)
  unfolding get_demo_agent_id
  with_id-Scoped {f = f} k = record {
    adds = λ t. required-Scoped _ f (present s.demo_agent_id) t k;
  }

  -- What goes on with a value has its equation.
  from-Scoped {ℓ κ} :
      {A : Type ℓ} {B : Type κ} {f : A → Agent B} (r : Result A)
      → ((a : A) → r ≡ ok a → Scoped (f a))
      → Scoped (lift r >>= f)
  unfolding lift ◌>>=◌
  from-Scoped (ok a) k = record { adds = λ t. (k a refl).adds t }
  from-Scoped (throw e) k = record { adds = λ t. ([], refl, tt) }

  health-Scoped : Scoped (check_proxy_health s)
  unfolding check_proxy_health
  health-Scoped =
      or_catch-Scoped
        (from-Scoped (get_proxy_url s) λ url given.
          bind-Scoped (one-Scoped _ _ (health url _ given refl refl))
            λ reached. bind-Scoped (lift-Scoped _) λ answer. pure-Scoped _)
        (pure-Scoped _)

  agents-Scoped : Scoped (list_agents s)
  unfolding list_agents
  agents-Scoped = with_id-Scoped λ id e.
      bind-Scoped (one-Scoped _ _ (own_agent id (agents_question s id) e refl refl))
        λ rows. pure-Scoped _

  -- A query for rows of the demo agent.
  rows-Scoped {ℓ} :
      {A : Type ℓ} (f : Acts → A) (q : Question) (id : Text) (more : List Condition)
      → present s.demo_agent_id ≡ some id
      → q.conditions ≡ eq (text "agent_id") id ∷ more
      → Scoped (λ t. (ok (f t), asked q ∷ t))
  rows-Scoped f q id more e g = one-Scoped f (asked q) (own_rows id q more e g)

  rules-Scoped : Scoped (get_guardrail_rules s)
  unfolding get_guardrail_rules
  rules-Scoped =
      with_id-Scoped λ id e. bind-Scoped (rows-Scoped _ _ id _ e refl) λ rows. pure-Scoped _

  keys-Scoped : Scoped (get_session_keys s)
  unfolding get_session_keys
  keys-Scoped =
      with_id-Scoped λ id e. bind-Scoped (rows-Scoped _ _ id _ e refl) λ rows. pure-Scoped _

  events-Scoped : (limit : ℕ) → Scoped (get_audit_log s limit)
  unfolding get_audit_log
  events-Scoped limit =
      with_id-Scoped λ id e. bind-Scoped (rows-Scoped _ _ id _ e refl) λ rows. pure-Scoped _

  summarize-Scoped :
      (id : Text) (r : Found (List ℕ))
      → present s.demo_agent_id ≡ some id
      → Scoped (summarize s id r)
  summarize-Scoped id (problem m) e = pure-Scoped _
  summarize-Scoped id (found amounts) e =
      bind-Scoped (rows-Scoped _ _ id _ e refl) λ rows. pure-Scoped _

  spending-Scoped : Scoped (get_spend_summary s)
  unfolding get_spend_summary
  spending-Scoped = with_id-Scoped λ id e.
      bind-Scoped (record { adds = λ t. ([], refl, tt) })
        λ since. bind-Scoped (rows-Scoped _ _ id _ e refl) λ amounts. summarize-Scoped id amounts e

  success-Scoped : (v : Json) → Scoped (interpret_success s v)
  success-Scoped v =
      bind-Scoped (lift-Scoped _) λ succeeded. bind-Scoped (lift-Scoped _) λ message. pure-Scoped _

  failure-Scoped :
      (v failure : Json) (b : Bool)
      → Scoped (
          if b
          then (lift (includes_text (text "guardrail") failure) >>= λ has_word.
              pure (with_result s v (error_meaning s failure has_word)))
          else interpret_success s v)
  failure-Scoped v failure true = bind-Scoped (lift-Scoped _) λ has_word. pure-Scoped _
  failure-Scoped v failure false = success-Scoped v

  error-Scoped : (v : Json) (failure : Option Json) → Scoped (interpret_error s v failure)
  error-Scoped v none = success-Scoped v
  error-Scoped v (some failure) = failure-Scoped v failure (is_truthy (some failure))

  interpret_answer-Scoped : (v : Json) → Scoped (interpret_answer s v)
  unfolding interpret_answer
  interpret_answer-Scoped v = bind-Scoped (lift-Scoped _) λ failure. error-Scoped v failure

  payment-Scoped : (amount : Float) (target : Text) → Scoped (simulate_payment s amount target)
  unfolding simulate_payment proxy_fetch payment_body fields_of get_field text text_eq
  payment-Scoped amount target = with_id-Scoped λ id e.
      bind-Scoped
        (from-Scoped (get_proxy_url s) λ url given.
          bind-Scoped (one-Scoped _ _ (own_payment id url _ _ e given refl refl refl refl))
            λ reached. lift-Scoped _)
        λ result. interpret_answer-Scoped result

  output-Scoped : (m : Agent Json) → Scoped m → Scoped (as_output s m)
  output-Scoped m h = bind-Scoped h λ v. pure-Scoped _

  run_agent_tool-ScopedRun : (tool : AgentTool) → Scoped (run_agent_tool s tool)
  unfolding run_agent_tool
  run_agent_tool-ScopedRun proxy_health = output-Scoped _ health-Scoped
  run_agent_tool-ScopedRun agents = output-Scoped _ agents-Scoped
  run_agent_tool-ScopedRun rules = output-Scoped _ rules-Scoped
  run_agent_tool-ScopedRun keys = output-Scoped _ keys-Scoped
  run_agent_tool-ScopedRun spending = spending-Scoped
  run_agent_tool-ScopedRun (payment amount target) = output-Scoped _ (payment-Scoped amount target)
  run_agent_tool-ScopedRun (events limit) = output-Scoped _ (events-Scoped limit)

-- Whatever the model asks for and whatever the services answer: all that a tool does is to ask
-- the configured proxy for its health, to query rows of the configured demo agent, or to send a POST
-- with that agent's id to the payment route of the configured proxy.
pub run_agent_tool-IsScoped :
    (s : AgentServer) (tool : AgentTool) (t : Acts)
    → (new : Acts) × ((run_agent_tool s tool t).1 ≡ new ++ t) × All (IsScoped s) new
run_agent_tool-IsScoped s tool t = (run_agent_tool-ScopedRun s tool).adds t
