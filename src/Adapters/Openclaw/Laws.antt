-- ===== src/Adapters/Openclaw/Laws.antt =====
-- What holds of every tool of the OpenClaw plugin.
use mathlib.Core.Option.{some-injective}
use x402guard.Base.{
  ◌≡◌, ◌∙◌, ap, sym, refl, inl, inr, Bool, true, false, some, none, [], or_else, Option-cases,
}
use x402guard.Js.Text.{Text}
use x402guard.Sdk.Errors.{Thrown, Result, ok, throw}
use x402guard.Sdk.Io.{Io, Trace}
use x402guard.Sdk.Config.{Host}
use x402guard.Sdk.Client.{Client}
use x402guard.Adapters.Openclaw.{
  Input, Output, State, Plugin, pure, lift, on, catch, ◌>>=◌, Settings, build_client, remember,
  get_client, with_agent, present, agent_required, Tool, health_check, create_agent, get_agent,
  create_rule, list_rules, create_session_key, list_session_keys, revoke_session_key, proxy_payment,
  proxy_solana_payment, revoke_all,
}
use x402guard.Adapters.Openclaw.Tools.{
  revoke_session_key_tool, list_session_keys_tool, create_session_key_tool, list_rules_tool,
  create_rule_tool, get_agent_tool, get_agent_tool, create_rule_tool, list_rules_tool,
  create_session_key_tool, list_session_keys_tool, revoke_session_key_tool, revoke_all_tool,
  health_check_tool, create_agent_tool, proxy_payment_tool, proxy_solana_payment_tool, length_of,
  payment_done, solana_payment_done, revoked_output, run_tool, parse_rule_type,
}

-- The tools that act on an agent.
abbrev pub needs_agent : Tool → Bool
needs_agent health_check = false
needs_agent create_agent = false
needs_agent proxy_payment = false
needs_agent proxy_solana_payment = false
needs_agent _ = true

with_agent-none :
    (settings : Settings) (i : Input) (handler : Text → Plugin Output) (s : State)
    → present (or_else i.agent_id settings.default_agent_id) ≡ none
    → with_agent settings i handler s ≡ (ok agent_required, s)
unfolding with_agent pure
with_agent-none settings i handler s missing = rw (missing, with_agent) refl

module _ (host : Host) (settings : Settings) where
  -- Without an agent in the input and without a default one, a tool that acts on an agent says so
  -- and does nothing: it sends no request and does not even build the client.
  pub run_tool_agentless :
      (tool : Tool) (i : Input) (s : State)
      → needs_agent tool ≡ true
      → present (or_else i.agent_id settings.default_agent_id) ≡ none
      → run_tool host settings tool i s ≡ (ok agent_required, s)
  unfolding run_tool get_agent_tool create_rule_tool list_rules_tool create_session_key_tool
      list_session_keys_tool revoke_session_key_tool revoke_all_tool
  run_tool_agentless health_check i s needed missing = cc
  run_tool_agentless create_agent i s needed missing = cc
  run_tool_agentless proxy_payment i s needed missing = cc
  run_tool_agentless proxy_solana_payment i s needed missing = cc
  run_tool_agentless get_agent i s needed missing = with_agent-none settings i _ s missing
  run_tool_agentless create_rule i s needed missing = with_agent-none settings i _ s missing
  run_tool_agentless list_rules i s needed missing = with_agent-none settings i _ s missing
  run_tool_agentless create_session_key i s needed missing = with_agent-none settings i _ s missing
  run_tool_agentless list_session_keys i s needed missing = with_agent-none settings i _ s missing
  run_tool_agentless revoke_session_key i s needed missing = with_agent-none settings i _ s missing
  run_tool_agentless revoke_all i s needed missing = with_agent-none settings i _ s missing

  -- The variable `client` and what was done, before and after a call. A client that was there stays;
  -- one that is there now is the one that the settings give; and as long as there is none, nothing was
  -- done.
  abbrev pub Extends : State → State → Type 0
  Extends (none, t) (none, u) = u ≡ t
  Extends (none, t) (some c, u) = build_client host settings ≡ ok c
  Extends (some c, t) (k, u) = k ≡ some c

  Extends-refl : (s : State) → Extends s s
  Extends-refl (none, t) = refl
  Extends-refl (some c, t) = refl

  Extends-trans : (s u v : State) → Extends s u → Extends u v → Extends s v
  Extends-trans (none, t) (none, t') (none, t'') e g = g ∙ e
  Extends-trans (none, t) (none, t') (some c, t'') e g = g
  Extends-trans (none, t) (some c, t') (none, t'') e g = cc
  Extends-trans (none, t) (some c, t') (some d, t'') e g = e ∙ ap ok (sym (some-injective _ _ g))
  Extends-trans (some c, t) (none, t') (m, t'') e g = cc
  Extends-trans (some c, t) (some d, t') (m, t'') e g = g ∙ e

  abbrev Keeps {ℓ} : {A : Type ℓ} → Plugin A → Type 0
  Keeps m = (s : State) → Extends s (m s).1

  -- What runs once the client is there leaves it there.
  abbrev Stays {ℓ} : {A : Type ℓ} → Plugin A → Type 0
  Stays m = (c : Client) (t : Trace) → (m (some c, t)).1.0 ≡ some c

  Stays-pure {ℓ} : {A : Type ℓ} (a : A) → Stays (pure a)
  unfolding pure
  Stays-pure a c t = refl

  Stays-lift {ℓ} : {A : Type ℓ} (r : Result A) → Stays (lift r)
  unfolding lift
  Stays-lift r c t = refl

  Stays-on {ℓ} : {A : Type ℓ} (m : Io A) → Stays (on m)
  unfolding on
  Stays-on m c t = refl

  module _ {ℓ κ} {A : Type ℓ} {B : Type κ} (f : A → Plugin B) (h : (a : A) → Stays (f a)) where
    after_bind :
        (c : Client) (out : Result A × State)
        → out.1.0 ≡ some c
        → (((λ _. out) >>= f) (none, [])).1.0 ≡ some c
    unfolding ◌>>=◌
    after_bind c (ok a, (none, u)) e = cc
    after_bind c (ok a, (some d, u)) e = h a d u ∙ e
    after_bind c (throw x, s) e = e

    Stays->>= : (m : Plugin A) → Stays m → Stays (m >>= f)
    unfolding ◌>>=◌
    Stays->>= m g c t = after_bind c (m (some c, t)) (g c t)

  module _ {ℓ} {A : Type ℓ} (f : Thrown → Plugin A) where
    after_catch-Stays :
        (c : Client) (out : Result A × State)
        → ((e : Thrown) → Stays (f e))
        → out.1.0 ≡ some c
        → (catch (λ _. out) f (none, [])).1.0 ≡ some c
    unfolding catch
    after_catch-Stays c (ok a, s) h e = e
    after_catch-Stays c (throw x, (none, u)) h e = cc
    after_catch-Stays c (throw x, (some d, u)) h e = h x d u ∙ e

    Stays-catch : (m : Plugin A) → ((e : Thrown) → Stays (f e)) → Stays m → Stays (catch m f)
    unfolding catch
    Stays-catch m h g c t = after_catch-Stays c (m (some c, t)) h (g c t)

    after_catch :
        (s : State) (out : Result A × State)
        → ((e : Thrown) → Keeps (f e))
        → Extends s out.1
        → Extends s (catch (λ _. out) f (none, [])).1
    unfolding catch
    after_catch s (ok a, u) h e = e
    after_catch s (throw x, u) h e = Extends-trans s u _ e (h x u)

    Keeps-catch : (m : Plugin A) → ((e : Thrown) → Keeps (f e)) → Keeps m → Keeps (catch m f)
    unfolding catch
    Keeps-catch m h g s = after_catch s (m s) h (g s)

  Keeps-pure {ℓ} : {A : Type ℓ} (a : A) → Keeps (pure a)
  unfolding pure
  Keeps-pure a s = Extends-refl s

  -- A tool that gets the client and goes on with it.
  module _ (f : Client → Plugin Output) (h : (c : Client) → Stays (f c)) where
    stored :
        (c : Client) (t : Trace) (s : State)
        → build_client host settings ≡ ok c
        → s.0 ≡ some c
        → Extends (none, t) s
    stored c t (none, u) e g = cc
    stored c t (some d, u) e g = e ∙ ap ok (sym (some-injective _ _ g))

    built_once :
        (t : Trace) (r : Result Client)
        → build_client host settings ≡ r
        → Extends (none, t) (((λ _. remember host settings t r) >>= f) (none, [])).1
    unfolding ◌>>=◌
    built_once t (ok c) e = stored c t (f c (some c, t)).1 e (h c c t)
    built_once t (throw x) e = refl

    with_client : Keeps (get_client host settings >>= f)
    unfolding get_client ◌>>=◌
    with_client (some c, t) = h c c t
    with_client (none, t) = built_once t (build_client host settings) refl

  Keeps-with_agent :
      (i : Input) (f : Text → Plugin Output)
      → ((id : Text) → Keeps (f id))
      → Keeps (with_agent settings i f)
  unfolding with_agent pure
  Keeps-with_agent i f h s =
      elim (Option-cases (present (or_else i.agent_id settings.default_agent_id))) [
        | inl missing ↦ rw (missing, with_agent) (Extends-refl s)
        | inr (id, given) ↦ rw (given, with_agent) (h id s)
      ]

  -- Whatever a tool does, and also when it throws: a client that the plugin has built stays in
  -- place; where there was none, either there is one afterwards, which is the one that the settings
  -- give, or the tool has done nothing at all, no request included. So the tools share one client.
  pub run_tool-Extends :
      (tool : Tool) (i : Input) (s : State) → Extends s (run_tool host settings tool i s).1
  unfolding run_tool health_check_tool create_agent_tool get_agent_tool create_rule_tool
      list_rules_tool create_session_key_tool list_session_keys_tool revoke_session_key_tool
      revoke_all_tool proxy_payment_tool proxy_solana_payment_tool
  run_tool-Extends health_check i =
      Keeps-catch _ _ (λ e. Keeps-pure _)
        (with_client _ λ c. Stays->>= _ (λ _. Stays-pure _) _ (Stays-on _))
  run_tool-Extends create_agent i =
      with_client _ λ c. Stays->>= _ (λ _. Stays-pure _) _ (Stays-on _)
  run_tool-Extends get_agent i =
      Keeps-with_agent i _ λ id. with_client _ λ c. Stays->>= _ (λ _. Stays-pure _) _ (Stays-on _)
  run_tool-Extends create_rule i = Keeps-with_agent i _ λ id. with_client _ λ c.
      Stays->>= _ (λ rule. Stays->>= _ (λ _. Stays-pure _) _ (Stays-on _)) _
        (Stays-lift (parse_rule_type i))
  run_tool-Extends list_rules i = Keeps-with_agent i _ λ id. with_client _ λ c.
      Stays->>= _ (λ v. Stays->>= _ (λ _. Stays-pure _) _ (Stays-lift (length_of v))) _ (Stays-on _)
  run_tool-Extends create_session_key i =
      Keeps-with_agent i _ λ id. with_client _ λ c. Stays->>= _ (λ _. Stays-pure _) _ (Stays-on _)
  run_tool-Extends list_session_keys i = Keeps-with_agent i _ λ id. with_client _ λ c.
      Stays->>= _ (λ v. Stays->>= _ (λ _. Stays-pure _) _ (Stays-lift (length_of v))) _ (Stays-on _)
  run_tool-Extends revoke_session_key i =
      Keeps-with_agent i _ λ id. with_client _ λ c. Stays->>= _ (λ _. Stays-pure _) _ (Stays-on _)
  run_tool-Extends proxy_payment i = with_client _ λ c.
      Stays-catch _ _ (λ e. Stays-pure _)
        (Stays->>= _ (λ v. Stays-lift (payment_done v)) _ (Stays-on _))
  run_tool-Extends proxy_solana_payment i = with_client _ λ c.
      Stays-catch _ _ (λ e. Stays-pure _)
        (Stays->>= _ (λ v. Stays-lift (solana_payment_done v)) _ (Stays-on _))
  run_tool-Extends revoke_all i =
      Keeps-with_agent i _
        λ id. with_client _ λ c. Stays->>= _ (λ v. Stays-lift (revoked_output v)) _ (Stays-on _)
