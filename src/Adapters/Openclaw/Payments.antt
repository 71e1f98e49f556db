-- ===== src/Adapters/Openclaw/Payments.antt =====
-- What the payment tools of the OpenClaw plugin answer.
use x402guard.Base.{◌&&◌, ◌≡◌, refl, Bool, true, false, Option, some, ◌∷◌, or_else}
use x402guard.Js.Text.{Text, text, text_eq}
use x402guard.Js.Json.{Json, null, bool}
use x402guard.Sdk.Errors.{guardrail_violation, Result, ok, throw, property}
use x402guard.Sdk.Io.{Trace}
use x402guard.Sdk.Types.{ProxyRequest}
use x402guard.Sdk.Config.{Host}
use x402guard.Sdk.Client.{Client, proxy_payment}
use x402guard.Adapters.Openclaw.{
  Input, json, Output, State, Settings, get_client, pure, on, lift, catch, ◌>>=◌,
}
use x402guard.Adapters.Openclaw.Tools.{payment_done, payment_failed, proxy_payment_tool}

-- The payment that the tool asks the client for.
abbrev pub payment_of : Settings → Input → ProxyRequest
payment_of settings i = record {
  target_url = i.target_url;
  x402_payment = i.x402_payment;
  x402_requirements = i.x402_requirements;
  agent_id = or_else i.agent_id settings.default_agent_id;
  session_key_id = i.session_key_id;
}

-- What the tool makes of the outcome of the payment.
abbrev answer_of : Option Client → Result Json × Trace → Result Output × State
answer_of k (r, t) =
    catch ((λ s. (r, s)) >>= λ response. lift (payment_done response))
      (λ e. pure (payment_failed e)) (k, t)

-- The property `success` of an answer.
abbrev pub succeeds : Output → Bool
succeeds ((key, json (some (bool b))) ∷ r) = text_eq key (text "success") && b
succeeds _ = false

-- The payment went through: the client returned a body, and it is not `null`.
abbrev pub is_done : Result Json → Bool
is_done (ok null) = false
is_done (ok _) = true
is_done (throw _) = false

abbrev pub IsAnswer : Option Client → Result Json × Trace → Result Output × State → Type 0
IsAnswer k (r, t) out =
    (answer : Output) × (out ≡ (ok answer, (k, t))) × (succeeds answer ≡ is_done r)

answer_of-IsAnswer :
    (k : Option Client) (out : Result Json × Trace) → IsAnswer k out (answer_of k out)
unfolding pure lift catch ◌>>=◌ payment_done payment_failed property text text_eq
answer_of-IsAnswer k (ok null, t) = (_, refl, refl)
answer_of-IsAnswer k (ok _, t) = (_, refl, refl)
answer_of-IsAnswer k (throw (guardrail_violation v), t) = (_, refl, refl)
answer_of-IsAnswer k (throw _, t) = (_, refl, refl)

module _ (host : Host) (settings : Settings) (c : Client) (i : Input) (t : Trace) where
  -- Once the client is built, the payment tool never throws: it answers, with the client and the
  -- requests as the payment left them, and reports success exactly if the payment returned a body
  -- that is not `null`.
  pub proxy_payment_tool-IsAnswer :
      IsAnswer
        (some c)
        (proxy_payment host c (payment_of settings i) t)
        (proxy_payment_tool host settings i (some c, t))
  unfolding pure on lift catch ◌>>=◌ proxy_payment_tool get_client
  proxy_payment_tool-IsAnswer =
      answer_of-IsAnswer (some c) (proxy_payment host c (payment_of settings i) t)
