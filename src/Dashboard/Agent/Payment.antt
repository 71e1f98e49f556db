-- ===== src/Dashboard/Agent/Payment.antt =====
-- dashboard/src/app/api/agent/route.ts: the tool that simulates a payment.
use x402guard.Base.{Bool, true, false, Option, some, none, [], ◌∷◌, ◌++◌, if◌then◌else◌}
use x402guard.Js.Text.{Text, text}
use x402guard.Js.Float.{Float, times, rounded_json}
use x402guard.Js.Json.{Json, str, object, to_text}
use x402guard.Sdk.Errors.{property}
use x402guard.Dashboard.Agent.{
  AgentServer, Agent, pure, lift, ◌>>=◌, get_demo_agent_id, proxy_fetch,
}
use x402guard.Dashboard.Agent.Values.{is_truthy, includes_text}

module _ (s : AgentServer) where
  -- The body of the request of `simulate_payment`; its schema lets only numbers from 0.001 to 100
  -- pass.
  unfoldable pub payment_body : Text → Float → Text → Json
  unfolding times rounded_json to_text
  payment_body id amount target = object (
      (text "targetUrl", some (str target))
      ∷ (text "x402Payment", some (str (text "simulated-payment-header")))
      ∷ (
        text "x402Requirements",
        some (
            str (
              s.stringify (
                object (
                  (text "scheme", some (str (text "exact")))
                  ∷ (text "network", some (str (text "base-sepolia")))
                  ∷ (
                    text "maxAmountRequired",
                    some (str (to_text (rounded_json (times amount 1000000)))),
                  )
                  ∷ (text "resource", some (str target))
                  ∷ (
                    text "description",
                    some
                        (str (text "AI agent payment: " ++ (s.number_text amount ++ text " USDC"))),
                  )
                  ∷ [])))),
      )
      ∷ (text "agentId", some (str id))
      ∷ [])

  abbrev pub with_result : Json → Text → Json
  with_result result interpretation =
      object
        ((text "result", some result) ∷ (text "interpretation", some (str interpretation)) ∷ [])

  -- `result.error ? … : …`, where the error has the word or not.
  abbrev pub error_meaning : Json → Bool → Text
  error_meaning failure true = text "BLOCKED by guardrails — the payment violated a rule"
  error_meaning failure false = text "Proxy response: " ++ to_text failure

  abbrev pub message_or_unknown : Option Json → Text
  message_or_unknown none = text "Unknown"
  message_or_unknown (some m) = if is_truthy (some m) then to_text m else text "Unknown"

  abbrev pub success_meaning : Option Json → Option Json → Text
  success_meaning succeeded message =
      if is_truthy succeeded
      then text "ALLOWED — payment passed all guardrail checks"
      else text "Proxy response: " ++ message_or_unknown message

  abbrev pub interpret_success : Json → Agent Json
  interpret_success result = do
    succeeded ← lift (property (text "success") result)
    message ← lift (property (text "message") result)
    pure (with_result result (success_meaning succeeded message))

  abbrev pub interpret_error : Json → Option Json → Agent Json
  interpret_error result none = interpret_success result
  interpret_error result (some failure) =
      if is_truthy (some failure)
      then (do
        has_word ← lift (includes_text (text "guardrail") failure)
        pure (with_result result (error_meaning failure has_word)))
      else interpret_success result

  -- What `simulate_payment` makes of the proxy's answer.
  unfoldable pub interpret_answer : Json → Agent Json
  unfolding is_truthy includes_text
  interpret_answer result = do
    failure ← lift (property (text "error") result)
    interpret_error result failure

  -- The tool `simulate_payment`.
  unfoldable pub simulate_payment : Float → Text → Agent Json
  unfolding get_demo_agent_id payment_body interpret_answer proxy_fetch
  simulate_payment amount target = do
    id ← lift (get_demo_agent_id s)
    result ← proxy_fetch s (text "POST") (text "/proxy") (some (payment_body id amount target))
    interpret_answer result
