-- ===== src/Adapters/Eliza/Laws.antt =====
-- What the ElizaOS action answers, whatever the payment comes to.
use x402guard.Base.{
  ℕ, ◌≡◌, refl, ap, ◌∙◌, Bool, false, Option, some, none, Option-cases, inl, inr, [], ◌∷◌, ◌++◌,
}
use x402guard.Js.Text.{Text, text}
use x402guard.Sdk.Errors.{
  Thrown, guardrail_violation, proxy_unreachable, message_of, Result, ok, throw,
}
use x402guard.Sdk.Errors.Messages.{ProxyViolation, print, framed, error_body}
use x402guard.Sdk.Errors.RoundTrip.Formats.{IsReadable, rule_of, limit_of, actual_of}
use x402guard.Sdk.Io.{Io, Request, Trace, resolved, logged, info, warn, pure, catch, ◌>>=◌, ◌>>◌}
use x402guard.Sdk.Types.{proxy_request_json}
use x402guard.Sdk.Config.{Host}
use x402guard.Sdk.Client.{Client, request_of, proxy_payment}
use x402guard.Sdk.Client.Outcome.{request_violation}
use x402guard.Adapters.Eliza.{
  paid, Content, PaymentParams, Attachment, nothing, Runtime, Outcome, failed, violated,
  extract_payment_params, build_payment_client, notify, fail_with, is_solana, evm_payment, pay_evm,
  pay, explain, missing_params, handler,
}

-- The callback of a call, if it has one, does not throw.
abbrev pub IsPolite : Runtime → Type 0
IsPolite rt =
    (call : Text → Attachment → Io (Unit {0}))
    → rt.callback ≡ some call
    → (message : Text) (a : Attachment) (t : Trace) → (call message a t).0 ≡ ok tt

-- What the action makes of the outcome of the payment.
abbrev pub answer_to : Result Outcome → Outcome
answer_to (ok o) = o
answer_to (throw (guardrail_violation v)) = violated v.rule_type v.limit v.actual
answer_to (throw (proxy_unreachable url cause)) = failed (
    text "x402Guard proxy unreachable -- is docker compose up running? ("
    ++ (message_of (proxy_unreachable url cause) ++ text ")"))
answer_to (throw e) = failed (text "Payment failed: " ++ message_of e)

module _ (rt : Runtime) (polite : IsPolite rt) where
  notify-ok : (message : Text) (a : Attachment) (t : Trace) → (notify rt message a t).0 ≡ ok tt
  unfolding notify
  notify-ok message a t = elim (Option-cases rt.callback) [
    | inl none_given ↦ rw none_given refl
    | inr (call, given) ↦ rw given (polite call given message a t)
  ]

  then_pure :
      (out : Result (Unit {0}) × Trace) (o : Outcome)
      → out.0 ≡ ok tt
      → (((λ _. out) >> pure o) []).0 ≡ ok o
  then_pure (ok tt, t) o h = refl
  then_pure (throw e, t) o h = cc

  then_all :
      (out : Result (Unit {0}) × Trace) (o : Outcome)
      → out.0 ≡ ok tt
      → ((λ _. out) >> pure o) [] ≡ (ok o, out.1)
  then_all (ok tt, t) o h = refl
  then_all (throw e, t) o h = cc

  fail_with-ok : (message : Text) (t : Trace) → (fail_with rt message t).0 ≡ ok (failed message)
  unfolding fail_with
  fail_with-ok message t =
      then_pure (notify rt message nothing t) (failed message) (notify-ok message nothing t)

  explain-ok : (e : Thrown) (t : Trace) → (explain rt e t).0 ≡ ok (answer_to (throw e))
  unfolding explain
  explain-ok (guardrail_violation v) t = then_pure (notify rt _ _ _) _ (notify-ok _ _ _)
  explain-ok (proxy_unreachable url cause) t = fail_with-ok _ _
  explain-ok e t = fail_with-ok _ _

  catch-ok :
      (out : Result Outcome × Trace) → (catch (λ _. out) (explain rt) []).0 ≡ ok (answer_to out.0)
  catch-ok (ok o, t) = refl
  catch-ok (throw e, t) = explain-ok e t

  module _ (host : Host) where
    -- Given the required parameters and a callback that does not throw, the action never throws: it
    -- answers with the outcome of the payment, and with the rule, the limit and the actual value
    -- if that is a violation, or with the message of any other error.
    pub handler-answer_to :
        (c : Content) (p : PaymentParams) (t : Trace)
        → extract_payment_params c ≡ some p
        → (handler host rt c t).0 ≡ ok (answer_to (pay host rt p t).0)
    unfolding handler
    handler-answer_to c p t given = rw given (catch-ok (pay host rt p t))

    -- Without a target URL or a payment, the action answers so; nothing happens but a log line and
    -- the call of the callback.
    pub handler_missing :
        (c : Content) (t : Trace)
        → extract_payment_params c ≡ none
        → handler host rt c t ≡ (
          ok (failed missing_params),
          (notify rt missing_params nothing (logged warn missing_params ∷ t)).1,
        )
    unfolding handler fail_with
    handler_missing c t missing = rw missing (
        then_all (notify rt missing_params nothing (logged warn missing_params ∷ t))
          (failed missing_params)
          (notify-ok missing_params nothing (logged warn missing_params ∷ t)))

    abbrev pub sent : Client → PaymentParams → Request
    sent client p =
        request_of client (text "POST") (text "/proxy")
          (some (proxy_request_json (evm_payment rt p)))

    module _ (p : PaymentParams) (client : Client) (t : Trace) (b : Bool) (v : ProxyViolation)
        (code : ℕ) (header : Option Text) (h : IsReadable v)
        (answer : host.network
            (logged info (text "Proxying EVM payment through x402Guard") ∷ t)
            (sent client p)
          ≡ resolved (record {
            status = 403;
            retry_after = header;
            body = some (error_body (framed b (print v)) code);
          })) where
      pay_evm_blocked :
          (pay_evm host rt p client t).0
          ≡ throw (
              guardrail_violation (record {
                message = framed b (print v);
                rule_type = rule_of v;
                limit = limit_of v;
                actual = actual_of v;
              }))
      unfolding proxy_payment
      pay_evm_blocked =
          ap (λ out. (((λ _. out) >>= paid rt (text "Payment proxied successfully: ")) []).0)
            (request_violation host client (text "POST") (text "/proxy")
              (some (proxy_request_json (evm_payment rt p)))
              (logged info (text "Proxying EVM payment through x402Guard") ∷ t) b v code header h
              answer)

      pay_blocked :
          is_solana p.network ≡ false
          → build_payment_client host rt ≡ ok client
          → (pay host rt p t).0 ≡ (pay_evm host rt p client t).0
      unfolding pay
      pay_blocked evm built = rw (built, evm) refl

      -- A payment that is not for Solana and that the proxy blocks is answered with the rule, the
      -- limit and the actual value that the proxy reported.
      pub handler_blocked :
          (c : Content)
          → extract_payment_params c ≡ some p
          → is_solana p.network ≡ false
          → build_payment_client host rt ≡ ok client
          → (handler host rt c t).0 ≡ ok (violated (rule_of v) (limit_of v) (actual_of v))
      handler_blocked c given evm built =
          handler-answer_to c p t given
          ∙ ap (λ r. ok (answer_to r)) (pay_blocked evm built ∙ pay_evm_blocked)
