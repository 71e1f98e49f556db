-- ===== src/Dashboard/Agent/Flags.antt =====
-- How the simulated payment reads the proxy's report of a violated rule.
use x402guard.Base.{
  ℕ, Bool, false, All-append, some, [], ◌∷◌, ◌++◌, ◌==◌, not, any, ◌≡◌, refl, ◌∙◌, ap, arith,
  if◌then◌else◌,
}
use x402guard.Js.Text.{text_eq, Text, text, is_empty, is_digit, starts_with, strip_prefix, includes}
use x402guard.Js.Text.Laws.{NoneOf, NoneOf-of_any, NoneOf-of_Each}
use x402guard.Js.Number.{decimal}
use x402guard.Js.Number.Decimal.{Each-decimal}
use x402guard.Js.Float.{Float}
use x402guard.Js.Json.{to_text, str, get_field, fields_of}
use x402guard.Sdk.Errors.{ok, property}
use x402guard.Sdk.Errors.Messages.{
  ProxyViolation, spend_tx, spend_day, leverage, slippage, contract, empty_whitelist,
  invalid_leverage, invalid_slippage, print,
}
use x402guard.Adapters.Openclaw.{present}
use x402guard.Dashboard.Agent.{
  Acts, fetched, AgentServer, answered, reach, required, pure, lift, ◌>>=◌, get_demo_agent_id,
  get_proxy_url, error_object, error_of, settled, proxy_request, proxy_fetch,
}
use x402guard.Dashboard.Agent.Values.{is_truthy, includes_text}
use x402guard.Dashboard.Agent.Payment.{
  payment_body, with_result, error_meaning, interpret_answer, interpret_success, simulate_payment,
}

-- The body of the proxy's answer 403, as its JSON library prints it where the target has no character
-- that JSON escapes.
unfoldable pub report_text : ProxyViolation → Text
unfolding print text
report_text v = text "{\"error\":\"" ++ (print v ++ text "\",\"code\":403}")

abbrev pub is_g : ℕ → Bool
is_g c = c == b'g'

-- A violation whose report names no target, or one without the letter g.
abbrev pub IsPlain : ProxyViolation → Type 0
IsPlain (contract target) = NoneOf is_g target
IsPlain _ = Unit

starts_lacks : (c : ℕ) (s : Text) → is_g c ≡ false → starts_with (c ∷ s) (text "guardrail") ≡ false
unfolding starts_with strip_prefix text
starts_lacks c s h = ground arith

includes_lacks : (s : Text) → NoneOf is_g s → includes s (text "guardrail") ≡ false
unfolding includes text
includes_lacks [] h = refl
includes_lacks (c ∷ s) (k, h) = rw (starts_lacks c s k) (includes_lacks s h)

decimal-lacks_g : (n : ℕ) → NoneOf is_g (decimal n)
unfolding is_digit
decimal-lacks_g n = NoneOf-of_Each is_digit is_g (λ c h. ground arith) (decimal n) (Each-decimal n)

-- The parts of a report, put in front of what lacks the letter.
literal-lacks_g : (w rest : Text) → any is_g w ≡ false → NoneOf is_g rest → NoneOf is_g (w ++ rest)
literal-lacks_g w rest h k = All-append _ w rest (NoneOf-of_any is_g w h) k

number-lacks_g : (n : ℕ) (rest : Text) → NoneOf is_g rest → NoneOf is_g (decimal n ++ rest)
number-lacks_g n rest k = All-append _ (decimal n) rest (decimal-lacks_g n) k

two_numbers :
    (a b : ℕ) (w after tail : Text)
    → any is_g w ≡ false
    → any is_g after ≡ false
    → any is_g tail ≡ false
    → NoneOf is_g ((decimal a ++ (w ++ (decimal b ++ after))) ++ tail)
two_numbers a b w after tail h k g =
    All-append _ (decimal a ++ (w ++ (decimal b ++ after))) tail
      (number-lacks_g a (w ++ (decimal b ++ after)) (
        literal-lacks_g w (decimal b ++ after) h
          (number-lacks_g b after (NoneOf-of_any is_g after k))))
      (NoneOf-of_any is_g tail g)

last_number :
    (a b : ℕ) (w tail : Text)
    → any is_g w ≡ false
    → any is_g tail ≡ false
    → NoneOf is_g ((decimal a ++ (w ++ decimal b)) ++ tail)
last_number a b w tail h g =
    All-append _ (decimal a ++ (w ++ decimal b)) tail
      (number-lacks_g a (w ++ decimal b) (literal-lacks_g w (decimal b) h (decimal-lacks_g b)))
      (NoneOf-of_any is_g tail g)

abbrev pub answer_text : ProxyViolation → Text
answer_text v = text "Proxy returned 403: " ++ report_text v

report_text-unflagged :
    (v : ProxyViolation) → IsPlain v → includes (answer_text v) (text "guardrail") ≡ false
unfolding report_text print text includes starts_with strip_prefix
report_text-unflagged (spend_tx a b) h =
    includes_lacks _ (last_number a b (text " > limit ") (text "\",\"code\":403}") refl refl)
report_text-unflagged (spend_day a b) h =
    includes_lacks _ (last_number a b (text " > limit ") (text "\",\"code\":403}") refl refl)
report_text-unflagged (leverage a b) h =
    includes_lacks _ (last_number a b (text " > max ") (text "\",\"code\":403}") refl refl)
report_text-unflagged (slippage a b) h =
    includes_lacks _
      (two_numbers a b (text " bps > max ") (text " bps") (text "\",\"code\":403}") refl refl refl)
report_text-unflagged (contract t) h = includes_lacks _ (
    All-append _ (t ++ text " not in whitelist") (text "\",\"code\":403}")
      (All-append _ t (text " not in whitelist") h
        (NoneOf-of_any is_g (text " not in whitelist") refl))
      (NoneOf-of_any is_g (text "\",\"code\":403}") refl))
report_text-unflagged empty_whitelist h = refl
report_text-unflagged invalid_leverage h = refl
report_text-unflagged invalid_slippage h = refl

module _ (s : AgentServer) (amount : Float) (target : Text) where
  interpret_answer-unflagged :
      (m : Text) (t : Acts)
      → includes m (text "guardrail") ≡ false
      → is_empty m ≡ false
      → interpret_answer s (error_object m) t
        ≡ (ok (with_result s (error_object m) (text "Proxy response: " ++ m)), t)
  unfolding interpret_answer property get_field fields_of text text_eq is_truthy includes_text lift
      pure ◌>>=◌ to_text
  interpret_answer-unflagged m t h k =
      ap
        (λ b.
          (if not b
              then (lift (ok (includes m (text "guardrail"))) >>= λ has_word.
                  pure (with_result s (error_object m) (error_meaning s (str m) has_word)))
              else interpret_success s (error_object m))
            t)
        k
      ∙ ap (λ b. (ok (with_result s (error_object m) (error_meaning s (str m) b)), t)) h

  -- Where the proxy refuses a simulated payment for a violated rule, and the report names no target or
  -- one without the letter g, the tool does not say that the payment was blocked: it passes on the
  -- proxy's response, as for any other failure.
  pub simulate_payment_unflagged :
      (t : Acts) (id url : Text) (v : ProxyViolation)
      → present s.demo_agent_id ≡ some id
      → present s.proxy_url ≡ some url
      → IsPlain v
      → let req =
          proxy_request s url
            (text "POST")
            (text "/proxy")
            (some (payment_body s id amount target)) in
        s.network t req ≡ answered (record { status = 403; body = some (report_text v) })
        → simulate_payment s amount target t ≡ (
          ok (
              with_result s
                (error_object (answer_text v))
                (text "Proxy response: " ++ answer_text v)),
          fetched req ∷ t,
        )
  unfolding simulate_payment proxy_fetch get_demo_agent_id get_proxy_url error_of lift ◌>>=◌ decimal
      text
  simulate_payment_unflagged t id url v e g plain h =
      let req =
        proxy_request s url (text "POST") (text "/proxy")
          (some (payment_body s id amount target)) in
      ap
        (λ o.
          (lift (required (text "DEMO_AGENT_ID not configured — agent demo disabled") o) >>= λ i.
          proxy_fetch s (text "POST") (text "/proxy") (some (payment_body s i amount target))
          >>= λ r. interpret_answer s r)
            t)
        e
      ∙ (ap
            (λ o.
              ((lift (required (text "PROXY_URL environment variable is not configured") o) >>= λ u.
              reach s (
                proxy_request s u (text "POST") (text "/proxy")
                  (some (payment_body s id amount target)))
              >>= λ rep. lift (settled s rep))
                  >>= λ r. interpret_answer s r)
                t)
            g
          ∙ (ap (λ rep. (lift (settled s rep) >>= λ r. interpret_answer s r) (fetched req ∷ t)) h
              ∙ interpret_answer-unflagged (answer_text v) (fetched req ∷ t)
                  (report_text-unflagged v plain) refl))
