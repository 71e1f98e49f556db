-- ===== src/Sdk/Client/Outcome.antt =====
-- What a request of the client comes to, on any network.
use x402guard.Base.{
  true, sym, subst, ap, ◌∙◌, ℕ, suc, ◌+◌, ◌≤◌, ◌<◌, ◌≡◌, refl, ◌⊎◌, inl, inr, Bool, false, Option,
  some, [], ◌∷◌, arith,
}
use x402guard.Js.Text.{Text}
use x402guard.Js.Json.{Json}
use x402guard.Sdk.Errors.{
  type_error, guardrail_violation, Result, throw, bind_result, proxy_unreachable_error,
}
use x402guard.Sdk.Errors.Messages.{ProxyViolation, print, framed, error_body}
use x402guard.Sdk.Errors.RoundTrip.Formats.{
  IsReadable, rule_of, limit_of, actual_of, from_api_response-print,
}
use x402guard.Sdk.Io.{
  Request, Response, Reply, resolved, rejected, catch, lift, ◌>>=◌, Trace, called, count_calls,
  settle, json,
}
use x402guard.Sdk.Retry.{fetch_with_retry}
use x402guard.Sdk.Retry.Laws.{fetch_with_retry_first, is_retryable, fetch_with_retry-Ends}
use x402guard.Sdk.Config.{Host}
use x402guard.Sdk.Client.{
  ok, is_ok, Client, retry_config, request_of, interpret, request, unreachable_if_type_error,
}

-- What the caller should see of the network's last answer.
abbrev pub verdict : Client → Reply → Result Json
verdict c (resolved r) = bind_result (json r) (interpret r)
verdict c (rejected (type_error m)) = throw (proxy_unreachable_error c.base_url (some m))
verdict c (rejected e) = throw e

verdict_accepted :
    (c : Client) (r : Response) (v : Json)
    → is_ok r ≡ true
    → r.body ≡ some v
    → verdict c (resolved r) ≡ ok v
unfolding interpret
verdict_accepted c r v good body = rw (body, good)

accepted_is_final : (r : Response) → is_ok r ≡ true → is_retryable (resolved r) ≡ false
accepted_is_final r good = ground arith

module _ (host : Host) (c : Client) (method path : Text) (body : Option Json) where
  abbrev sent : Request
  sent = request_of c method path body

  -- What `request` does with the outcome of `fetchWithRetry`.
  abbrev finish : Result Response × Trace → Result Json × Trace
  finish out =
      (do
        response ← catch (λ _. out) (unreachable_if_type_error c)
        parsed ← lift (json response)
        lift (interpret response parsed))
        []

  finish-settle :
      (rep : Reply) (before : Trace)
      → finish (settle rep, called sent ∷ before) ≡ (verdict c rep, called sent ∷ before)
  unfolding unreachable_if_type_error
  finish-settle (resolved r) before = ground arith
  finish-settle (rejected (type_error m)) before = refl
  finish-settle (rejected _) before = refl

  request-finish :
      (t : Trace)
      → request host c method path body t
        ≡ finish (fetch_with_retry host.network (retry_config c) sent t)
  unfolding request
  request-finish t = refl

  request-settle :
      (t : Trace) (rep : Reply) (before : Trace)
      → fetch_with_retry host.network (retry_config c) sent t ≡ (settle rep, called sent ∷ before)
      → request host c method path body t ≡ (verdict c rep, called sent ∷ before)
  request-settle t rep before e = request-finish t ∙ (ap finish e ∙ finish-settle rep before)

  -- Whatever the network does, the outcome of a request is the verdict on the last answer: at least
  -- one and at most `maxRetries + 1` copies of the same request are sent, and fewer only if that
  -- answer is neither a 429 nor a network error.
  pub request-verdict :
      (t : Trace)
      → let (r, t') = request host c method path body t in
        (before : Trace) × (t' ≡ called sent ∷ before)
        × (r ≡ verdict c (host.network before sent))
        × (count_calls t' ≤ count_calls t + suc c.config.max_retries)
        × (count_calls t < count_calls t')
        × ((count_calls t' ≡ count_calls t + suc c.config.max_retries)
            ⊎ (is_retryable (host.network before sent) ≡ false))
  request-verdict t =
      let (before, last, got, most, least, why) =
        fetch_with_retry-Ends host.network (retry_config c) sent t in
      let whole = request-settle t (host.network before sent) before (λ i. (got i, last i)) in
      let trace : (request host c method path body t).1 ≡ called sent ∷ before =
        ap (λ o. o.1) whole in
      let (most', least', why') =
        subst
          (λ u.
            (count_calls u ≤ count_calls t + suc c.config.max_retries)
            × (count_calls t < count_calls u)
            × ((count_calls u ≡ count_calls t + suc c.config.max_retries)
                ⊎ (is_retryable (host.network before sent) ≡ false)))
          (last ∙ sym trace) (most, least, why) in
      (before, trace, ap (λ o. o.0) whole, most', least', why')

  -- A first answer that is neither a 429 nor a network error is the last one: a single request is
  -- sent, with no wait and no log line.
  pub request_first :
      (t : Trace)
      → is_retryable (host.network t sent) ≡ false
      → request host c method path body t ≡ (verdict c (host.network t sent), called sent ∷ t)
  request_first t final =
      request-settle t (host.network t sent) t
        (fetch_with_retry_first host.network (retry_config c) sent t final)

  -- A first answer with a status of success and a JSON body is returned after a single request.
  pub request_accepted :
      (t : Trace) (r : Response) (v : Json)
      → host.network t sent ≡ resolved r
      → is_ok r ≡ true
      → r.body ≡ some v
      → request host c method path body t ≡ (ok v, called sent ∷ t)
  request_accepted t r v answer good parsed =
      request_first t (ap is_retryable answer ∙ accepted_is_final r good) ∙ λ i.
      ((ap (verdict c) answer ∙ verdict_accepted c r v good parsed) i, called sent ∷ t)

  pub request_violation :
      (t : Trace) (b : Bool) (v : ProxyViolation) (code : ℕ) (header : Option Text)
      → IsReadable v
      → host.network t sent
        ≡ resolved (record {
          status = 403;
          retry_after = header;
          body = some (error_body (framed b (print v)) code);
        })
      → request host c method path body t ≡ (
        throw (
            guardrail_violation (record {
              message = framed b (print v);
              rule_type = rule_of v;
              limit = limit_of v;
              actual = actual_of v;
            })),
        called sent ∷ t,
      )
  unfolding interpret
  request_violation t b v code header h answer =
      request_first t (rw answer refl) ∙ rw answer (rw (from_api_response-print b v code h))

  -- On a network that only fails with a `TypeError`, the error names the proxy's URL, after
  -- `maxRetries + 1` requests.
  pub request_offline :
      (t : Trace) (m : Text)
      → ((u : Trace) → host.network u sent ≡ rejected (type_error m))
      → let (r, t') = request host c method path body t in
        (r ≡ throw (proxy_unreachable_error c.base_url (some m)))
        × (count_calls t' ≡ count_calls t + suc c.config.max_retries)
  request_offline t m offline =
      let (before, last, got, most, least, why) = request-verdict t in
      (
        got ∙ ap (verdict c) (offline before),
        elim why [ inl all ↦ all | inr final ↦ cc (final, ap is_retryable (offline before)) ],
      )
