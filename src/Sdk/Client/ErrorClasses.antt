-- ===== src/Sdk/Client/ErrorClasses.antt =====
-- Which errors the client throws.
use x402guard.Base.{
  [], ◌==◌, ℕ, ◌≡◌, refl, sym, subst, ◌⊎◌, inl, inr, Bool, true, false, Option, none, some,
  Bool-cases, Option-cases,
}
use x402guard.Js.Text.{Text, text}
use x402guard.Js.Json.{get_field, Json, null, str, obj}
use x402guard.Sdk.Errors.{
  error_string, violation_of, Thrown, type_error, x402_guard_error, guardrail_violation,
  session_key_expired, rate_limited, Result, ok, throw, property, from_api_response, bind_result,
  proxy_unreachable_error,
}
use x402guard.Sdk.Io.{◌>>◌, Response, Reply, resolved, rejected, Trace, json, is_ok}
use x402guard.Sdk.Retry.{is_type_error}
use x402guard.Sdk.Config.{Host}
use x402guard.Sdk.Client.{
  pure, catch, map_result, Client, request_of, interpret, request, health_check,
  unreachable_if_type_error, error_message,
}
use x402guard.Sdk.Client.Outcome.{verdict, request-verdict}

-- The classes that the SDK declares for an expired session key and for a 429.
abbrev pub is_unused : Thrown → Bool
is_unused (session_key_expired _) = true
is_unused (rate_limited _ _) = true
is_unused _ = false

-- A result that throws none of them.
abbrev pub Avoids : Result Json → Type 0
Avoids (ok _) = Unit
Avoids (throw e) = is_unused e ≡ false

Avoids-from_api_response :
    (body : Json)
    → Avoids (bind_result (from_api_response body) (λ v. throw (guardrail_violation v)))
unfolding from_api_response property
Avoids-from_api_response null = refl
Avoids-from_api_response (obj fs) = elim (Option-cases (get_field (text "error") fs)) [
  | inl missing ↦ rw missing refl
  | inr (v, found) ↦ rw found (of_value v)
]
  where
    of_value :
        (v : Json)
        → Avoids (
            bind_result
              (map_result violation_of (error_string (some v)))
              (λ w. throw (guardrail_violation w)))
    of_value null = refl
    of_value (str s) = refl
    of_value _ = refl
Avoids-from_api_response _ = refl

Avoids-property :
    (body : Json) (status : ℕ)
    → Avoids (
        bind_result
          (property (text "error") body)
          (λ e. throw (x402_guard_error (error_message status e) (some status))))
unfolding property
Avoids-property null status = refl
Avoids-property (obj fs) status = refl
Avoids-property _ status = refl

interpret-Avoids : (r : Response) (body : Json) → Avoids (interpret r body)
unfolding interpret
interpret-Avoids r body = elim (Bool-cases (is_ok r)) [
  | inl good ↦ rw good tt
  | inr bad ↦ rw bad (elim (Bool-cases (r.status == 403)) [
    | inl forbidden ↦ rw forbidden (Avoids-from_api_response body)
    | inr failed ↦ rw failed (Avoids-property body r.status)
  ])
]

json-Avoids : (r : Response) → Avoids (json r)
json-Avoids r = elim (Option-cases r.body) [
  | inl no_json ↦ rw no_json refl
  | inr (v, parsed) ↦ rw parsed tt
]

bind-Avoids : (r : Response) (m : Result Json) → Avoids m → Avoids (bind_result m (interpret r))
bind-Avoids r (ok v) h = interpret-Avoids r v
bind-Avoids r (throw e) h = h

verdict-Avoids :
    (c : Client) (rep : Reply)
    → ((e : Thrown) → rep ≡ rejected e → is_unused e ≡ false)
    → Avoids (verdict c rep)
unfolding proxy_unreachable_error
verdict-Avoids c (resolved r) h = bind-Avoids r (json r) (json-Avoids r)
verdict-Avoids c (rejected (type_error m)) h = refl
verdict-Avoids c (rejected e) h = h _ refl

-- True, or thrown and no `TypeError`.
abbrev pub IsHealth : Result Bool → Type 0
IsHealth r = (r ≡ ok true) ⊎ ((e : Thrown) × (r ≡ throw e) × (is_type_error e ≡ false))

catch-IsHealth :
    (c : Client) (out : Result Json × Trace)
    → IsHealth (catch ((λ _. out) >> pure true) (unreachable_if_type_error c) []).0
unfolding unreachable_if_type_error proxy_unreachable_error
catch-IsHealth c (ok v, t) = inl refl
catch-IsHealth c (throw (type_error m), t) = inr (_, refl, refl)
catch-IsHealth c (throw _, t) = inr (_, refl, refl)

module _ (host : Host) (c : Client) where
  -- As long as `fetch` itself does not reject with them, a request throws neither a
  -- `RateLimitedError` nor a `SessionKeyExpiredError`, whatever the proxy answers.
  pub request-Avoids :
      (method path : Text) (body : Option Json) (t : Trace)
      → ((u : Trace) (e : Thrown)
          → host.network u (request_of c method path body) ≡ rejected e
          → is_unused e ≡ false)
      → Avoids (request host c method path body t).0
  request-Avoids method path body t h =
      let (before, last, got, most, least, why) = request-verdict host c method path body t in
      subst Avoids (sym got)
        (verdict-Avoids c (host.network before (request_of c method path body)) (h before))

  -- The health check returns true or throws, and never throws a `TypeError`.
  pub health_check_lem : (t : Trace) → IsHealth (health_check host c t).0
  unfolding health_check
  health_check_lem t = catch-IsHealth c (request host c (text "GET") (text "/health") none t)
