-- ===== src/Adapters/Cod3x/Laws.antt =====
-- What the Cod3x adapter adds to the client, and what it leaves as it is.
use x402guard.Base.{
  ◌≡◌, refl, sym, ap, ◌∙◌, inl, inr, true, false, Bool-cases, Option, some, [], ◌∷◌, get_or,
  or_else, if◌then◌else◌,
}
use x402guard.Js.Text.{Text, text, text_eq}
use x402guard.Js.Text.Laws.{text_eq_iff}
use x402guard.Js.Json.{Json, Fields, str, obj, end, field, get_field, set_field}
use x402guard.Sdk.Errors.{Result, ok}
use x402guard.Sdk.Io.{◌>>=◌, pure, Trace, Response, resolved, logged, called, info, is_ok}
use x402guard.Sdk.Types.{proxy_request_json}
use x402guard.Sdk.Config.{Host}
use x402guard.Sdk.Config.Laws.{new_client-IsValid}
use x402guard.Sdk.Client.{Client, new_client, request_of, proxy_payment}
use x402guard.Sdk.Client.Outcome.{request_accepted}
use x402guard.Adapters.Cod3x.{
  Adapter, AdapterConfig, PaymentRequest, client_config, new_adapter, guarded, guarded_execute,
  security_headers, spread,
}

not_twice : (i k j : Text) → text_eq i k ≡ false → text_eq i j ≡ true → text_eq k j ≡ false
not_twice i k j differ hit = elim (Bool-cases (text_eq k j)) [
  | inl other ↦
      cc (differ, (text_eq_iff i k).1 ((text_eq_iff i j).0 hit ∙ sym ((text_eq_iff k j).0 other)))
  | inr miss ↦ miss
]

-- Reading a property of an object after one was set.
pub get_field-set_field :
    (k j : Text) (v : Json) (fs : Fields)
    → get_field j (set_field k v fs) ≡ (if text_eq k j then some v else get_field j fs)
unfolding get_field set_field
get_field-set_field k j v end = refl
get_field-set_field k j v (field i w fs) = elim (Bool-cases (text_eq i k)) [
  | inl same ↦
      let e = (text_eq_iff i k).0 same in
      rw (same, set_field, get_field, e)
        (elim (Bool-cases (text_eq k j)) [ inl hit ↦ rw hit refl | inr miss ↦ rw miss refl ])
  | inr differ ↦
      rw (differ, set_field, get_field)
        (elim (Bool-cases (text_eq i j)) [
          | inl hit ↦ rw (hit, not_twice i k j differ hit)
          | inr miss ↦ rw miss (get_field-set_field k j v fs)
        ])
]

-- What `guardedExecute` does with the outcome of the payment.
abbrev guard_outcome : Result Json × Trace → Result Json × Trace
guard_outcome out = ((λ _. out) >>= λ response. pure (guarded response)) []

module _ (host : Host) (a : Adapter) where
  -- A guarded payment that the proxy accepts on the first attempt sends one request, the same for
  -- every session id, and its result has `guardedBy` equal to "x402guard" and every other property
  -- as in the proxy's answer.
  pub guarded_execute_accepted :
      (p : PaymentRequest) (t : Trace) (r : Response) (v : Json)
      → let before = logged info (text "Executing guarded Cod3x payment") ∷ t in
        let sent =
          request_of a.client (text "POST") (text "/proxy") (some (proxy_request_json p.request)) in
        host.network before sent ≡ resolved r
        → is_ok r ≡ true
        → r.body ≡ some v
        → (fs : Fields) × (guarded_execute host a p t ≡ (ok (obj fs), called sent ∷ before))
          × ((j : Text)
              → get_field j fs ≡ (
                  if text_eq (text "guardedBy") j
                  then some (str (text "x402guard"))
                  else get_field j (spread v)))
  unfolding guarded_execute guarded proxy_payment
  guarded_execute_accepted p t r v answer good body =
      let before = logged info (text "Executing guarded Cod3x payment") ∷ t in
      (
        set_field (text "guardedBy") (str (text "x402guard")) (spread v),
        ap (λ out. guard_outcome out)
            (request_accepted host a.client (text "POST") (text "/proxy")
              (some (proxy_request_json p.request)) before r v answer good body),
        λ j. get_field-set_field (text "guardedBy") j (str (text "x402guard")) (spread v),
      )

-- The agent that the security worker names is the configured one or empty, whereas the client of
-- the same adapter takes its agent from the environment where none is configured.
pub new_adapter_agent :
    (host : Host) (new_logger : Option Text → Result (Unit {0})) (config : AdapterConfig)
    (client : Client) (t : Trace)
    → new_logger config.log_level ≡ ok tt
    → new_client host (client_config config) ≡ ok client
    → (a : Adapter) × (new_adapter host new_logger config t
        ≡ (ok a, logged info (text "Cod3x adapter initialized") ∷ t))
      × (security_headers a ≡ (text "X-Agent-Id", get_or config.agent_id []) ∷ [])
      × (a.client.config.agent_id ≡ or_else config.agent_id host.env_agent_id)
unfolding new_adapter security_headers
new_adapter_agent host new_logger config client t known built =
    let (_, _, agent, _, _) = new_client-IsValid host (client_config config) client built in
    (record { client = client; config = config }, rw (known, built), refl, sym agent)
