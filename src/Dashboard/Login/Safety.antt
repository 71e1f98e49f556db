-- ===== src/Dashboard/Login/Safety.antt =====
-- Only a verified message on an allowed chain leads to an account or a session.
use x402guard.Base.{
  sym, subst, ℕ, ◌≡◌, refl, ◌⊎◌, inl, inr, Bool, true, false, Option, some, none, if◌then◌else◌,
}
use x402guard.Js.Text.{Text, text}
use x402guard.Js.Number.{ℤ}
use x402guard.Js.Json.{Json}
use x402guard.Sdk.Errors.{Result, ok, throw, property}
use x402guard.Adapters.Openclaw.{present}
use x402guard.Dashboard.Login.{
  Incoming, Calls, SiweResult, LoginServer, Answer, refused, too_many, session, Auth, pure, lift,
  ◌>>=◌, check_auth_rate_limit, is_foreign, is_allowed_chain, authenticate, accept, json_body,
  attempt, recovered, after_limit, post,
}
use x402guard.Dashboard.Login.Laws.{Adds, Stays-authenticate}

abbrev pub is_session : Result Answer → Bool
is_session (ok (session _)) = true
is_session _ = false

-- The request comes from the site itself and carries a message whose signature and nonce siwe
-- accepts, for an allowed chain.
pub record Verified (s : LoginServer) (req : Incoming) : Type 0 where
  pub body : Json
  pub message : Option Json
  pub signature : Option Json
  pub nonce : Text
  pub siwe : SiweResult
  pub same_site : is_foreign req ≡ false
  pub parsed : json_body s req.body ≡ ok body
  pub has_message : property (text "message") body ≡ ok message
  pub has_signature : property (text "signature") body ≡ ok signature
  pub has_nonce : present req.nonce_cookie ≡ some nonce
  pub checked : s.verify_message message signature nonce ≡ ok siwe
  pub success : siwe.success ≡ true
  pub chain : is_allowed_chain siwe.chain_id ≡ true

-- There is no session and no account was touched; or the message is verified, and every call since
-- is for the account of the wallet that signed it.
abbrev pub Safe : LoginServer → Incoming → Calls → Result Answer × Calls → Type 0
Safe s req t (r, t') =
    ((is_session r ≡ false) × (t' ≡ t))
    ⊎ ((v : Verified s req) × Adds s (s.to_lower_case v.siwe.address) t t')

module _ (s : LoginServer) (req : Incoming) (t : Calls) where
  on_lift {ℓ} :
      {A : Type ℓ} (r : Result A) (f : A → Auth Answer)
      → ((a : A) → r ≡ ok a → Safe s req t (f a t))
      → Safe s req t ((lift r >>= f) t)
  unfolding lift ◌>>=◌
  on_lift (ok a) f h = h a refl
  on_lift (throw e) f h = inl (refl, refl)

  on_option {ℓ} :
      {A : Type ℓ} (o : Option A) (code : ℕ) (complaint : Text) (f : A → Auth Answer)
      → ((a : A) → o ≡ some a → Safe s req t (f a t))
      → Safe s req t
          ((elim o as (λ _. Auth Answer) [ none ↦ pure (refused code complaint) | some a ↦ f a ]) t)
  unfolding pure
  on_option none code complaint f h = inl (refl, refl)
  on_option (some a) code complaint f h = h a refl

  on_true :
      (b : Bool) (code : ℕ) (complaint : Text) (m : Auth Answer)
      → (b ≡ true → Safe s req t (m t))
      → Safe s req t ((if b then m else pure (refused code complaint)) t)
  unfolding pure
  on_true true code complaint m h = h refl
  on_true false code complaint m h = inl (refl, refl)

  on_false :
      (b : Bool) (code : ℕ) (complaint : Text) (m : Auth Answer)
      → (b ≡ false → Safe s req t (m t))
      → Safe s req t ((if b then pure (refused code complaint) else m) t)
  unfolding pure
  on_false true code complaint m h = inl (refl, refl)
  on_false false code complaint m h = h refl

  accept-Safe :
      (secret : Text) (siwe : SiweResult)
      → (siwe.success ≡ true
          → is_allowed_chain siwe.chain_id ≡ true
          → (v : Verified s req) × (v.siwe ≡ siwe))
      → Safe s req t (accept s secret siwe t)
  unfolding accept
  accept-Safe secret siwe h = on_true siwe.success 401 (text "Invalid signature") _ λ good.
      on_true (is_allowed_chain siwe.chain_id) 403 _
        (authenticate s secret (s.to_lower_case siwe.address))
        λ chain.
          let (v, same) = h good chain in
          inr (
            v,
            subst
                (λ x.
                  Adds s (s.to_lower_case x.address) t
                    (authenticate s secret (s.to_lower_case siwe.address) t).1)
                (sym same) (Stays-authenticate s (s.to_lower_case siwe.address) secret t),
          )

  attempt-Safe : Safe s req t (attempt s req t)
  unfolding attempt
  attempt-Safe = on_false (is_foreign req) 403 (text "Invalid origin") _ λ same_site.
      on_option (present s.wallet_secret) 500 (text "Server configuration error") _ λ secret _.
        on_lift (json_body s req.body) _ λ body parsed.
          on_lift (property (text "message") body) _ λ message has_message.
            on_lift (property (text "signature") body) _ λ signature has_signature.
              on_option (present req.nonce_cookie) 400
                (text "No nonce found. Request a new nonce first.") _
                λ nonce has_nonce.
                  on_lift (s.verify_message message signature nonce) _ λ siwe checked.
                    accept-Safe secret siwe λ success chain. (
                      record {
                        body = body;
                        message = message;
                        signature = signature;
                        nonce = nonce;
                        siwe = siwe;
                        same_site = same_site;
                        parsed = parsed;
                        has_message = has_message;
                        has_signature = has_signature;
                        has_nonce = has_nonce;
                        checked = checked;
                        success = success;
                        chain = chain;
                      },
                      refl,
                    )

  recovered-Safe :
      (out : Result Answer × Calls)
      → Safe s req t out
      → let (a, u) = recovered s out in Safe s req t (ok a, u)
  recovered-Safe (ok a, u) h = h
  recovered-Safe (throw e, u) (inl (denied, same)) = inl (refl, same)
  recovered-Safe (throw e, u) (inr v) = inr v

abbrev pub limiter_of : LoginServer → Incoming → Calls → Option ℤ × Calls
limiter_of s req t = check_auth_rate_limit s req (text "verify") t

-- The limiter blocks the request, which ends there; or it lets the request pass, which is safe from
-- there on.
abbrev pub Granted : LoginServer → Incoming → Calls → Answer × Calls → Type 0
Granted s req t (a, t') =
    (u : Calls) × ((((wait : ℤ) × (limiter_of s req t ≡ (some wait, u))
        × (a ≡ too_many wait)
        × (t' ≡ u)))
      ⊎ ((limiter_of s req t ≡ (none, u)) × Safe s req u (ok a, t')))

module _ (s : LoginServer) (req : Incoming) where
  after_limit-Safe :
      (t : Calls) (out : Option ℤ × Calls)
      → limiter_of s req t ≡ out
      → Granted s req t (after_limit s req out)
  after_limit-Safe t (some seconds, u) e = (u, inl (seconds, e, refl, refl))
  after_limit-Safe t (none, u) e =
      (u, inr (e, recovered-Safe s req u (attempt s req u) (attempt-Safe s req u)))

  -- A request to log in that the limiter blocks is answered with 429 and nothing else happens. One
  -- that passes gets a session or touches an account only if its `Origin` contains its host (where
  -- both are given) and siwe accepts its message with its signature and the nonce of the cookie, for
  -- an allowed chain; and then all calls are for the account of the wallet that signed.
  pub post-Safe : (t : Calls) → Granted s req t (post s req t)
  unfolding post
  post-Safe t = after_limit-Safe t (limiter_of s req t) refl
