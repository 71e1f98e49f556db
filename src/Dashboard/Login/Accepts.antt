-- ===== src/Dashboard/Login/Accepts.antt =====
-- A verified request to log in gets a session.
use x402guard.Base.{◌≡◌, refl, ap, ◌∙◌, true, Option, some, none, ◌∷◌}
use x402guard.Js.Text.{Text, text, includes}
use x402guard.Js.Json.{Json}
use x402guard.Sdk.Errors.{Result, ok, throw, property}
use x402guard.Adapters.Openclaw.{present}
use x402guard.Dashboard.Login.{
  Incoming, Calls, signed_in, user_created, SignIn, LoginServer, Answer, session, Auth, pure, lift,
  ◌>>=◌, check_auth_rate_limit, email_of, call_sign_in, call_create_user, register_wallet,
  authenticate, accept, json_body, attempt, recovered, after_limit, post,
}
use x402guard.Dashboard.Login.Safety.{Verified}

module _ {ℓ κ} {A : Type ℓ} {B : Type κ} (f : A → Auth B) where
  bind_ok : (m : Auth A) (a : A) (t u : Calls) → m t ≡ (ok a, u) → (m >>= f) t ≡ f a u
  unfolding ◌>>=◌
  bind_ok m a t u h = ap (λ o. ((λ _. o) >>= f) t) h

  lift_ok : (r : Result A) (a : A) (t : Calls) → r ≡ ok a → (lift r >>= f) t ≡ f a t
  unfolding lift
  lift_ok r a t h = bind_ok (lift r) a t t (ap (λ o. (o, t)) h)

-- What a sign-in gives that has a session.
abbrev pub opened : Json → SignIn
opened v = record { failure = none; session = some v }

module _ (s : LoginServer) (wallet password : Text) (t : Calls) (v : Json) where
  -- Supabase knows the wallet, or lets it be created.
  pub data SignsIn : Type 0 where
    known : s.sign_in t (email_of wallet) password ≡ ok (opened v) → SignsIn
    created :
        (message : Text) (o : Option Json)
        → s.sign_in t (email_of wallet) password
          ≡ ok (record { failure = some message; session = o })
        → includes message (text "Invalid login credentials") ≡ true
        → s.create_user (signed_in (email_of wallet) password ∷ t) (email_of wallet) password wallet
          ≡ ok none
        → s.sign_in
            (user_created (email_of wallet) password wallet
              ∷ signed_in (email_of wallet) password
              ∷ t)
            (email_of wallet)
            password
          ≡ ok (opened v)
        → SignsIn

module _ (s : LoginServer) (secret wallet : Text) (t : Calls) (v : Json) where
  -- A wallet that has just been created.
  register_wallet-session :
      (password : Text)
      → s.create_user t (email_of wallet) password wallet ≡ ok none
      → s.sign_in (user_created (email_of wallet) password wallet ∷ t) (email_of wallet) password
        ≡ ok (opened v)
      → (register_wallet s wallet password t).0 ≡ ok (session v)
  unfolding register_wallet call_create_user call_sign_in ◌>>=◌ pure
  register_wallet-session password made h = rw made (rw h refl)

module _ (s : LoginServer) (secret wallet : Text) (t : Calls) (v : Json) where
  authenticate-session :
      SignsIn s wallet (s.hmac_hex secret wallet) t v
      → (authenticate s secret wallet t).0 ≡ ok (session v)
  unfolding authenticate call_sign_in ◌>>=◌ pure
  authenticate-session (known h) = rw h refl
  authenticate-session (created message o h unknown made h') = rw h (
      rw unknown (
        register_wallet-session s secret wallet
          (signed_in (email_of wallet) (s.hmac_hex secret wallet) ∷ t) v (s.hmac_hex secret wallet)
          made h'))

module _ (s : LoginServer) (req : Incoming) (verified : Verified s req) (secret : Text)
    (v : Json) where
  abbrev pub account_of : Text
  account_of = s.to_lower_case verified.siwe.address

  accept-session :
      (t : Calls)
      → SignsIn s account_of (s.hmac_hex secret account_of) t v
      → (accept s secret verified.siwe t).0 ≡ ok (session v)
  unfolding accept
  accept-session t signs =
      rw (verified.success, verified.chain) (authenticate-session s secret account_of t v signs)

  recovered-ok :
      (out : Result Answer × Calls) → out.0 ≡ ok (session v) → (recovered s out).0 ≡ session v
  recovered-ok (ok a, u) h = cc
  recovered-ok (throw e, u) h = cc

  attempt-session :
      (t : Calls)
      → present s.wallet_secret ≡ some secret
      → SignsIn s account_of (s.hmac_hex secret account_of) t v
      → (attempt s req t).0 ≡ ok (session v)
  unfolding attempt
  attempt-session t has_secret signs =
      rw (verified.same_site, has_secret)
        (ap (λ o. o.0)
            (lift_ok _ (json_body s req.body) verified.body t verified.parsed
              ∙ (lift_ok _ (property (text "message") verified.body) verified.message t
                    verified.has_message
                  ∙ lift_ok _ (property (text "signature") verified.body) verified.signature t
                      verified.has_signature))
          ∙ rw verified.has_nonce (
              ap (λ o. o.0)
                (lift_ok (accept s secret)
                  (s.verify_message verified.message verified.signature verified.nonce)
                  verified.siwe t verified.checked)
              ∙ accept-session t signs))

  -- A verified request whose wallet supabase knows, or lets be created, gets the session.
  pub post-session :
      (t u : Calls)
      → check_auth_rate_limit s req (text "verify") t ≡ (none, u)
      → present s.wallet_secret ≡ some secret
      → SignsIn s account_of (s.hmac_hex secret account_of) u v
      → (post s req t).0 ≡ session v
  unfolding post
  post-session t u passed has_secret signs =
      ap (λ o. (after_limit s req o).0) passed
      ∙ recovered-ok (attempt s req u) (attempt-session u has_secret signs)
