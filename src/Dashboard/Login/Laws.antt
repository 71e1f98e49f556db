-- ===== src/Dashboard/Login/Laws.antt =====
-- Who gets a session.
use x402guard.Base.{
  ◌≡◌, refl, ◌∙◌, sym, ap, Bool, true, false, Option, some, none, [], ◌∷◌, ◌++◌, append_assoc, All,
  All-append, if◌then◌else◌,
}
use x402guard.Js.Text.{Text, text, includes}
use x402guard.Sdk.Errors.{Result, ok, throw}
use x402guard.Dashboard.Login.{
  Call, limited, signed_in, user_created, Calls, SignIn, LoginServer, refused, Auth, pure, ◌>>=◌,
  email_of, call_sign_in, call_create_user, answer_with, new_user_answer, register_wallet,
  authenticate,
}

-- A call that concerns no other account than the wallet's.
abbrev pub IsFor : Text → Call → Type 0
IsFor wallet (limited id) = Unit
IsFor wallet (signed_in email password) = email ≡ email_of wallet
IsFor wallet (user_created email password w) = (email ≡ email_of wallet) × (w ≡ wallet)

module _ (s : LoginServer) (wallet : Text) where
  abbrev pub Adds : Calls → Calls → Type 0
  Adds t u = (new : Calls) × (u ≡ new ++ t) × All (IsFor wallet) new

  Adds-trans : (t u v : Calls) → Adds t u → Adds u v → Adds t v
  Adds-trans t u v (new, e, h) (more, g, k) = (
    more ++ new,
    g ∙ (ap (λ x. more ++ x) e ∙ sym (append_assoc more new t)),
    All-append (IsFor wallet) more new k h,
  )

  abbrev pub Stays {ℓ} : {A : Type ℓ} → Auth A → Type 0
  Stays m = (t : Calls) → Adds t (m t).1

  Stays-pure {ℓ} : {A : Type ℓ} (a : A) → Stays (pure a)
  unfolding pure
  Stays-pure a t = ([], refl, tt)

  module _ {ℓ κ} {A : Type ℓ} {B : Type κ} (f : A → Auth B) (h : (a : A) → Stays (f a)) where
    after_bind :
        (t : Calls) (out : Result A × Calls) → Adds t out.1 → Adds t (((λ _. out) >>= f) []).1
    unfolding ◌>>=◌
    after_bind t (ok a, u) e = Adds-trans t u _ e (h a u)
    after_bind t (throw x, u) e = e

    Stays->>= : (m : Auth A) → Stays m → Stays (m >>= f)
    unfolding ◌>>=◌
    Stays->>= m g t = after_bind t (m t) (g t)

  Stays-call_sign_in : (password : Text) → Stays (call_sign_in s (email_of wallet) password)
  unfolding call_sign_in
  Stays-call_sign_in password t = (signed_in (email_of wallet) password ∷ [], refl, (refl, tt))

  Stays-call_create_user :
      (password : Text) → Stays (call_create_user s (email_of wallet) password wallet)
  unfolding call_create_user
  Stays-call_create_user password t =
      (user_created (email_of wallet) password wallet ∷ [], refl, ((refl, refl), tt))

  Stays-register_wallet : (password : Text) → Stays (register_wallet s wallet password)
  unfolding register_wallet
  Stays-register_wallet password =
      Stays->>= _ after_creation (call_create_user s (email_of wallet) password wallet)
        (Stays-call_create_user password)
    where
      after_creation :
          (problem : Option Text)
          → Stays (elim problem [
            | some _ ↦ pure (refused 500 (text "Failed to create user account"))
            | none ↦ (do r ← call_sign_in s (email_of wallet) password; pure (new_user_answer s r))
          ])
      after_creation (some _) = Stays-pure _
      after_creation none =
          Stays->>= _ (λ r. Stays-pure _) (call_sign_in s (email_of wallet) password)
            (Stays-call_sign_in password)

  pub Stays-authenticate : (secret : Text) → Stays (authenticate s secret wallet)
  unfolding authenticate
  Stays-authenticate secret =
      Stays->>= _ (λ r. next r r.failure)
        (call_sign_in s (email_of wallet) (s.hmac_hex secret wallet))
        (Stays-call_sign_in (s.hmac_hex secret wallet))
    where
      unknown :
          (b : Bool)
          → Stays (
              if b
              then register_wallet s wallet (s.hmac_hex secret wallet)
              else pure (refused 500 (text "Authentication failed")))
      unknown true = Stays-register_wallet (s.hmac_hex secret wallet)
      unknown false = Stays-pure _

      next :
          (r : SignIn) (failure : Option Text)
          → Stays (elim failure [
            | none ↦ pure (answer_with s (text "No session returned") r)
            | some message ↦
                (if includes message (text "Invalid login credentials")
                  then register_wallet s wallet (s.hmac_hex secret wallet)
                  else pure (refused 500 (text "Authentication failed")))
          ])
      next r none = Stays-pure _
      next r (some message) = unknown (includes message (text "Invalid login credentials"))
