-- ===== src/Dashboard/SignIn/Parts.antt =====
-- What the parts of signing in had, where what follows them was reached.
use x402guard.Base.{
  ℕ, ◌==◌, ◌&&◌, any, Bool, true, false, Option, some, List, ◌∷◌, get_or, ◌≡◌, refl, sym, ap, ◌⊎◌,
  inl, inr, if◌then◌else◌,
}
use x402guard.Js.Text.{Text, text}
use x402guard.Js.Json.{Json}
use x402guard.Sdk.Errors.{error, Result, ok, throw, property}
use x402guard.Dashboard.Agent.Values.{is_truthy, optional_field}
use x402guard.Dashboard.SignIn.{
  Response, Wallet, Done, switched, signed, session_set, redirected, View, go, Step, pure, ◌>>=◌,
  ◌>>◌, flow_of, lift, set_status, ask, leave_with, catch, is_ok, parsed_body, allowed_chain_ids,
  base_sepolia, choose_chain, nonce_in, sign_message, session_in, enter,
}
use x402guard.Dashboard.SignIn.Went.{
  ask_went, caught_went, lift-Fails, bind-Fails, field_went, parsed_body-ok,
}

-- The wallet is on an allowed chain, at once or after a switch.
abbrev pub OnChain : Wallet → List Done → List Done → Type 0
OnChain w before start =
    (start ≡ before)
    ⊎ ((start ≡ switched base_sepolia ∷ before) × (w.switch_chain before base_sepolia ≡ ok tt))

abbrev pub is_allowed : ℕ → Bool
is_allowed chain = any (λ c. chain == c) allowed_chain_ids

-- The response has a body with the nonce.
abbrev pub Sends : Response → Option Json → Type 0
Sends r nonce =
    (body : Json) × (is_ok r.status ≡ true)
    × (r.body ≡ some body)
    × (property (text "nonce") body ≡ ok nonce)

module _ (w : Wallet) where
  module _ {κ} {B : Type κ} (f : ℕ → Step B) (b : B) (u v : View) where
    abbrev pub ChainWent : Type κ
    ChainWent =
        (chain : ℕ) × (v1 : View) × (is_allowed chain ≡ true)
        × OnChain w v.done v1.done
        × (f chain v1 ≡ (go b, u))

    pub switch_went :
        (r : Result (Unit {0})) (w1 : View)
        → (catch ((λ _. (flow_of r, w1)) >> pure base_sepolia) (λ _.
                leave_with
                  (text "Wrong network. Please switch to Base or Base Sepolia in your wallet."))
              >>= f)
            v
          ≡ (go b, u)
        → (r ≡ ok tt) × (f base_sepolia w1 ≡ (go b, u))
    unfolding pure catch leave_with ◌>>◌ ◌>>=◌
    switch_went (ok tt) w1 h = (refl, h)
    switch_went (throw e) w1 h = cc

    pub chain_if :
        (allowed : Bool) (chain : ℕ)
        → is_allowed chain ≡ allowed
        → ((if allowed
                then pure chain
                else (set_status (some (text "Switching to Base Sepolia..."))
                    >> catch
                        (ask (switched base_sepolia) (λ d. w.switch_chain d base_sepolia)
                          >> pure base_sepolia)
                        (λ _. leave_with (
                          text
                            "Wrong network. Please switch to Base or Base Sepolia in your wallet."))))
              >>= f)
            v
          ≡ (go b, u)
        → ChainWent
    unfolding pure set_status catch ask ◌>>◌ ◌>>=◌
    chain_if true chain e h = (chain, v, e, inl refl, h)
    chain_if false chain e h =
        let w1 : View = record v {
          status = some (text "Switching to Base Sepolia...");
          done = switched base_sepolia ∷ v.done;
        } in
        let (ok_, rest) = switch_went (w.switch_chain v.done base_sepolia) w1 h in
        (base_sepolia, w1, refl, inr (refl, ok_), rest)

    pub chain_went : (choose_chain w >>= f) v ≡ (go b, u) → ChainWent
    unfolding choose_chain
    chain_went h = chain_if (is_allowed (get_or w.chain_id 0)) (get_or w.chain_id 0) refl h

  module _ {κ} {B : Type κ} (f : Option Json → Step B) (b : B) (u v : View) where
    pub nonce_went :
        (r : Response)
        → (nonce_in w r >>= f) v ≡ (go b, u)
        → (nonce : Option Json) × Sends r nonce × (f nonce v ≡ (go b, u))
    nonce_went r h =
        let (good, body, parsed, nonce, found_, rest) =
          field_went f b u v (text "nonce") (is_ok r.status) (parsed_body r.body) _ (lift-Fails _)
            h in
        (nonce, (body, good, parsed_body-ok r.body body parsed, found_), rest)

    pub session_went :
        (r : Response)
        → (session_in w r >>= f) v ≡ (go b, u)
        → (body : Json) × (session : Option Json) × (is_ok r.status ≡ true)
          × (r.body ≡ some body)
          × (property (text "session") body ≡ ok session)
          × (f session v ≡ (go b, u))
    session_went r h =
        let (good, body, parsed, session, found_, rest) =
          field_went f b u v (text "session") (is_ok r.status) (parsed_body r.body) _
            (bind-Fails _ _) h in
        (body, session, good, parsed_body-ok r.body body parsed, found_, rest)

  abbrev pub enter_as : Bool → Option Json → Option Json → Step (Unit {0})
  enter_as b access refresh =
      if b
      then (ask (session_set access refresh) (λ d. w.set_session d access refresh)
          >> ask (redirected (text "/dashboard")) (λ _. ok tt))
      else lift (throw (error (text "Server returned empty session. Please try again.")))

  pub enter_if :
      (p q : Bool) (access refresh : Option Json) (v u : View)
      → enter_as (p && q) access refresh v ≡ (go tt, u)
      → (p ≡ true)
        × (q ≡ true)
        × (u.done ≡ redirected (text "/dashboard") ∷ session_set access refresh ∷ v.done)
  unfolding lift ask ◌>>◌
  enter_if false q access refresh v u h = cc
  enter_if true false access refresh v u h = cc
  enter_if true true access refresh v u h =
      let (_, _, rest) =
        ask_went (λ _. ask (redirected (text "/dashboard")) (λ _. ok tt)) tt u
          (session_set access refresh) (λ d. w.set_session d access refresh) v h in
      (refl, refl, ap (λ o. o.1.done) (sym rest))

  pub enter_went :
      (session : Option Json) (v u : View)
      → enter w session v ≡ (go tt, u)
      → (is_truthy (optional_field (text "access_token") session) ≡ true)
        × (is_truthy (optional_field (text "refresh_token") session) ≡ true)
        × (u.done
            ≡ redirected (text "/dashboard")
              ∷ session_set
                  (optional_field (text "access_token") session)
                  (optional_field (text "refresh_token") session)
              ∷ v.done)
  unfolding enter
  enter_went session v u h =
      enter_if (is_truthy (optional_field (text "access_token") session))
        (is_truthy (optional_field (text "refresh_token") session))
        (optional_field (text "access_token") session)
        (optional_field (text "refresh_token") session) v u h

  pub signature_went {κ} :
      {B : Type κ} (f : Text → Step B) (b : B) (u v : View) (message : Text)
      → (sign_message w message >>= f) v ≡ (go b, u)
      → (signature : Text) × (w.sign v.done message ≡ ok signature)
        × (f signature (record v { done = signed message ∷ v.done }) ≡ (go b, u))
  unfolding sign_message ask ◌>>=◌
  signature_went f b u v message h =
      caught_went f b u (w.sign v.done message) _ (record v { done = signed message ∷ v.done }) h
