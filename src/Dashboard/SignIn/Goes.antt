-- ===== src/Dashboard/SignIn/Goes.antt =====
-- How the steps of signing in go where the wallet and the server do their part.
use x402guard.Base.{◌≡◌, refl, ap, ◌∙◌, true, Option, some, List, ◌∷◌, get_or}
use x402guard.Js.Text.{Text, text}
use x402guard.Js.Json.{Json}
use x402guard.Sdk.Errors.{Result, ok, property}
use x402guard.Dashboard.Agent.Values.{is_truthy, optional_field}
use x402guard.Dashboard.SignIn.{
  message_of, wallet_complaint, Response, Wallet, Done, signed, session_set, redirected, View, go,
  Step, pure, ◌>>=◌, ◌>>◌, flow_of, lift, ask, leave_with, catch, is_ok, parsed_body, choose_chain,
  nonce_in, sign_message, session_in, enter,
}
use x402guard.Dashboard.SignIn.Parts.{is_allowed}

module _ {ℓ κ} {A : Type ℓ} {B : Type κ} (f : A → Step B) where
  pub bind_goes : (m : Step A) (a : A) (v u : View) → m v ≡ (go a, u) → (m >>= f) v ≡ f a u
  unfolding ◌>>=◌
  bind_goes m a v u h = ap (λ o. ((λ _. o) >>= f) v) h

  pub lift_goes : (r : Result A) (a : A) (v : View) → r ≡ ok a → (lift r >>= f) v ≡ f a v
  unfolding lift
  lift_goes r a v h = bind_goes (lift r) a v v (ap (λ o. (flow_of o, v)) h)

  pub ask_goes :
      (d : Done) (g : List Done → Result A) (a : A) (v : View)
      → g v.done ≡ ok a
      → (ask d g >>= f) v ≡ f a (record v { done = d ∷ v.done })
  unfolding ask
  ask_goes d g a v h =
      bind_goes (ask d g) a v (record v { done = d ∷ v.done })
        (ap (λ o. (flow_of o, record v { done = d ∷ v.done })) h)

-- A response that is not refused, with a field in its body.
abbrev pub Gives : Response → Text → Option Json → Type 0
Gives r k o =
    (body : Json) × (is_ok r.status ≡ true) × (r.body ≡ some body) × (property k body ≡ ok o)

module _ (w : Wallet) where
  pub nonce_in_goes :
      (r : Response) (o : Option Json) (v : View)
      → Gives r (text "nonce") o
      → nonce_in w r v ≡ (go o, v)
  unfolding lift
  nonce_in_goes r o v (body, good, e, g) = rw good (
      lift_goes (λ b. lift (property (text "nonce") b)) (parsed_body r.body) body v
        (ap parsed_body e)
      ∙ ap (λ q. (flow_of q, v)) g)

  pub session_in_goes :
      (r : Response) (o : Option Json) (v : View)
      → Gives r (text "session") o
      → session_in w r v ≡ (go o, v)
  unfolding lift
  session_in_goes r o v (body, good, e, g) = rw good (
      lift_goes (λ b. lift (property (text "session") b)) (parsed_body r.body) body v
        (ap parsed_body e)
      ∙ ap (λ q. (flow_of q, v)) g)

  pub choose_chain_goes :
      (v : View)
      → is_allowed (get_or w.chain_id 0) ≡ true
      → choose_chain w v ≡ (go (get_or w.chain_id 0), v)
  unfolding choose_chain pure
  choose_chain_goes v h = rw h refl

  pub sign_message_goes :
      (message signature : Text) (v : View)
      → w.sign v.done message ≡ ok signature
      → sign_message w message v ≡ (go signature, record v { done = signed message ∷ v.done })
  unfolding sign_message catch ask
  sign_message_goes message signature v h =
      ap
        (λ q.
          catch (λ _. (flow_of q, record v { done = signed message ∷ v.done }))
            (λ e. leave_with (wallet_complaint (message_of e))) v)
        h

  pub enter_goes :
      (session : Option Json) (v : View)
      → is_truthy (optional_field (text "access_token") session) ≡ true
      → is_truthy (optional_field (text "refresh_token") session) ≡ true
      → w.set_session v.done
          (optional_field (text "access_token") session)
          (optional_field (text "refresh_token") session)
        ≡ ok tt
      → enter w session v ≡ (
        go tt,
        record v {
          done =
              redirected (text "/dashboard")
              ∷ session_set
                  (optional_field (text "access_token") session)
                  (optional_field (text "refresh_token") session)
              ∷ v.done;
        },
      )
  unfolding enter ask ◌>>=◌ ◌>>◌
  enter_goes session v a b h =
      rw (a, b)
        (ask_goes (λ _. ask (redirected (text "/dashboard")) (λ _. ok tt))
          (session_set (optional_field (text "access_token") session)
            (optional_field (text "refresh_token") session))
          (λ d.
            w.set_session d (optional_field (text "access_token") session)
              (optional_field (text "refresh_token") session))
          tt v h)
