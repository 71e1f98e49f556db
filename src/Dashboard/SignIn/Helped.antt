-- ===== src/Dashboard/SignIn/Helped.antt =====
-- Signing in goes through where the wallet and the server do their part.
use x402guard.Base.{◌≡◌, refl, ap, ◌∙◌, true, false, Option, some, none, List, ◌∷◌, get_or}
use x402guard.Js.Text.{Text, text}
use x402guard.Js.Json.{Json}
use x402guard.Sdk.Errors.{ok}
use x402guard.Adapters.Openclaw.{present}
use x402guard.Dashboard.Agent.Values.{is_truthy, optional_field}
use x402guard.Dashboard.SignIn.{
  Response, Wallet, Done, nonce_fetched, signed, verified, session_set, redirected, View, go, ◌>>=◌,
  ◌>>◌, set_status, ask, choose_chain, nonce_in, message_of_sign_in, sign_message, session_in,
  enter, sent_of, verify_and_enter, sign_and_enter, prepare_and_enter, fetch_and_enter, attempt,
  settle_view, sign_in_as, sign_in,
}
use x402guard.Dashboard.SignIn.Goes.{
  Gives, bind_goes, lift_goes, ask_goes, nonce_in_goes, session_in_goes, choose_chain_goes,
  sign_message_goes, enter_goes,
}
use x402guard.Dashboard.SignIn.Parts.{is_allowed}

module _ (w : Wallet) where
  -- Signing in where the wallet is on an allowed chain and signs, and the server gives a nonce and a
  -- session with both tokens.
  module _ (address message signature : Text) (nonce session : Option Json) where
    abbrev pub sent : List Done → List Done
    sent before = verified (sent_of w message signature) ∷ signed message ∷ nonce_fetched ∷ before

    abbrev pub entered : List Done → List Done
    entered before =
        redirected (text "/dashboard")
        ∷ session_set (optional_field (text "access_token") session)
            (optional_field (text "refresh_token") session)
        ∷ sent before

    -- The wallet and the server do their part.
    pub record Helped (before : List Done) : Type 0 where
      pub allowed : is_allowed (get_or w.chain_id 0) ≡ true
      pub answer : Response
      pub fetched : w.fetch_nonce before ≡ ok answer
      pub nonce_given : Gives answer (text "nonce") nonce
      pub prepared :
          w.prepare (message_of_sign_in w address (get_or w.chain_id 0) nonce) ≡ ok message
      pub signs : w.sign (nonce_fetched ∷ before) message ≡ ok signature
      pub verdict : Response
      pub accepted :
          w.fetch_verify (signed message ∷ nonce_fetched ∷ before) (sent_of w message signature)
          ≡ ok verdict
      pub session_given : Gives verdict (text "session") session
      pub has_access : is_truthy (optional_field (text "access_token") session) ≡ true
      pub has_refresh : is_truthy (optional_field (text "refresh_token") session) ≡ true
      pub session_kept :
          w.set_session
            (sent before)
            (optional_field (text "access_token") session)
            (optional_field (text "refresh_token") session)
          ≡ ok tt

    module _ (v : View) (h : Helped v.done) where
      abbrev verifying : List Done → View
      verifying done = record v { status = some (text "Verifying signature..."); done = done }

      verify_goes :
          verify_and_enter w message signature (record v {
            status = some (text "Check your wallet to sign the message...");
            done = signed message ∷ nonce_fetched ∷ v.done;
          })
          ≡ (go tt, verifying (entered v.done))
      unfolding set_status ◌>>◌
      verify_goes =
          bind_goes
            (λ _.
              ask (verified (sent_of w message signature))
                (λ d. w.fetch_verify d (sent_of w message signature))
              >>= λ r. session_in w r >>= enter w)
            (set_status (some (text "Verifying signature..."))) tt
            (record v {
              status = some (text "Check your wallet to sign the message...");
              done = signed message ∷ nonce_fetched ∷ v.done;
            })
            (verifying (signed message ∷ nonce_fetched ∷ v.done)) refl
          ∙ (ask_goes (λ r. session_in w r >>= enter w) (verified (sent_of w message signature))
                (λ d. w.fetch_verify d (sent_of w message signature)) h.verdict
                (verifying (signed message ∷ nonce_fetched ∷ v.done)) h.accepted
              ∙ (bind_goes (enter w) (session_in w h.verdict) session (verifying (sent v.done))
                    (verifying (sent v.done))
                    (session_in_goes w h.verdict session (verifying (sent v.done)) h.session_given)
                  ∙ enter_goes w session (verifying (sent v.done)) h.has_access h.has_refresh
                      h.session_kept))

      sign_goes :
          sign_and_enter w message (record v { status = none; done = nonce_fetched ∷ v.done })
          ≡ (go tt, verifying (entered v.done))
      unfolding set_status ◌>>◌
      sign_goes =
          let v4 : View = record v {
            status = some (text "Check your wallet to sign the message...");
            done = nonce_fetched ∷ v.done;
          } in
          bind_goes (λ _. sign_message w message >>= verify_and_enter w message)
            (set_status (some (text "Check your wallet to sign the message..."))) tt
            (record v { status = none; done = nonce_fetched ∷ v.done }) v4 refl
          ∙ (bind_goes (verify_and_enter w message) (sign_message w message) signature v4
                (record v4 { done = signed message ∷ nonce_fetched ∷ v.done })
                (sign_message_goes w message signature v4 h.signs)
              ∙ verify_goes)

      attempt_goes : attempt w address v ≡ (go tt, verifying (entered v.done))
      unfolding attempt set_status ◌>>◌
      attempt_goes =
          let chain = get_or w.chain_id 0 in
          let v2 : View = record v { status = none } in
          let v3 : View = record v { status = none; done = nonce_fetched ∷ v.done } in
          bind_goes (fetch_and_enter w address) (choose_chain w) chain v v
            (choose_chain_goes w v h.allowed)
          ∙ (bind_goes
                (λ _. ask nonce_fetched w.fetch_nonce >>= λ r.
                  nonce_in w r >>= prepare_and_enter w address chain)
                (set_status none) tt v v2 refl
              ∙ (ask_goes (λ r. nonce_in w r >>= prepare_and_enter w address chain) nonce_fetched
                    w.fetch_nonce h.answer v2 h.fetched
                  ∙ (bind_goes (prepare_and_enter w address chain) (nonce_in w h.answer) nonce v3 v3
                        (nonce_in_goes w h.answer nonce v3 h.nonce_given)
                      ∙ (lift_goes (sign_and_enter w)
                            (w.prepare (message_of_sign_in w address chain nonce)) message v3
                            h.prepared
                          ∙ sign_goes))))

    -- Signing in leads to the dashboard.
    pub sign_in_goes :
        (v : View)
        → present w.address ≡ some address
        → Helped v.done
        → sign_in w v ≡ record {
          is_signing_in = false;
          error_shown = none;
          status = none;
          done = entered v.done;
        }
    unfolding sign_in settle_view
    sign_in_goes v e h =
        let v0 : View = record v { is_signing_in = true; error_shown = none; status = none } in
        ap (λ o. sign_in_as w o v) e ∙ ap (settle_view w) (attempt_goes v0 h)
