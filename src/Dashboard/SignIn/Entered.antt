-- ===== src/Dashboard/SignIn/Entered.antt =====
-- What was done where signing in leads to the dashboard.
use x402guard.Base.{subst, ℕ, true, false, Option, some, none, List, ◌∷◌, ◌≡◌, refl, sym, ap}
use x402guard.Js.Text.{Text, text}
use x402guard.Js.Json.{Json}
use x402guard.Sdk.Errors.{ok, property}
use x402guard.Dashboard.Agent.Values.{is_truthy, optional_field}
use x402guard.Adapters.Openclaw.{present}
use x402guard.Dashboard.SignIn.Laws.{attempt-IsTelling, settle_view-silent}
use x402guard.Dashboard.SignIn.{
  settle_view, sign_in, sign_in_as, Response, Wallet, Done, nonce_fetched, signed, verified,
  session_set, redirected, View, Flow, go, leave, fail, ◌>>=◌, ◌>>◌, set_status, is_ok,
  message_of_sign_in, nonce_in, sent_of, sign_and_enter, verify_and_enter, prepare_and_enter,
  fetch_and_enter, session_in, enter, attempt,
}
use x402guard.Dashboard.SignIn.Went.{lift_went, ask_went}
use x402guard.Dashboard.SignIn.Parts.{
  OnChain, Sends, is_allowed, chain_went, nonce_went, session_went, enter_went, signature_went,
}

-- The way to the dashboard, from the acts before to the acts after.
pub record Entered (w : Wallet) (address : Text) (before after : List Done) : Type 0 where
  pub chain : ℕ
  pub allowed : is_allowed chain ≡ true
  pub start : List Done
  pub on_chain : OnChain w before start
  pub answer : Response
  pub fetched : w.fetch_nonce start ≡ ok answer
  pub nonce : Option Json
  pub sends : Sends answer nonce
  pub message : Text
  pub prepared : w.prepare (message_of_sign_in w address chain nonce) ≡ ok message
  pub signature : Text
  pub signs : w.sign (nonce_fetched ∷ start) message ≡ ok signature
  pub verdict : Response
  pub accepted :
      w.fetch_verify (signed message ∷ nonce_fetched ∷ start) (sent_of w message signature)
      ≡ ok verdict
  pub verdict_ok : is_ok verdict.status ≡ true
  pub body : Json
  pub parsed : verdict.body ≡ some body
  pub session : Option Json
  pub has_session : property (text "session") body ≡ ok session
  pub has_access : is_truthy (optional_field (text "access_token") session) ≡ true
  pub has_refresh : is_truthy (optional_field (text "refresh_token") session) ≡ true
  pub trail :
      after
      ≡ redirected (text "/dashboard")
        ∷ session_set
            (optional_field (text "access_token") session)
            (optional_field (text "refresh_token") session)
        ∷ verified (sent_of w message signature)
        ∷ signed message
        ∷ nonce_fetched
        ∷ start

module _ (w : Wallet) where
  verify_went :
      (message signature : Text) (v u : View)
      → verify_and_enter w message signature v ≡ (go tt, u)
      → (verdict : Response) × (body : Json) × (session : Option Json) × (w.fetch_verify v.done
            (sent_of w message signature)
          ≡ ok verdict)
        × (is_ok verdict.status ≡ true)
        × (verdict.body ≡ some body)
        × (property (text "session") body ≡ ok session)
        × (is_truthy (optional_field (text "access_token") session) ≡ true)
        × (is_truthy (optional_field (text "refresh_token") session) ≡ true)
        × (u.done
            ≡ redirected (text "/dashboard")
              ∷ session_set
                  (optional_field (text "access_token") session)
                  (optional_field (text "refresh_token") session)
              ∷ verified (sent_of w message signature)
              ∷ v.done)
  unfolding set_status ◌>>◌ ◌>>=◌
  verify_went message signature v u h =
      let (verdict, accepted, h6) =
        ask_went (λ r. session_in w r >>= enter w) tt u (verified (sent_of w message signature))
          (λ d. w.fetch_verify d (sent_of w message signature))
          (record v { status = some (text "Verifying signature...") }) h in
      let v7 : View = record v {
        status = some (text "Verifying signature...");
        done = verified (sent_of w message signature) ∷ v.done;
      } in
      let (body, session, good, parsed, has_session, h7) =
        session_went w (enter w) tt u v7 verdict h6 in
      let (access, refresh, trail) = enter_went w session v7 u h7 in
      (verdict, body, session, accepted, good, parsed, has_session, access, refresh, trail)

  -- An attempt that went through.
  pub attempt_went :
      (address : Text) (v u : View)
      → attempt w address v ≡ (go tt, u)
      → Entered w address v.done u.done
  unfolding attempt set_status ◌>>◌ ◌>>=◌
  attempt_went address v u h =
      let (chain, v1, allowed, on_chain, h1) = chain_went w (fetch_and_enter w address) tt u v h in
      let v2 : View = record v1 { status = none } in
      let v3 : View = record v1 { status = none; done = nonce_fetched ∷ v1.done } in
      let (answer, fetched, h2) =
        ask_went (λ r. nonce_in w r >>= prepare_and_enter w address chain) tt u nonce_fetched
          w.fetch_nonce v2 h1 in
      let (nonce, sends, h3) = nonce_went w (prepare_and_enter w address chain) tt u v3 answer h2 in
      let (message, prepared, h4) =
        lift_went (sign_and_enter w) tt u (w.prepare (message_of_sign_in w address chain nonce)) v3
          h3 in
      let v4 : View = record v3 {
        status = some (text "Check your wallet to sign the message...");
      } in
      let (signature, signs, h5) =
        signature_went w (verify_and_enter w message) tt u v4 message h4 in
      let (verdict, body, session, accepted, good, parsed, has_session, access, refresh, trail) =
        verify_went message signature (record v4 { done = signed message ∷ v4.done }) u h5 in
      record {
        chain = chain;
        allowed = allowed;
        start = v1.done;
        on_chain = on_chain;
        answer = answer;
        fetched = fetched;
        nonce = nonce;
        sends = sends;
        message = message;
        prepared = prepared;
        signature = signature;
        signs = signs;
        verdict = verdict;
        accepted = accepted;
        verdict_ok = good;
        body = body;
        parsed = parsed;
        session = session;
        has_session = has_session;
        has_access = access;
        has_refresh = refresh;
        trail = trail;
      }

settle_view-done :
    (w : Wallet) (out : Flow (Unit {0}) × View) → (settle_view w out).done ≡ out.1.done
unfolding settle_view
settle_view-done w (go tt, u) = refl
settle_view-done w (leave, u) = refl
settle_view-done w (fail e, u) = refl

settle_view-quiet :
    (w : Wallet) (out : Flow (Unit {0}) × View)
    → ((settle_view w out).is_signing_in ≡ false) × ((settle_view w out).status ≡ none)
unfolding settle_view
settle_view-quiet w (go tt, u) = (refl, refl)
settle_view-quiet w (leave, u) = (refl, refl)
settle_view-quiet w (fail e, u) = (refl, refl)

abbrev Ends : Wallet → Text → View → View → Type 0
Ends w address v u =
    (u.is_signing_in ≡ false)
    × (u.status ≡ none)
    × (u.error_shown ≡ none → Entered w address v.done u.done)

sign_in_as-Ends :
    (w : Wallet) (address : Text) (v : View) → Ends w address v (sign_in_as w (some address) v)
sign_in_as-Ends w address v =
    let v0 : View = record v { is_signing_in = true; error_shown = none; status = none } in
    let out = attempt w address v0 in
    let (signing, quiet) = settle_view-quiet w out in
    (
      signing,
      quiet,
      λ silent.
          let went = settle_view-silent w v0 out ((attempt-IsTelling w address).tells v0) silent in
          subst (Entered w address v.done) (sym (settle_view-done w out))
            (attempt_went w address v0 out.1 (ap (λ r. (r, out.1)) went)),
    )

-- Signing in with a wallet that has an address ends with no spinner and no status.
sign_in_quiet :
    (w : Wallet) (address : Text) (v : View)
    → present w.address ≡ some address
    → ((sign_in w v).is_signing_in ≡ false) × ((sign_in w v).status ≡ none)
unfolding sign_in
sign_in_quiet w address v e =
    let (signing, quiet, _) =
      subst (Ends w address v) (ap (λ o. sign_in_as w o v) (sym e)) (sign_in_as-Ends w address v) in
    (signing, quiet)

-- Whatever the wallet and the server answer: where signing in with a wallet that has an address shows
-- no error at its end, it went the whole way: on an allowed chain, with a message that was prepared for
-- the address and signed, a signature that the server accepted, and a session with both tokens of the
-- server's answer, which was handed over before the browser went to the dashboard.
pub sign_in-Entered :
    (w : Wallet) (address : Text) (v : View)
    → present w.address ≡ some address
    → (sign_in w v).error_shown ≡ none
    → Entered w address v.done (sign_in w v).done
unfolding sign_in
sign_in-Entered w address v e silent =
    let (_, _, entered) =
      subst (Ends w address v) (ap (λ o. sign_in_as w o v) (sym e)) (sign_in_as-Ends w address v) in
    entered silent
