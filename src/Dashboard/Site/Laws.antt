-- ===== src/Dashboard/Site/Laws.antt =====
-- Who signs in on the site: the hook and the two handlers together.
use x402guard.Dashboard.Site.Answers.{nonce_sent, session_sent}
use x402guard.Base.{
  ltb, not, ◌||◌, ◌&&◌, Bool, Bool-cases, if◌then◌else◌, ◌<◌, arith, ℕ, ◌≡◌, refl, sym, ap, ◌∙◌,
  subst, true, false, Option, some, none, List, [], ◌∷◌, inl, inr,
}
use x402guard.Js.Text.{Text, text, text_eq}
use x402guard.Js.Json.{fields_of, Json, str, get_field}
use x402guard.Sdk.Errors.{ok, property}
use x402guard.Adapters.Openclaw.{present}
use x402guard.Dashboard.Login.{
  Calls, SiweResult, check_auth_rate_limit, is_foreign, is_allowed_chain,
}
use x402guard.Dashboard.Login.Nonce.{get_nonce, nonce_cookie}
use x402guard.Dashboard.Login.Laws.{Adds}
use x402guard.Dashboard.Login.Safety.{is_session, Verified, Granted, post-Safe}
use x402guard.Dashboard.SignIn.{
  Wallet, Done, View, nonce_fetched, sign_in, is_ok, message_of_sign_in, sent_of,
}
use x402guard.Dashboard.SignIn.Parts.{OnChain, Sends, is_allowed}
use x402guard.Dashboard.SignIn.Entered.{Entered, sign_in-Entered}
use x402guard.Dashboard.Site.{
  cookie_after, Site, nonce_response, verify_response, nonce_answer, verify_request, verify_answer,
  on_site,
}

-- What signing in has behind it where the site shows no error: a nonce that the server made in the same
-- run, a message prepared with it and signed by the wallet, and siwe's word for that message, that
-- signature and that nonce, less than five minutes later.
pub record SignedIn (site : Site) (w : Wallet) (address : Text) (before : List Done) : Type 0 where
  pub nonce_calls : Calls
  pub nonce_let_pass :
      check_auth_rate_limit site.server site.sent (text "nonce") site.calls ≡ (none, nonce_calls)
  pub chain : ℕ
  pub on_allowed : is_allowed chain ≡ true
  pub start : List Done
  pub on_chain : OnChain w before start
  pub message : Text
  pub prepared :
      w.prepare (message_of_sign_in w address chain (some (str (site.generate nonce_calls))))
      ≡ ok message
  pub signature : Text
  pub signs : w.sign (nonce_fetched ∷ start) message ≡ ok signature
  pub siwe : SiweResult
  pub checked :
      site.server.verify_message
        (some (str message))
        (some (str signature))
        (site.generate nonce_calls)
      ≡ ok siwe
  pub in_time : site.waited < 300
  pub success : siwe.success ≡ true
  pub chain_allowed : is_allowed_chain siwe.chain_id ≡ true
  pub same_site : is_foreign site.sent ≡ false
  pub verify_calls : Calls
  pub verify_let_pass :
      check_auth_rate_limit site.server site.sent (text "verify") nonce_calls ≡ (none, verify_calls)
  pub account :
      Adds site.server
        (site.server.to_lower_case siwe.address)
        verify_calls
        (verify_answer site (sent_of w message signature)).1

present-some : (x y : Text) → present (some x) ≡ some y → x ≡ y
present-some [] y h = cc
present-some (c ∷ x) y h = cc

-- A cookie that the browser still has.
cookie_after-some :
    (waited : ℕ) (is_secure production : Bool) (nonce given : Text)
    → present (cookie_after waited is_secure (nonce_cookie production nonce)) ≡ some given
    → (waited < 300) × (nonce ≡ given)
cookie_after-some waited is_secure production nonce given h =
    elim (Bool-cases ((not production || is_secure) && ltb waited 300)) [
      | inl kept ↦ (
        ground arith,
        present-some nonce given
            (ap (λ b. present (if b then some nonce else none)) (sym kept) ∙ h),
      )
      | inr gone ↦
          let bad : ◌≡◌ {A = Option Text} none (some given) =
            ap (λ b. present (if b then some nonce else none)) (sym gone) ∙ h in
          cc
    ]

-- What siwe was asked.
sent_of-message :
    (w : Wallet) (message signature : Text) (o : Option Json)
    → property (text "message") (sent_of w message signature) ≡ ok o
    → some (str message) ≡ o
unfolding property get_field text text_eq fields_of
sent_of-message w message signature o h = cc

sent_of-signature :
    (w : Wallet) (message signature : Text) (o : Option Json)
    → property (text "signature") (sent_of w message signature) ≡ ok o
    → some (str signature) ≡ o
unfolding property get_field text text_eq fields_of
sent_of-signature w message signature o h = cc

module _ (site : Site) where
  same_limit :
      (body : Json) (t : Calls)
      → check_auth_rate_limit site.server (verify_request site body) (text "verify") t
        ≡ check_auth_rate_limit site.server site.sent (text "verify") t
  unfolding check_auth_rate_limit
  same_limit body t = refl

  same_origin : (body : Json) → is_foreign (verify_request site body) ≡ is_foreign site.sent
  unfolding is_foreign
  same_origin body = refl

  -- A session is granted to a verified request only.
  granted :
      (body : Json)
      → Granted site.server
          (verify_request site body)
          (nonce_answer site).1
          (verify_answer site body)
      → is_session (ok (verify_answer site body).0) ≡ true
      → (u : Calls) × (v : Verified site.server (verify_request site body)) × (check_auth_rate_limit
            site.server site.sent
            (text "verify")
            (nonce_answer site).1
          ≡ (none, u))
        × Adds site.server (site.server.to_lower_case v.siwe.address) u (verify_answer site body).1
  granted body (u, inl (wait, e, refused_, same)) h =
      let bad : true ≡ false = sym h ∙ ap (λ a. is_session (ok a)) refused_ in cc
  granted body (u, inr (e, inl (denied, same))) h = let bad : true ≡ false = sym h ∙ denied in cc
  granted body (u, inr (e, inr (v, adds))) h = (u, v, sym (same_limit body _) ∙ e, adds)

  Entered-SignedIn :
      (w : Wallet) (address : Text) (before after : List Done)
      → Entered (on_site site w) address before after
      → SignedIn site w address before
  unfolding nonce_answer get_nonce verify_answer
  Entered-SignedIn w address before after e =
      let out = check_auth_rate_limit site.server site.sent (text "nonce") site.calls in
      let sent = sent_of w e.message e.signature in
      let answered_ : nonce_response (nonce_answer site).0 ≡ e.answer = cc in
      let verdict_ : verify_response (verify_answer site sent).0 ≡ e.verdict = cc in
      let (passed, nonce_is, cookie, calls_) =
        nonce_sent site.production site.generate site.waited site.is_secure site.sent.nonce_cookie
          out e.nonce (subst (λ r. Sends r e.nonce) (sym answered_) e.sends) in
      let granted_ =
        session_sent (verify_answer site sent).0 e.body e.session
          (subst (λ r. is_ok r.status ≡ true) (sym verdict_) e.verdict_ok)
          (subst (λ r. r.body ≡ some e.body) (sym verdict_) e.parsed) e.has_session e.has_access in
      let (u, v, limit, adds) =
        granted sent (post-Safe site.server (verify_request site sent) (nonce_answer site).1)
          granted_ in
      let body_ : sent ≡ v.body = cc in
      let message_ =
        sent_of-message w e.message e.signature v.message
          (ap (property (text "message")) body_ ∙ v.has_message) in
      let signature_ =
        sent_of-signature w e.message e.signature v.signature
          (ap (property (text "signature")) body_ ∙ v.has_signature) in
      let (in_time_, nonce_) =
        cookie_after-some site.waited site.is_secure site.production (site.generate out.1) v.nonce
          (ap present (sym cookie) ∙ v.has_nonce) in
      record {
        nonce_calls = out.1;
        nonce_let_pass = passed;
        chain = e.chain;
        on_allowed = e.allowed;
        start = e.start;
        on_chain = e.on_chain;
        message = e.message;
        prepared =
            subst (λ n. w.prepare (message_of_sign_in w address e.chain n) ≡ ok e.message) nonce_is
              e.prepared;
        signature = e.signature;
        signs = e.signs;
        siwe = v.siwe;
        checked =
            (λ i. site.server.verify_message (message_ i) (signature_ i) (nonce_ i)) ∙ v.checked;
        in_time = in_time_;
        success = v.success;
        chain_allowed = v.chain;
        same_site = sym (same_origin sent) ∙ v.same_site;
        verify_calls = u;
        verify_let_pass =
            ap (check_auth_rate_limit site.server site.sent (text "verify")) (sym calls_) ∙ limit;
        account = adds;
      }

-- Whatever the wallet, the services behind the site and the limiter do: where signing in shows no error
-- at its end, both requests were let pass, the wallet signed a message that was prepared with the nonce
-- that the site had made in this run, siwe accepted that message with that signature and that nonce for
-- an allowed chain within five minutes, the request passed the test of its `Origin` (which asks no more
-- than that it contains the host, where both are given), and the calls of the login are for the account
-- of the wallet that signed.
pub sign_in-SignedIn :
    (site : Site) (w : Wallet) (address : Text) (v : View)
    → present w.address ≡ some address
    → (sign_in (on_site site w) v).error_shown ≡ none
    → SignedIn site w address v.done
sign_in-SignedIn site w address v e silent =
    Entered-SignedIn site w address v.done (sign_in (on_site site w) v).done
      (sign_in-Entered (on_site site w) address v e silent)
