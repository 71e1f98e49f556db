-- ===== src/Dashboard/Site/Reaches.antt =====
-- Who can sign in on the site: the hook and the two handlers together.
use x402guard.Base.{
  lt→ltb, not, ◌||◌, ◌&&◌, if◌then◌else◌, ◌<◌, none, ◌≡◌, refl, sym, ap, ◌∙◌, subst, true, false,
  some, none, List, ◌∷◌, get_or,
}
use x402guard.Js.Text.{Text, text, text_eq}
use x402guard.Js.Json.{Json, str, get_field, fields_of}
use x402guard.Sdk.Errors.{ok, property}
use x402guard.Adapters.Openclaw.{present}
use x402guard.Dashboard.Agent.Values.{is_truthy, optional_field}
use x402guard.Dashboard.Login.{
  Calls, SiweResult, session, check_auth_rate_limit, is_foreign, is_allowed_chain,
}
use x402guard.Dashboard.Login.Nonce.{get_nonce, nonce_or_wait}
use x402guard.Dashboard.Login.Safety.{Verified}
use x402guard.Dashboard.Login.Accepts.{SignsIn, post-session}
use x402guard.Dashboard.SignIn.{
  Wallet, Done, View, nonce_fetched, signed, verified, session_set, redirected, sign_in,
  message_of_sign_in, sent_of,
}
use x402guard.Dashboard.SignIn.Parts.{is_allowed}
use x402guard.Dashboard.SignIn.Goes.{Gives}
use x402guard.Dashboard.SignIn.Helped.{Helped, sign_in_goes}
use x402guard.Dashboard.Site.{
  Site, nonce_response, verify_response, kept_nonce, nonce_answer, verify_request, verify_answer,
  on_site,
}

-- The wallet is on an allowed chain and signs the message that siwe prepares with the site's nonce in time:
-- while the browser keeps the cookie, which is five minutes, and only on a secure page in production. Siwe
-- accepts the message, the limiter lets both requests pass, and supabase opens a session with both tokens for
-- the wallet's account.
pub record Ready (site : Site) (w : Wallet) (before : List Done) (address message signature : Text)
    (tokens : Json) : Type 0 where
  pub nonce_calls : Calls
  pub nonce_let_pass :
      check_auth_rate_limit site.server site.sent (text "nonce") site.calls ≡ (none, nonce_calls)
  pub has_nonce : present (some (site.generate nonce_calls)) ≡ some (site.generate nonce_calls)
  pub in_time : site.waited < 300
  pub cookie_accepted : (not site.production || site.is_secure) ≡ true
  pub on_allowed : is_allowed (get_or w.chain_id 0) ≡ true
  pub prepared :
      w.prepare (
        message_of_sign_in w address (get_or w.chain_id 0) (some (str (site.generate nonce_calls))))
      ≡ ok message
  pub signs : w.sign (nonce_fetched ∷ before) message ≡ ok signature
  pub same_site : is_foreign site.sent ≡ false
  pub siwe : SiweResult
  pub checked :
      site.server.verify_message
        (some (str message))
        (some (str signature))
        (site.generate nonce_calls)
      ≡ ok siwe
  pub success : siwe.success ≡ true
  pub chain_allowed : is_allowed_chain siwe.chain_id ≡ true
  pub secret : Text
  pub has_secret : present site.server.wallet_secret ≡ some secret
  pub verify_calls : Calls
  pub verify_let_pass :
      check_auth_rate_limit site.server site.sent (text "verify") nonce_calls ≡ (none, verify_calls)
  pub opens :
      let account = site.server.to_lower_case siwe.address in
      SignsIn site.server account (site.server.hmac_hex secret account) verify_calls tokens
  pub has_access : is_truthy (optional_field (text "access_token") (some tokens)) ≡ true
  pub has_refresh : is_truthy (optional_field (text "refresh_token") (some tokens)) ≡ true
  pub session_kept :
      w.set_session
        (verified (sent_of w message signature) ∷ signed message ∷ nonce_fetched ∷ before)
        (optional_field (text "access_token") (some tokens))
        (optional_field (text "refresh_token") (some tokens))
      ≡ ok tt

module _ (site : Site) (w : Wallet) (before : List Done) (address message signature : Text)
    (tokens : Json) (r : Ready site w before address message signature tokens) where
  nonce_given :
      Gives
        (nonce_response (nonce_answer site).0)
        (text "nonce")
        (some (str (site.generate r.nonce_calls)))
  unfolding nonce_answer get_nonce nonce_response property get_field text text_eq fields_of
  nonce_given = rw r.nonce_let_pass (_, refl, refl, refl)

  calls_ : (nonce_answer site).1 ≡ r.nonce_calls
  unfolding nonce_answer get_nonce
  calls_ = ap (λ o. (nonce_or_wait site.production site.generate o).1) r.nonce_let_pass

  cookie_ :
      present (kept_nonce site.waited site.is_secure site.sent.nonce_cookie (nonce_answer site).0)
      ≡ some (site.generate r.nonce_calls)
  unfolding nonce_answer get_nonce kept_nonce
  cookie_ =
      ap
        (λ o. present (
          kept_nonce site.waited site.is_secure site.sent.nonce_cookie
            (nonce_or_wait site.production site.generate o).0))
        r.nonce_let_pass
      ∙ (ap (λ b. present (if b then some (site.generate r.nonce_calls) else none))
            (λ i. r.cookie_accepted i && lt→ltb site.waited 300 r.in_time i)
          ∙ r.has_nonce)

  request_verified : Verified site.server (verify_request site (sent_of w message signature))
  unfolding is_foreign property get_field text text_eq fields_of
  request_verified = record {
    body = sent_of w message signature;
    message = some (str message);
    signature = some (str signature);
    nonce = site.generate r.nonce_calls;
    siwe = r.siwe;
    same_site = r.same_site;
    parsed = refl;
    has_message = refl;
    has_signature = refl;
    has_nonce = cookie_;
    checked = r.checked;
    success = r.success;
    chain = r.chain_allowed;
  }

  verify_pass :
      check_auth_rate_limit site.server
        (verify_request site (sent_of w message signature))
        (text "verify")
        (nonce_answer site).1
      ≡ (none, r.verify_calls)
  unfolding check_auth_rate_limit
  verify_pass =
      ap (check_auth_rate_limit site.server site.sent (text "verify")) calls_ ∙ r.verify_let_pass

  session_opened : (verify_answer site (sent_of w message signature)).0 ≡ session tokens
  unfolding verify_answer request_verified
  session_opened =
      post-session site.server (verify_request site (sent_of w message signature)) request_verified
        r.secret tokens (nonce_answer site).1 r.verify_calls verify_pass r.has_secret r.opens

  session_given :
      Gives
        (verify_response (verify_answer site (sent_of w message signature)).0)
        (text "session")
        (some tokens)
  unfolding verify_response property get_field text text_eq fields_of
  session_given =
      subst (λ a. Gives (verify_response a) (text "session") (some tokens)) (sym session_opened)
        (_, refl, refl, refl)

  helped :
      Helped
        (on_site site w)
        address
        message
        signature
        (some (str (site.generate r.nonce_calls)))
        (some tokens)
        before
  helped = record {
    allowed = r.on_allowed;
    answer = nonce_response (nonce_answer site).0;
    fetched = refl;
    nonce_given = nonce_given;
    prepared = r.prepared;
    signs = r.signs;
    verdict = verify_response (verify_answer site (sent_of w message signature)).0;
    accepted = refl;
    session_given = session_given;
    has_access = r.has_access;
    has_refresh = r.has_refresh;
    session_kept = r.session_kept;
  }

-- A wallet that is ready, and signs while the cookie of the nonce lasts, signs in on the site: whatever the page showed before, at the end it shows no
-- error, no status and no spinner, and the session of supabase was handed over with both tokens before
-- the browser went to the dashboard.
pub sign_in_reaches :
    (site : Site) (w : Wallet) (address message signature : Text) (tokens : Json) (v : View)
    → present w.address ≡ some address
    → Ready site w v.done address message signature tokens
    → sign_in (on_site site w) v ≡ record {
      is_signing_in = false;
      error_shown = none;
      status = none;
      done =
          redirected (text "/dashboard")
          ∷ session_set
              (optional_field (text "access_token") (some tokens))
              (optional_field (text "refresh_token") (some tokens))
          ∷ verified (sent_of w message signature)
          ∷ signed message
          ∷ nonce_fetched
          ∷ v.done;
    }
sign_in_reaches site w address message signature tokens v e r =
    sign_in_goes (on_site site w) address message signature
      (some (str (site.generate r.nonce_calls))) (some tokens) v e
      (helped site w v.done address message signature tokens r)
