-- ===== src/Dashboard/Site.antt =====
-- The site as a wallet's browser sees it: the responses of dashboard/src/app/api/auth/nonce/route.ts and
-- dashboard/src/app/api/auth/verify/route.ts, and the hook dashboard/src/hooks/use-siwe-auth.ts that
-- signs in by them.
pub mod Answers
pub mod Laws
pub mod Reaches
mod Tests
use x402guard.Base.{ℕ, ltb, not, ◌&&◌, ◌||◌, if◌then◌else◌, Bool, Option, some, none, [], ◌∷◌}
use x402guard.Js.Text.{Text, text}
use x402guard.Js.Json.{Json, str, object}
use x402guard.Sdk.Errors.{ok}
use x402guard.Dashboard.Login.{
  Incoming, Calls, LoginServer, Answer, refused, too_many, session, post,
}
use x402guard.Dashboard.Login.Nonce.{Cookie, NonceAnswer, limited_for, fresh, get_nonce}
use x402guard.Dashboard.SignIn.{Response, Wallet}

abbrev pub error_response : ℕ → Text → Response
error_response status message = record {
  status = status;
  body = some (object ((text "error", some (str message)) ∷ []));
}

-- The response 429 of `checkAuthRateLimit`.
abbrev pub limited_response : Response
limited_response = error_response 429 (text "Too many requests. Try again later.")

abbrev pub ok_response : Text → Json → Response
ok_response k v = record { status = 200; body = some (object ((k, some v) ∷ [])) }

unfoldable pub nonce_response : NonceAnswer → Response
nonce_response (limited_for _) = limited_response
nonce_response (fresh nonce _) = ok_response (text "nonce") (str nonce)

unfoldable pub verify_response : Answer → Response
verify_response (refused status message) = error_response status message
verify_response (too_many _) = limited_response
verify_response (session v) = ok_response (text "session") v

-- What the browser has of a cookie after so many seconds: nothing once its `maxAge` is over, or where it
-- is `secure` and the page is not.
abbrev pub cookie_after : ℕ → Bool → Cookie → Option Text
cookie_after waited is_secure cookie =
    if (not cookie.secure || is_secure) && ltb waited cookie.max_age
    then some cookie.value
    else none

-- The nonce that the browser sends some seconds after the answer: that of the new cookie, or, where none
-- came, that of an old one.
unfoldable pub kept_nonce : ℕ → Bool → Option Text → NonceAnswer → Option Text
kept_nonce waited is_secure old (limited_for _) = old
kept_nonce waited is_secure old (fresh _ cookie) = cookie_after waited is_secure cookie

-- The server, with the nonces of the library siwe; what the browser sends with each request: its
-- headers and an older cookie; whether the page counts as secure; and the seconds from the nonce to the
-- request to verify, in which the wallet signs.
pub record Site : Type 0 where
  pub server : LoginServer
  pub production : Bool
  pub generate : Calls → Text
  pub sent : Incoming
  pub calls : Calls
  pub is_secure : Bool
  pub waited : ℕ

module _ (site : Site) where
  unfoldable pub nonce_answer : NonceAnswer × Calls
  nonce_answer = get_nonce site.server site.production site.generate site.sent site.calls

  -- The request to verify.
  abbrev pub verify_request : Json → Incoming
  verify_request body = record site.sent {
    nonce_cookie = kept_nonce site.waited site.is_secure site.sent.nonce_cookie nonce_answer.0;
    body = some body;
  }

  unfoldable pub verify_answer : Json → Answer × Calls
  unfolding nonce_answer kept_nonce
  verify_answer body = post site.server (verify_request body) nonce_answer.1

  -- A wallet in a browser that is on the site.
  abbrev pub on_site : Wallet → Wallet
  on_site w = record w {
    fetch_nonce = λ _. ok (nonce_response nonce_answer.0);
    fetch_verify = λ _ body. ok (verify_response (verify_answer body).0);
  }
