-- ===== src/Dashboard/Login/Nonce.antt =====
-- dashboard/src/app/api/auth/nonce/route.ts: a nonce for a message to sign.
use x402guard.Base.{ℕ, Bool, true, Option, some, none}
use x402guard.Js.Text.{Text, text}
use x402guard.Js.Number.{ℤ}
use x402guard.Dashboard.Login.{Incoming, Calls, LoginServer, check_auth_rate_limit}

-- The cookie that keeps the nonce.
pub record Cookie : Type 0 where
  pub name : Text
  pub value : Text
  pub http_only : Bool
  pub secure : Bool
  pub same_site : Text
  pub max_age : ℕ
  pub path : Text

-- The answer 429 with its `Retry-After`, or the nonce, in the body and in a cookie.
pub data NonceAnswer : Type 0 where
  limited_for : ℤ → NonceAnswer
  fresh : Text → Cookie → NonceAnswer

abbrev pub nonce_cookie : Bool → Text → Cookie
nonce_cookie production nonce = record {
  name = text "siwe-nonce";
  value = nonce;
  http_only = true;
  secure = production;
  same_site = text "strict";
  max_age = 300;
  path = text "/";
}

-- `generateNonce` of the library siwe gives the nonce.
abbrev pub nonce_or_wait : Bool → (Calls → Text) → Option ℤ × Calls → NonceAnswer × Calls
nonce_or_wait production generate (some seconds, t) = (limited_for seconds, t)
nonce_or_wait production generate (none, t) =
    (fresh (generate t) (nonce_cookie production (generate t)), t)

-- `GET`
unfoldable pub get_nonce :
    LoginServer → Bool → (Calls → Text) → Incoming → Calls → NonceAnswer × Calls
unfolding check_auth_rate_limit
get_nonce s production generate req t =
    nonce_or_wait production generate (check_auth_rate_limit s req (text "nonce") t)
