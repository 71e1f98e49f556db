-- ===== src/Dashboard/Session.antt =====
-- dashboard/src/lib/dal.ts: who is logged in; and what surrounds the dashboard's server.
use x402guard.Base.{Bool, ◌&&◌, Option, some, none, if◌then◌else◌}
use x402guard.Js.Text.{Text, text}
use x402guard.Sdk.Errors.{Thrown, error, ok}
use x402guard.Sdk.Io.{Io, Trace, Network, raise, pure}

-- The user of the library supabase, as far as the dashboard reads it.
pub record User : Type 0 where
  pub wallet_address : Option Text

-- The environment variables, the network, the answer of supabase's `getUser` (`none` for an error or
-- for no user), and the language's `toLowerCase`, whose Unicode tables are left open.
pub record Server : Type 0 where
  pub proxy_base : Text
  pub management_api_key : Text
  pub is_dev : Bool
  pub dev_skip_auth : Bool
  pub get_user : Trace → Option User
  pub to_lower_case : Text → Text
  pub network : Network

abbrev pub skips_auth : Server → Bool
skips_auth server = server.is_dev && server.dev_skip_auth

abbrev pub dev_user : User
dev_user = record { wallet_address = some (text "0xdev") }

-- `redirect('/login')` throws.
abbrev pub login_redirect : Thrown
login_redirect = error (text "NEXT_REDIRECT")

abbrev pub user_or_redirect : Option User → Io User
user_or_redirect none = raise login_redirect
user_or_redirect (some user) = pure user

-- `verifySession`
unfoldable pub verify_session : Server → Io User
verify_session server t =
    if skips_auth server then (ok dev_user, t) else user_or_redirect (server.get_user t) t
