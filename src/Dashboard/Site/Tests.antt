-- ===== src/Dashboard/Site/Tests.antt =====
-- A wallet that signs in on the site for the first time.
use x402guard.Base.{arith, ap, ◌≡◌, refl, true, false, some, none, [], ◌∷◌, map}
use x402guard.Js.Text.{text, text_eq, lower_ascii, includes, starts_with, strip_prefix}
use x402guard.Js.Json.{Json, str, obj, field, end, get_field}
use x402guard.Sdk.Errors.{ok}
use x402guard.Dashboard.Agent.Values.{optional_field, is_truthy}
use x402guard.Dashboard.Login.{check_auth_rate_limit, LoginServer, is_foreign}
use x402guard.Dashboard.Login.Accepts.{created}
use x402guard.Dashboard.SignIn.{
  Wallet, View, nonce_fetched, signed, verified, session_set, redirected, sent_of, sign_in,
}
use x402guard.Dashboard.Site.{Site, on_site}
use x402guard.Dashboard.Site.Laws.{SignedIn, sign_in-SignedIn}
use x402guard.Dashboard.Site.Reaches.{Ready, sign_in_reaches}

abbrev tokens : Json
tokens = obj (
    field (text "access_token") (str (text "a"))
      (field (text "refresh_token") (str (text "r")) end))

-- Supabase does not know the wallet before it is created.
abbrev server : LoginServer
server = record {
  wallet_secret = some (text "secret");
  now = λ _. 0;
  limiter = none;
  verify_message = λ m s n. ok (record { success = true; chain_id = 8453; address = text "0xAB" });
  hmac_hex = λ secret wallet. wallet;
  to_lower_case = map lower_ascii;
  sign_in = λ t e p. ok (elim t [
    | [] ↦ record { failure = some (text "Invalid login credentials"); session = none }
    | _ ∷ _ ↦ record { failure = none; session = some tokens }
  ]);
  create_user = λ t e p w. ok none;
}

abbrev site : Site
site = record {
  server = server;
  production = true;
  generate = λ _. text "n";
  sent = record {
    origin = some (text "https://site");
    host = some (text "site");
    forwarded = none;
    nonce_cookie = none;
    body = none;
  };
  calls = [];
  is_secure = true;
  waited = 299;
}

abbrev wallet : Wallet
wallet = record {
  address = some (text "0xab");
  chain_id = some 8453;
  host = text "site";
  origin = text "https://site";
  switch_chain = λ _ _. ok tt;
  fetch_nonce = λ _. ok (record { status = 404; body = none });
  prepare = λ m. ok m.address;
  sign = λ _ m. ok m;
  fetch_verify = λ _ _. ok (record { status = 404; body = none });
  set_session = λ _ _ _. ok tt;
}

abbrev view : View
view = record { is_signing_in = false; error_shown = some (text "old"); status = none; done = [] }

ready : Ready site wallet [] (text "0xab") (text "0xab") (text "0xab") tokens
unfolding is_foreign includes starts_with strip_prefix text optional_field is_truthy get_field
    text_eq lower_ascii check_auth_rate_limit
ready = record {
  nonce_calls = [];
  nonce_let_pass = refl;
  has_nonce = refl;
  in_time = omega arith;
  cookie_accepted = refl;
  on_allowed = refl;
  prepared = refl;
  signs = refl;
  same_site = refl;
  siwe = record { success = true; chain_id = 8453; address = text "0xAB" };
  checked = refl;
  success = refl;
  chain_allowed = refl;
  secret = text "secret";
  has_secret = refl;
  verify_calls = [];
  verify_let_pass = refl;
  opens = created (text "Invalid login credentials") none refl refl refl refl;
  has_access = refl;
  has_refresh = refl;
  session_kept = refl;
}

sign_in_reaches_example : sign_in (on_site site wallet) view ≡ record {
  is_signing_in = false;
  error_shown = none;
  status = none;
  done =
      redirected (text "/dashboard")
      ∷ session_set (some (str (text "a"))) (some (str (text "r")))
      ∷ verified (sent_of wallet (text "0xab") (text "0xab"))
      ∷ signed (text "0xab")
      ∷ nonce_fetched
      ∷ [];
}
unfolding optional_field get_field text text_eq
sign_in_reaches_example =
    sign_in_reaches site wallet (text "0xab") (text "0xab") (text "0xab") tokens view refl ready

sign_in-SignedIn_example : SignedIn site wallet (text "0xab") []
unfolding text
sign_in-SignedIn_example = sign_in-SignedIn site wallet (text "0xab") view refl (
    ap (λ v. v.error_shown)
      (sign_in_reaches site wallet (text "0xab") (text "0xab") (text "0xab") tokens view refl
        ready))
