-- ===== src/Dashboard/SignIn/Tests.antt =====
-- A wallet on another chain that switches and signs in.
use x402guard.Base.{false, some, none, [], refl}
use x402guard.Js.Text.{text, text_eq}
use x402guard.Js.Json.{Json, str, obj, field, end, get_field}
use x402guard.Sdk.Errors.{ok, property}
use x402guard.Dashboard.Agent.Values.{optional_field, is_truthy}
use x402guard.Dashboard.SignIn.{
  is_truthy, optional_field, Wallet, View, attempt, settle_view, choose_chain, sign_message, enter,
  set_status, ask, lift, pure, leave_with, catch, ◌>>=◌, ◌>>◌, sign_in,
}
use x402guard.Dashboard.SignIn.Entered.{Entered, sign_in-Entered}

abbrev tokens : Json
tokens = obj (
    field (text "access_token") (str (text "a"))
      (field (text "refresh_token") (str (text "r")) end))

abbrev wallet : Wallet
wallet = record {
  address = some (text "0xab");
  chain_id = some 1;
  host = text "host";
  origin = text "https://host";
  switch_chain = λ _ _. ok tt;
  fetch_nonce = λ _.
      ok (record { status = 200; body = some (obj (field (text "nonce") (str (text "n")) end)) });
  prepare = λ m. ok m.address;
  sign = λ _ m. ok m;
  fetch_verify =
      λ _ _. ok (record { status = 200; body = some (obj (field (text "session") tokens end)) });
  set_session = λ _ _ _. ok tt;
}

abbrev view : View
view = record { is_signing_in = false; error_shown = some (text "old"); status = none; done = [] }

sign_in-Entered_example : Entered wallet (text "0xab") [] (sign_in wallet view).done
unfolding sign_in attempt settle_view choose_chain sign_message enter set_status ask lift pure
    leave_with catch ◌>>=◌ ◌>>◌ optional_field is_truthy property get_field text text_eq
sign_in-Entered_example = sign_in-Entered wallet (text "0xab") view refl refl
