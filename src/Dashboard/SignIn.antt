-- ===== src/Dashboard/SignIn.antt =====
-- dashboard/src/hooks/use-siwe-auth.ts: the steps of signing in with a wallet, and the state that the
-- page shows of them.
mod Hooks
pub mod Laws
pub mod Went
pub mod Parts
pub mod Entered
pub mod Goes
pub mod Helped
mod Tests
unfoldable pub use Hooks.*
use x402guard.Base.{
  ℕ, ◌==◌, Bool, true, false, ◌&&◌, ◌||◌, any, Option, some, none, List, [], ◌∷◌, ◌++◌, get_or, leb,
  if◌then◌else◌,
}
use x402guard.Js.Text.{Text, text, includes}
use x402guard.Js.Number.{decimal, pos}
use x402guard.Js.Json.{Json, Fields, str, obj, end, object, to_text}
use x402guard.Sdk.Errors.{Thrown, error, other, message_of, Result, ok, throw, property}
use x402guard.Adapters.Openclaw.{present}
use x402guard.Dashboard.Agent.Values.{is_truthy, optional_field}

-- `ALLOWED_CHAIN_IDS`
abbrev pub allowed_chain_ids : List ℕ
allowed_chain_ids = 8453 ∷ 84532 ∷ []

abbrev pub base_sepolia : ℕ
base_sepolia = 84532

abbrev pub is_ok : ℕ → Bool
is_ok status = leb 200 status && leb status 299

abbrev pub parsed_body : Option Json → Result Json
parsed_body none = throw (error (text "Unexpected token in JSON"))
parsed_body (some v) = ok v

abbrev pub in_brackets : Text → ℕ → Text
in_brackets message status = message ++ (text " (" ++ (decimal status ++ text ")"))

-- The words by which a cancelled signature is told from an error of the wallet.
unfoldable pub is_cancelled : Text → Bool
unfolding includes
is_cancelled m =
    includes m (text "reject")
    || includes m (text "denied")
    || includes m (text "declined")
    || includes m (text "cancel")

abbrev pub wallet_complaint : Text → Text
wallet_complaint m =
    if is_cancelled m then text "Signature request was cancelled." else text "Wallet error: " ++ m

abbrev statement : Text
statement =
    text
      "Sign in to x402Guard Dashboard. This request will not trigger any blockchain transaction or cost any gas."

module _ (w : Wallet) where
  -- The chain that the wallet is on, after a switch to Base Sepolia where it is not allowed.
  unfoldable pub choose_chain : Step ℕ
  unfolding set_status ask leave_with catch
  choose_chain =
      let chain = get_or w.chain_id 0 in
      if any (λ c. chain == c) allowed_chain_ids then pure chain else (do
        set_status (some (text "Switching to Base Sepolia..."))
        catch
            (do ask (switched base_sepolia) (λ d. w.switch_chain d base_sepolia); pure base_sepolia)
            (λ _.
              leave_with
                (text "Wrong network. Please switch to Base or Base Sepolia in your wallet.")))

  abbrev pub nonce_in : Response → Step (Option Json)
  nonce_in r =
      if is_ok r.status
      then (do body ← lift (parsed_body r.body); lift (property (text "nonce") body))
      else lift (throw (error (in_brackets (text "Failed to fetch nonce") r.status)))

  abbrev pub message_of_sign_in : Text → ℕ → Option Json → Message
  message_of_sign_in address chain nonce = record {
    domain = w.host;
    address = address;
    statement = statement;
    uri = w.origin;
    version = text "1";
    chain_id = chain;
    nonce = nonce;
  }

  unfoldable pub sign_message : Text → Step Text
  unfolding ask leave_with catch is_cancelled
  sign_message message =
      catch (ask (signed message) (λ d. w.sign d message))
        (λ e. leave_with (wallet_complaint (message_of e)))

  abbrev pub body_or_empty : Option Json → Json
  body_or_empty none = obj end
  body_or_empty (some v) = v

  abbrev pub failure_text : ℕ → Option Json → Text
  failure_text status none = in_brackets (text "Verification failed") status
  failure_text status (some v) =
      if is_truthy (some v) then to_text v else in_brackets (text "Verification failed") status

  -- The field `session` of the server's answer.
  abbrev pub session_in : Response → Step (Option Json)
  session_in r =
      if is_ok r.status
      then (do body ← lift (parsed_body r.body); lift (property (text "session") body))
      else (do
        failure ← lift (property (text "error") (body_or_empty r.body))
        lift (throw (error (failure_text r.status failure))))

  -- The session is handed to supabase, and the browser goes to the dashboard.
  unfoldable pub enter : Option Json → Step (Unit {0})
  unfolding optional_field is_truthy ask
  enter session =
      let access = optional_field (text "access_token") session in
      let refresh = optional_field (text "refresh_token") session in
      if is_truthy access && is_truthy refresh
      then (do
        ask (session_set access refresh) (λ d. w.set_session d access refresh)
        ask (redirected (text "/dashboard")) (λ _. ok tt))
      else lift (throw (error (text "Server returned empty session. Please try again.")))

  -- What the server is sent.
  abbrev pub sent_of : Text → Text → Json
  sent_of message signature =
      object ((text "message", some (str message)) ∷ (text "signature", some (str signature)) ∷ [])

  -- Steps 4 to 6: verify on the server, and enter.
  abbrev pub verify_and_enter : Text → Text → Step (Unit {0})
  verify_and_enter message signature = do
    set_status (some (text "Verifying signature..."))
    verdict ←
        ask (verified (sent_of message signature))
          (λ d. w.fetch_verify d (sent_of message signature))
    session ← session_in verdict
    enter session

  -- From step 3 on: sign with the wallet.
  abbrev pub sign_and_enter : Text → Step (Unit {0})
  sign_and_enter message = do
    set_status (some (text "Check your wallet to sign the message..."))
    signature ← sign_message message
    verify_and_enter message signature

  -- From step 2 on: build the message.
  abbrev pub prepare_and_enter : Text → ℕ → Option Json → Step (Unit {0})
  prepare_and_enter address chain nonce = do
    message ← lift (w.prepare (message_of_sign_in address chain nonce))
    sign_and_enter message

  -- From step 1 on: fetch the nonce.
  abbrev pub fetch_and_enter : Text → ℕ → Step (Unit {0})
  fetch_and_enter address chain = do
    set_status none
    answer ← ask nonce_fetched w.fetch_nonce
    nonce ← nonce_in answer
    prepare_and_enter address chain nonce

  -- The `try` block, for a wallet with an address.
  unfoldable pub attempt : Text → Step (Unit {0})
  unfolding choose_chain sign_message enter
  attempt address = do chain ← choose_chain; fetch_and_enter address chain

  -- `err instanceof Error ? err.message : 'Sign-in failed'`
  abbrev failure_message : Thrown → Text
  failure_message (other _) = text "Sign-in failed"
  failure_message e = message_of e

  -- The blocks `catch` and `finally`.
  unfoldable pub settle_view : Flow (Unit {0}) × View → View
  settle_view (fail e, v) = record v {
    error_shown = some (failure_message e);
    is_signing_in = false;
    status = none;
  }
  settle_view (_, v) = record v { is_signing_in = false; status = none }

  abbrev pub sign_in_as : Option Text → View → View
  sign_in_as none v = record v {
    error_shown = some (text "Wallet not connected. Please connect your wallet first.");
  }
  sign_in_as (some address) v =
      settle_view
        (attempt address (record v { is_signing_in = true; error_shown = none; status = none }))

  -- `signIn`
  unfoldable pub sign_in : View → View
  unfolding attempt settle_view
  sign_in v = sign_in_as (present w.address) v
