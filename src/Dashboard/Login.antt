-- ===== src/Dashboard/Login.antt =====
-- dashboard/src/app/api/auth: the login with a signed message (verify/route.ts), and its rate limit
-- (dashboard/src/lib/rate-limit.ts).
pub mod Laws
pub mod Safety
pub mod Nonce
pub mod Accepts
use x402guard.Base.{
  ℕ, ◌-◌, ◌+◌, ◌/◌, Bool, true, false, not, ◌&&◌, ◌||◌, ◌==◌, leb, any, Option, some, none, List,
  [], ◌∷◌, ◌++◌, get_or, if◌then◌else◌,
}
use x402guard.Js.Text.{Text, text, includes, split, trim}
use x402guard.Js.Number.{ℤ, pos, negate, decimal}
use x402guard.Js.Json.{Json}
use x402guard.Sdk.Errors.{Thrown, error, Result, ok, throw, property}
use x402guard.Adapters.Openclaw.{present}

-- What a request to the API carries: the headers that are read, the nonce cookie, and the JSON body
-- if it is one.
pub record Incoming : Type 0 where
  pub origin : Option Text
  pub host : Option Text
  pub forwarded : Option Text
  pub nonce_cookie : Option Text
  pub body : Option Json

-- Calls of other services, the newest first.
pub data Call : Type 0 where
  limited : Text → Call
  signed_in : Text → Text → Call
  user_created : Text → Text → Text → Call

abbrev pub Calls : Type 0
Calls = List Call

-- What the library siwe says of a signed message.
pub record SiweResult : Type 0 where
  pub success : Bool
  pub chain_id : ℕ
  pub address : Text

-- What supabase says of a sign-in: the message of an error, and the session.
pub record SignIn : Type 0 where
  pub failure : Option Text
  pub session : Option Json

-- What the limiter says: whether to let the request pass, and when the window ends.
pub record LimitAnswer : Type 0 where
  pub success : Bool
  pub reset : ℕ

-- The environment and the libraries (the limiter of upstash if it is configured, siwe, the hash, and
-- supabase), which may answer depending on the calls so far, and the language's `toLowerCase`.
pub record LoginServer : Type 0 where
  pub wallet_secret : Option Text
  pub now : Calls → ℕ
  pub limiter : Option (Calls → Text → Result LimitAnswer)
  pub verify_message : Option Json → Option Json → Text → Result SiweResult
  pub hmac_hex : Text → Text → Text
  pub to_lower_case : Text → Text
  pub sign_in : Calls → Text → Text → Result SignIn
  pub create_user : Calls → Text → Text → Text → Result (Option Text)

-- The response: an error with its status, the answer 429 with its `Retry-After`, or the session, with
-- the nonce cookie cleared.
pub data Answer : Type 0 where
  refused : ℕ → Text → Answer
  too_many : ℤ → Answer
  session : Json → Answer

abbrev pub Auth {ℓ} : Type ℓ → Type ℓ
Auth A = Calls → Result A × Calls

unfoldable pub pure {ℓ} : {A : Type ℓ} → A → Auth A
pure a t = (ok a, t)

unfoldable pub lift {ℓ} : {A : Type ℓ} → Result A → Auth A
lift r t = (r, t)

infixl 5 ◌>>=◌
unfoldable pub ◌>>=◌ {ℓ κ} : {A : Type ℓ} {B : Type κ} → Auth A → (A → Auth B) → Auth B
◌>>=◌ m f t = let (r, t') = m t in elim r [ ok a ↦ f a t' | throw e ↦ (throw e, t') ]

-- `Math.ceil((reset - now) / 1000)`
unfoldable pub ceil_seconds : ℕ → ℕ → ℤ
ceil_seconds reset now =
    if leb now reset then pos ((reset - now + 999) / 1000) else negate ((now - reset) / 1000)

abbrev first_of : List Text → Option Text
first_of [] = none
first_of (s ∷ _) = some s

-- `forwarded?.split(",")[0]?.trim() ?? "unknown"`
unfoldable pub client_ip : Option Text → Text
client_ip none = text "unknown"
client_ip (some header) = elim (first_of (split b',' header)) [
  | none ↦ text "unknown"
  | some s ↦ trim s
]

-- The seconds to wait if the limiter blocks; an error of the limiter lets the request pass.
abbrev pub limit_verdict : LoginServer → Calls → Result LimitAnswer → Option ℤ
limit_verdict s t (ok a) = if a.success then none else some (ceil_seconds a.reset (s.now t))
limit_verdict s t (throw _) = none

abbrev pub ask_limiter :
    LoginServer → Option (Calls → Text → Result LimitAnswer) → Text → Calls → Option ℤ × Calls
ask_limiter s none id t = (none, t)
ask_limiter s (some ask) id t = (limit_verdict s (limited id ∷ t) (ask t id), limited id ∷ t)

-- `checkAuthRateLimit`
unfoldable pub check_auth_rate_limit : LoginServer → Incoming → Text → Calls → Option ℤ × Calls
unfolding client_ip ceil_seconds
check_auth_rate_limit s req endpoint =
    ask_limiter s s.limiter (endpoint ++ b':' ∷ client_ip req.forwarded)

abbrev pub mismatch : Option Text → Option Text → Bool
mismatch (some origin) (some host) = not (includes origin host)
mismatch _ _ = false

-- `origin && host && !origin.includes(host)`
unfoldable pub is_foreign : Incoming → Bool
is_foreign req = mismatch (present req.origin) (present req.host)

abbrev pub is_allowed_chain : ℕ → Bool
is_allowed_chain id = any (λ c. c == id) (8453 ∷ 84532 ∷ [])

abbrev pub email_of : Text → Text
email_of wallet = wallet ++ text "@wallet.x402guard.local"

module _ (s : LoginServer) where
  unfoldable pub call_sign_in : Text → Text → Auth SignIn
  call_sign_in email password t = (s.sign_in t email password, signed_in email password ∷ t)

  unfoldable pub call_create_user : Text → Text → Text → Auth (Option Text)
  call_create_user email password wallet t =
      (s.create_user t email password wallet, user_created email password wallet ∷ t)

  abbrev pub answer_with : Text → SignIn → Answer
  answer_with complaint r = elim r.session [ none ↦ refused 500 complaint | some v ↦ session v ]

  abbrev pub new_user_answer : SignIn → Answer
  new_user_answer r = elim r.failure [
    | some _ ↦ refused 500 (text "Failed to create session")
    | none ↦ answer_with (text "Failed to create session") r
  ]

  -- The first sign-in of a wallet that has no user yet.
  unfoldable pub register_wallet : Text → Text → Auth Answer
  unfolding call_sign_in call_create_user
  register_wallet wallet password = do
    problem ← call_create_user (email_of wallet) password wallet
    elim problem [
      | some _ ↦ pure (refused 500 (text "Failed to create user account"))
      | none ↦ (do r ← call_sign_in (email_of wallet) password; pure (new_user_answer r))
    ]

  unfoldable pub authenticate : Text → Text → Auth Answer
  unfolding register_wallet
  authenticate secret wallet = do
    r ← call_sign_in (email_of wallet) (s.hmac_hex secret wallet)
    elim r.failure [
      | none ↦ pure (answer_with (text "No session returned") r)
      | some message ↦
          (if includes message (text "Invalid login credentials")
            then register_wallet wallet (s.hmac_hex secret wallet)
            else pure (refused 500 (text "Authentication failed")))
    ]

  -- From the verified message on.
  unfoldable pub accept : Text → SiweResult → Auth Answer
  unfolding authenticate
  accept secret r =
      if r.success
      then (if is_allowed_chain r.chain_id
          then authenticate secret (s.to_lower_case r.address)
          else pure (
              refused 403 (
                text "Chain "
                ++ (decimal r.chain_id
                    ++ text " not allowed. Use Base (8453) or Base Sepolia (84532)."))))
      else pure (refused 401 (text "Invalid signature"))

  abbrev pub json_body : Option Json → Result Json
  json_body none = throw (error (text "Unexpected token in JSON"))
  json_body (some v) = ok v

  unfoldable pub attempt : Incoming → Auth Answer
  unfolding is_foreign accept
  attempt req =
      if is_foreign req
      then pure (refused 403 (text "Invalid origin"))
      else elim (present s.wallet_secret) [
        | none ↦ pure (refused 500 (text "Server configuration error"))
        | some secret ↦ (do
          body ← lift (json_body req.body)
          message ← lift (property (text "message") body)
          signature ← lift (property (text "signature") body)
          elim (present req.nonce_cookie) [
            | none ↦ pure (refused 400 (text "No nonce found. Request a new nonce first."))
            | some nonce ↦ (do r ← lift (s.verify_message message signature nonce); accept secret r)
          ])
      ]

  abbrev pub recovered : Result Answer × Calls → Answer × Calls
  recovered (ok a, t) = (a, t)
  recovered (throw _, t) = (refused 401 (text "Verification failed"), t)

  abbrev pub after_limit : Incoming → Option ℤ × Calls → Answer × Calls
  after_limit req (some seconds, t) = (too_many seconds, t)
  after_limit req (none, t) = recovered (attempt req t)

  -- `POST`
  unfoldable pub post : Incoming → Calls → Answer × Calls
  unfolding check_auth_rate_limit attempt
  post req t = after_limit req (check_auth_rate_limit s req (text "verify") t)
