-- ===== src/Dashboard/SignIn/Hooks.antt =====
-- dashboard/src/hooks/use-siwe-auth.ts: the steps of signing in as computations on the state hooks, and
-- what surrounds them.
use x402guard.Base.{ℕ, Bool, Option, some, List, ◌∷◌}
use x402guard.Js.Text.{Text}
use x402guard.Js.Json.{Json}
use x402guard.Sdk.Errors.{Thrown, Result, ok, throw}

-- A response of the server: its status, and its JSON body if it has one.
pub record Response : Type 0 where
  pub status : ℕ
  pub body : Option Json

-- The fields of the message to sign (EIP-4361).
pub record Message : Type 0 where
  pub domain : Text
  pub address : Text
  pub statement : Text
  pub uri : Text
  pub version : Text
  pub chain_id : ℕ
  pub nonce : Option Json

-- What was done, the newest first.
pub data Done : Type 0 where
  switched : ℕ → Done
  nonce_fetched : Done
  signed : Text → Done
  verified : Json → Done
  session_set : Option Json → Option Json → Done
  redirected : Text → Done

-- The wallet, the server, supabase, the library siwe and the address of the page; they may answer
-- depending on what was done.
pub record Wallet : Type 0 where
  pub address : Option Text
  pub chain_id : Option ℕ
  pub host : Text
  pub origin : Text
  pub switch_chain : List Done → ℕ → Result (Unit {0})
  pub fetch_nonce : List Done → Result Response
  pub prepare : Message → Result Text
  pub sign : List Done → Text → Result Text
  pub fetch_verify : List Done → Json → Result Response
  pub set_session : List Done → Option Json → Option Json → Result (Unit {0})

-- The state hooks, and what was done.
pub record View : Type 0 where
  pub is_signing_in : Bool
  pub error_shown : Option Text
  pub status : Option Text
  pub done : List Done

-- How a part of the `try` block ends: with a value, with `return`, or with an exception.
pub data Flow {ℓ} (A : Type ℓ) : Type ℓ where
  go : A → Flow A
  leave : Flow A
  fail : Thrown → Flow A

abbrev pub Step {ℓ} : Type ℓ → Type ℓ
Step A = View → Flow A × View

unfoldable pub pure {ℓ} : {A : Type ℓ} → A → Step A
pure a v = (go a, v)

infixl 5 ◌>>=◌ ◌>>◌
unfoldable pub ◌>>=◌ {ℓ κ} : {A : Type ℓ} {B : Type κ} → Step A → (A → Step B) → Step B
◌>>=◌ m f v =
    let (r, v') = m v in elim r [ go a ↦ f a v' | leave ↦ (leave, v') | fail e ↦ (fail e, v') ]

unfoldable pub ◌>>◌ {ℓ κ} : {A : Type ℓ} {B : Type κ} → Step A → Step B → Step B
unfolding ◌>>=◌
m >> k = m >>= λ _. k

abbrev pub flow_of {ℓ} : {A : Type ℓ} → Result A → Flow A
flow_of (ok a) = go a
flow_of (throw e) = fail e

unfoldable pub lift {ℓ} : {A : Type ℓ} → Result A → Step A
lift r v = (flow_of r, v)

unfoldable pub set_status : Option Text → Step (Unit {0})
set_status status v = (go tt, record v { status = status })

-- What is done outside is noted before its answer comes.
unfoldable pub ask {ℓ} : {A : Type ℓ} → Done → (List Done → Result A) → Step A
ask d f v = (flow_of (f v.done), record v { done = d ∷ v.done })

-- `setError(message); return`
unfoldable pub leave_with {ℓ} : {A : Type ℓ} → Text → Step A
leave_with message v = (leave, record v { error_shown = some message })

-- `try { m } catch (e) { other e }`
unfoldable pub catch {ℓ} : {A : Type ℓ} → Step A → (Thrown → Step A) → Step A
catch m f v =
    let (r, v') = m v in elim r [ go a ↦ (go a, v') | leave ↦ (leave, v') | fail e ↦ f e v' ]
