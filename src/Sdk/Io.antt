-- ===== src/Sdk/Io.antt =====
-- Effects of the TypeScript code: the events of a run (requests sent, timers awaited, log lines),
-- and a state and exception monad over them.
use x402guard.Base.{ℕ, suc, Bool, ◌&&◌, Option, none, some, List, [], ◌∷◌, leb}
use x402guard.Js.Text.{Text, text}
use x402guard.Js.Number.{ℤ}
use x402guard.Js.Json.{Json}
use x402guard.Sdk.Errors.{Thrown, error, Result, ok, throw}

-- What is passed to `fetch`; the body is the value that `JSON.stringify` prints.
pub record Request : Type 0 where
  pub url : Text
  pub method : Text
  pub headers : List (Text × Text)
  pub body : Option Json

-- What `fetch` resolves to: the status, the header `Retry-After`, and the JSON value of the body
-- (`none` where it is no JSON).
pub record Response : Type 0 where
  pub status : ℕ
  pub retry_after : Option Text
  pub body : Option Json

pub data Reply : Type 0 where
  resolved : Response → Reply
  rejected : Thrown → Reply

pub data Level : Type 0 where
  debug info warn error_level : Level

-- `slept` holds the argument of `setTimeout`, in milliseconds; `revalidated` is a page whose cache
-- the dashboard drops.
pub data Event : Type 0 where
  called : Request → Event
  slept : ℤ → Event
  logged : Level → Text → Event
  revalidated : Text → Event

-- The events so far, the newest first.
abbrev pub Trace : Type 0
Trace = List Event

-- What the network answers, as it likes: it may depend on all that happened before.
abbrev pub Network : Type 0
Network = Trace → Request → Reply

abbrev pub Io {ℓ} : Type ℓ → Type ℓ
Io A = Trace → Result A × Trace

abbrev pub settle : Reply → Result Response
settle (resolved r) = ok r
settle (rejected e) = throw e

module _ {ℓ} {A : Type ℓ} where
  abbrev pub pure : A → Io A
  pure a t = (ok a, t)

  abbrev pub raise : Thrown → Io A
  raise e t = (throw e, t)

  -- A computation that may throw and does nothing else.
  abbrev pub lift : Result A → Io A
  lift r t = (r, t)

  -- `try { m } catch (e) { handler e }`
  abbrev pub catch : Io A → (Thrown → Io A) → Io A
  catch m handler t = let (r, t') = m t in elim r [ ok a ↦ (ok a, t') | throw e ↦ handler e t' ]

infixl 5 ◌>>=◌ ◌>>◌
abbrev pub ◌>>=◌ {ℓ κ} : {A : Type ℓ} {B : Type κ} → Io A → (A → Io B) → Io B
◌>>=◌ m f t = let (r, t') = m t in elim r [ ok a ↦ f a t' | throw e ↦ (throw e, t') ]

abbrev pub ◌>>◌ {ℓ κ} : {A : Type ℓ} {B : Type κ} → Io A → Io B → Io B
m >> k = m >>= λ _. k

abbrev pub log : Level → Text → Io (Unit {0})
log level message t = (ok tt, logged level message ∷ t)

abbrev pub sleep : ℤ → Io (Unit {0})
sleep ms t = (ok tt, slept ms ∷ t)

-- `response.ok`
abbrev pub is_ok : Response → Bool
is_ok r = leb 200 r.status && leb r.status 299

-- `response.json()`
abbrev pub json : Response → Result Json
json r = elim r.body [ none ↦ throw (error (text "Unexpected token in JSON")) | some v ↦ ok v ]

-- How many requests were sent.
abbrev pub count_calls : Trace → ℕ
count_calls [] = 0
count_calls (called _ ∷ t) = suc (count_calls t)
count_calls (_ ∷ t) = count_calls t
