-- ===== src/Dashboard/Agent.antt =====
-- dashboard/src/app/api/agent/route.ts: what surrounds the AI agent's API, and its requests to the
-- proxy.
pub mod Values
pub mod Spending
pub mod Payment
pub mod Tools
pub mod Post
pub mod Scope
pub mod Flags
mod Tests
use x402guard.Base.{
  ℕ, Bool, Option, some, none, List, [], ◌∷◌, ◌++◌, get_or, if◌then◌else◌, leb, ◌&&◌,
}
use x402guard.Js.Text.{Text, text}
use x402guard.Js.Number.{decimal}
use x402guard.Js.Float.{Float}
use x402guard.Js.Json.{Json, Items, str, object}
use x402guard.Sdk.Errors.{Thrown, error, message_of, Result, ok, throw}
use x402guard.Sdk.Io.{Request}
use x402guard.Adapters.Openclaw.{present}
use x402guard.Dashboard.Login.{LimitAnswer}
use x402guard.Dashboard.Audit.{Condition}

-- A query of the library supabase.
pub record Question : Type 0 where
  pub table : Text
  pub columns : Text
  pub conditions : List Condition
  pub orders : List (Text × Bool)
  pub limit : Option ℕ

-- What is done outside: requests, queries, and calls of the limiter; the newest first.
pub data Act : Type 0 where
  fetched : Request → Act
  asked : Question → Act
  limited : Text → Act

abbrev pub Acts : Type 0
Acts = List Act

-- A response: its status, and its body as a text (`none` where it cannot be read).
pub record Fetched : Type 0 where
  pub status : ℕ
  pub body : Option Text

-- What comes of a request; `aborted` is the abort of the timer.
pub data Reached : Type 0 where
  answered : Fetched → Reached
  aborted : Reached
  broken : Thrown → Reached

-- What comes of a query: rows (`none` for `null`), or the message of an error.
pub data Found {ℓ} (A : Type ℓ) : Type ℓ where
  found : Option A → Found A
  problem : Text → Found A

-- The environment variables; the network, supabase, the limiter and the clock, which may depend on
-- all that was done before; JSON of texts; the texts of numbers with a fraction; the beginning of the
-- day in UTC; and the conversion of messages by the library ai. The amounts of the ledger are
-- integers above zero.
pub record AgentServer : Type 0 where
  pub demo_agent_id : Option Text
  pub proxy_url : Option Text
  pub anthropic_api_key : Option Text
  pub network : Acts → Request → Reached
  pub select : Acts → Question → Found Items
  pub select_amounts : Acts → Question → Found (List ℕ)
  pub limiter : Option (Acts → Text → Result LimitAnswer)
  pub now : Acts → ℕ
  pub today : Acts → Text
  pub parse_json : Text → Option Json
  pub stringify : Json → Text
  pub number_text : Float → Text
  pub convert_messages : Items → Result Json

abbrev pub Agent {ℓ} : Type ℓ → Type ℓ
Agent A = Acts → Result A × Acts

unfoldable pub pure {ℓ} : {A : Type ℓ} → A → Agent A
pure a t = (ok a, t)

unfoldable pub lift {ℓ} : {A : Type ℓ} → Result A → Agent A
lift r t = (r, t)

infixl 5 ◌>>=◌
unfoldable pub ◌>>=◌ {ℓ κ} : {A : Type ℓ} {B : Type κ} → Agent A → (A → Agent B) → Agent B
◌>>=◌ m f t = let (r, t') = m t in elim r [ ok a ↦ f a t' | throw e ↦ (throw e, t') ]

-- `try { m } catch { other }`
unfoldable pub or_catch {ℓ} : {A : Type ℓ} → Agent A → Agent A → Agent A
or_catch m other t = let (r, t') = m t in elim r [ ok a ↦ (ok a, t') | throw e ↦ other t' ]

abbrev pub required : Text → Option Text → Result Text
required message none = throw (error message)
required message (some v) = ok v

-- `getDemoAgentId`
unfoldable pub get_demo_agent_id : AgentServer → Result Text
get_demo_agent_id s =
    required (text "DEMO_AGENT_ID not configured — agent demo disabled") (present s.demo_agent_id)

-- `getProxyUrl`
unfoldable pub get_proxy_url : AgentServer → Result Text
get_proxy_url s =
    required (text "PROXY_URL environment variable is not configured") (present s.proxy_url)

-- `{ error: message }`
abbrev pub error_object : Text → Json
error_object message = object ((text "error", some (str message)) ∷ [])

abbrev pub parsed_or_throw : Option Json → Result Json
parsed_or_throw none = throw (error (text "Unexpected token in JSON"))
parsed_or_throw (some v) = ok v

module _ (s : AgentServer) where
  abbrev pub reach : Request → Agent Reached
  reach req t = (ok (s.network t req), fetched req ∷ t)

  abbrev parsed_text : Option Text → Result Json
  parsed_text none = throw (error (text "Body is unusable"))
  parsed_text (some body) = parsed_or_throw (s.parse_json body)

  -- `res.json()`
  unfoldable pub json_of : Fetched → Result Json
  json_of r = parsed_text r.body

  -- What `proxyFetch` makes of an answer that is not `ok`.
  unfoldable pub error_of : Fetched → Json
  error_of r = error_object (
      text "Proxy returned "
      ++ (decimal r.status ++ (text ": " ++ get_or r.body (text "Unknown error"))))

  abbrev pub settled : Reached → Result Json
  settled (answered r) = if leb 200 r.status && leb r.status 299 then json_of r else ok (error_of r)
  settled aborted = ok (error_object (text "Proxy request timed out (10s)"))
  settled (broken e) = ok (error_object (text "Proxy unreachable: " ++ message_of e))

  abbrev pub proxy_request : Text → Text → Text → Option Json → Request
  proxy_request url method path body = record {
    url = url ++ (text "/api/v1" ++ path);
    method = method;
    headers =
        (text "Content-Type", text "application/json")
        ∷ (text "Accept", text "application/json")
        ∷ [];
    body = body;
  }

  -- `proxyFetch`; the promise of `res.json()` is returned, so that what it throws is not caught.
  unfoldable pub proxy_fetch : Text → Text → Option Json → Agent Json
  unfolding get_proxy_url json_of error_of
  proxy_fetch method path body = do
    url ← lift (get_proxy_url s)
    reached ← reach (proxy_request url method path body)
    lift (settled reached)
