-- ===== src/Sdk/Config.antt =====
-- The client's configuration: `x402GuardConfigSchema` (examples/core/src/types.ts) and the merge
-- with the environment in the client's constructor (examples/core/src/client.ts).
pub mod Laws
use x402guard.Base.{
  ℕ, ◌≤◌, Bool, true, false, ◌&&◌, ◌||◌, Option, none, some, List, [], ◌∷◌, leb, any, or_else,
  if◌then◌else◌,
}
use x402guard.Js.Text.{Text, text, text_eq}
use x402guard.Js.Number.{ℤ, pos, negsuc}
use x402guard.Sdk.Errors.{Result, ok, throw, error}
use x402guard.Sdk.Io.{Network}
use x402guard.Sdk.Types.{PartialConfig, Numeric, int, not_a_number}

-- What surrounds the program: the environment variables, the network, and of the library zod its
-- test of a URL and the message of its error.
pub record Host : Type 0 where
  pub env_proxy_url : Option Text
  pub env_agent_id : Option Text
  pub env_api_key : Option Text
  pub is_url : Text → Bool
  pub zod_message : PartialConfig → Text
  pub network : Network

-- `X402GuardConfig`
pub record Config : Type 0 where
  pub proxy_url : Text
  pub agent_id : Option Text
  pub api_key : Option Text
  pub log_level : Option Text
  pub max_retries : ℕ
  pub retry_base_ms : ℕ

-- `config.x ?? process.env.X`
unfoldable pub merge : Host → PartialConfig → PartialConfig
merge host c = record c {
  proxy_url = or_else c.proxy_url host.env_proxy_url;
  agent_id = or_else c.agent_id host.env_agent_id;
  api_key = or_else c.api_key host.env_api_key;
}

abbrev pub log_levels : List Text
log_levels =
    text "fatal"
    ∷ text "error"
    ∷ text "warn"
    ∷ text "info"
    ∷ text "debug"
    ∷ text "trace"
    ∷ text "silent"
    ∷ []

-- `z.enum([…]).optional()`
unfoldable pub is_log_level : Option Text → Bool
is_log_level none = true
is_log_level (some s) = any (text_eq s) log_levels

-- `z.number().int().min(least).default(d)`
unfoldable pub integer_from : ℕ → ℕ → Option Numeric → Option ℕ
integer_from least d none = some d
integer_from least d (some not_a_number) = none
integer_from least d (some (int (negsuc n))) = none
integer_from least d (some (int (pos n))) = if leb least n then some n else none

-- `z.string().url()`
unfoldable pub url_from : (Text → Bool) → Option Text → Option Text
url_from is_url none = none
url_from is_url (some s) = if is_url s then some s else none

infixl 5 ◌>>=◌
abbrev ◌>>=◌ {ℓ κ} : {A : Type ℓ} {B : Type κ} → Option A → (A → Option B) → Option B
none >>= k = none
some a >>= k = k a

abbrev when {ℓ} : {A : Type ℓ} → Bool → A → Option A
when b a = if b then some a else none

-- The value that the schema accepts, with its defaults.
unfoldable pub validate : Host → PartialConfig → Option Config
unfolding url_from integer_from is_log_level
validate host c = do
  url ← url_from host.is_url c.proxy_url
  level ← when (is_log_level c.log_level) c.log_level
  retries ← integer_from 0 3 c.max_retries
  base ← integer_from 100 1000 c.retry_base_ms
  some (record {
    proxy_url = url;
    agent_id = c.agent_id;
    api_key = c.api_key;
    log_level = level;
    max_retries = retries;
    retry_base_ms = base;
  })

abbrev or_zod_error : Host → PartialConfig → Option Config → Result Config
or_zod_error host c none = throw (error (host.zod_message c))
or_zod_error host c (some config) = ok config

-- `x402GuardConfigSchema.parse(merged)`
unfoldable pub parse_config : Host → PartialConfig → Result Config
unfolding merge validate
parse_config host c = or_zod_error host (merge host c) (validate host (merge host c))
