-- ===== src/Adapters/Openclaw.antt =====
-- examples/openclaw/src/plugin.ts: the plugin that registers the tools, its client that is built at
-- the first use, and what the tools in examples/openclaw/src/tools share.
pub mod Tools
pub mod Laws
pub mod Payments
pub mod Rules
use x402guard.Base.{
  false, Bool, Option, some, none, List, [], ◌∷◌, ◌++◌, or_else, map, length, ℕ, if◌then◌else◌,
}
use x402guard.Js.Text.{Text, text, is_empty}
use x402guard.Js.Number.{ℤ, decimal}
use x402guard.Js.Json.{Json, bool, str}
use x402guard.Sdk.Errors.{Amount, Thrown, error, Result, ok, throw}
use x402guard.Sdk.Io.{Io, Trace, Event, logged, info}
use x402guard.Sdk.Types.{PartialConfig}
use x402guard.Sdk.Config.{Host}
use x402guard.Sdk.Client.{Client, new_client}

-- The input of a tool, typed as the tools' input schemas say.
pub record Input : Type 0 where
  pub agent_id : Option Text
  pub name : Option Text
  pub owner_address : Option Text
  pub rule_type : Option Text
  pub limit : Option ℤ
  pub addresses : Option (List Text)
  pub max : Option ℤ
  pub bps : Option ℤ
  pub public_key : Option Text
  pub max_spend : Option ℤ
  pub allowed_contracts : Option (List Text)
  pub expires_at : Option Text
  pub key_id : Option Text
  pub target_url : Option Text
  pub x402_payment : Option Text
  pub x402_requirements : Option Text
  pub session_key_id : Option Text
  pub network : Option Text
  pub vault_owner : Option Text
  pub amount : Option ℤ
  pub destination_program : Option Text
  pub chain_id : Option ℤ

-- A property of a tool's result: a parsed value (`none` for `undefined`) or a detail of a violation.
pub data Value : Type 0 where
  json : Option Json → Value
  detail : Amount → Value

abbrev pub Output : Type 0
Output = List (Text × Value)

abbrev pub flag : Bool → Value
flag b = json (some (bool b))

abbrev pub words : Text → Value
words s = json (some (str s))

-- The variable `client` of the plugin, and the events so far.
abbrev pub State : Type 0
State = Option Client × Trace

abbrev pub Plugin {ℓ} : Type ℓ → Type ℓ
Plugin A = State → Result A × State

module _ {ℓ} {A : Type ℓ} where
  unfoldable pub pure : A → Plugin A
  pure a s = (ok a, s)

  abbrev pub raise : Thrown → Plugin A
  raise e s = (throw e, s)

  -- A call of the client.
  unfoldable pub on : Io A → Plugin A
  on m (k, t) = let (r, t') = m t in (r, (k, t'))

  unfoldable pub lift : Result A → Plugin A
  lift r s = (r, s)

  unfoldable pub catch : Plugin A → (Thrown → Plugin A) → Plugin A
  catch m handler s = let (r, s') = m s in elim r [ ok a ↦ (ok a, s') | throw e ↦ handler e s' ]

infixl 5 ◌>>=◌ ◌>>◌
unfoldable pub ◌>>=◌ {ℓ κ} : {A : Type ℓ} {B : Type κ} → Plugin A → (A → Plugin B) → Plugin B
◌>>=◌ m f s = let (r, s') = m s in elim r [ ok a ↦ f a s' | throw e ↦ (throw e, s') ]

abbrev pub ◌>>◌ {ℓ κ} : {A : Type ℓ} {B : Type κ} → Plugin A → Plugin B → Plugin B
m >> k = m >>= λ _. k

-- The configuration of the plugin, which `register` reads once.
pub record Settings : Type 0 where
  pub proxy_url : Text
  pub default_agent_id : Option Text
  pub api_key : Option Text

pub record PluginConfig : Type 0 where
  pub proxy_url : Option Text
  pub agent_id : Option Text
  pub api_key : Option Text

abbrev not_configured : Text
not_configured =
    text
      "x402Guard: proxyUrl not configured. Set it in openclaw.json (plugins.entries.x402guard.config.proxyUrl) or via X402GUARD_PROXY_URL environment variable."

-- `!s` for an optional text is false.
abbrev pub present : Option Text → Option Text
present none = none
present (some s) = if is_empty s then none else some s

-- `resolveProxyUrl`
unfoldable pub resolve_proxy_url : Host → PluginConfig → Result Text
resolve_proxy_url host config = elim (present (or_else config.proxy_url host.env_proxy_url)) [
  | none ↦ throw (error not_configured)
  | some url ↦ ok url
]

-- `resolveAgentId`
unfoldable pub resolve_agent_id : Host → PluginConfig → Option Text
resolve_agent_id host config = or_else config.agent_id host.env_agent_id

-- `resolveApiKey`
unfoldable pub resolve_api_key : Host → PluginConfig → Option Text
resolve_api_key host config = or_else config.api_key host.env_api_key

module _ (host : Host) (settings : Settings) where
  unfoldable pub build_client : Result Client
  build_client = new_client host (record {
    proxy_url = some settings.proxy_url;
    agent_id = settings.default_agent_id;
    api_key = settings.api_key;
    log_level = none;
    max_retries = none;
    retry_base_ms = none;
  })

  abbrev pub remember : Trace → Result Client → Result Client × State
  remember t (ok c) = (ok c, (some c, t))
  remember t (throw e) = (throw e, (none, t))

  -- `getClient`: the client is built once, at the first call that succeeds.
  unfoldable pub get_client : Plugin Client
  unfolding build_client
  get_client (some c, t) = (ok c, (some c, t))
  get_client (none, t) = remember t build_client

abbrev pub agent_required : Output
agent_required =
    (text "success", flag false)
    ∷ (text "error", words (text "agent_id is required (no default configured)"))
    ∷ []

-- `(input.agent_id ?? defaultAgentId)`, and the answer where that is missing or empty.
unfoldable pub with_agent : Settings → Input → (Text → Plugin Output) → Plugin Output
with_agent settings input handler =
    elim (present (or_else input.agent_id settings.default_agent_id)) [
      | none ↦ pure agent_required
      | some id ↦ handler id
    ]

pub data Tool : Type 0 where
  health_check create_agent get_agent create_rule list_rules create_session_key list_session_keys
        revoke_session_key proxy_payment proxy_solana_payment revoke_all :
      Tool

abbrev pub tools : List Tool
tools =
    health_check ∷ create_agent ∷ get_agent ∷ create_rule ∷ list_rules ∷ create_session_key
    ∷ list_session_keys ∷ revoke_session_key ∷ proxy_payment ∷ proxy_solana_payment ∷ revoke_all
    ∷ []

abbrev default_agent_note : Option Text → Text
default_agent_note none = []
default_agent_note (some id) = text " (default agent: " ++ (id ++ text ")")

-- `register`: the settings and the tools, or the error for a missing URL.
unfoldable pub register : Host → PluginConfig → Trace → Result (Settings × List Tool) × Trace
unfolding resolve_proxy_url resolve_agent_id resolve_api_key
register host config t = elim (resolve_proxy_url host config) [
  | throw e ↦ (throw e, t)
  | ok url ↦ (
    ok (
      record {
        proxy_url = url;
        default_agent_id = resolve_agent_id host config;
        api_key = resolve_api_key host config;
      },
      tools,
    ),
    logged info (
          text "x402Guard plugin registered "
          ++ (decimal (length tools)
              ++ (text " tools" ++ default_agent_note (present (resolve_agent_id host config)))))
        ∷ logged info (text "x402Guard plugin initializing (proxy: " ++ (url ++ text ")"))
        ∷ t,
  )
]
