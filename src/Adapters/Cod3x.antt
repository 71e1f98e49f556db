-- ===== src/Adapters/Cod3x.antt =====
-- examples/cod3x/src: the adapter of the SDK to the Cod3x ToolChain.
pub mod Laws
use x402guard.Base.{
  Bool, ℕ, suc, ◌+◌, ltb, Option, some, none, List, [], ◌∷◌, ◌++◌, get_or, if◌then◌else◌, ◌/◌, ◌%◌,
  ◌-◌,
}
use x402guard.Js.Text.{Text, text}
use x402guard.Js.Number.{ℤ, decimal}
use x402guard.Js.Json.{
  Json, Items, Fields, null, bool, num, str, arr, obj, nil, cons, end, field, set_field,
}
use x402guard.Sdk.Errors.{Result, ok, throw}
use x402guard.Sdk.Io.{Io, info, warn, log, pure, lift, ◌>>=◌, ◌>>◌}
use x402guard.Sdk.Types.{PartialConfig, Numeric, ProxyRequest, SolanaProxyRequest, RuleType}
use x402guard.Sdk.Config.{Host}
use x402guard.Sdk.Client.{
  Client, new_client, health_check, proxy_payment, proxy_solana_payment, create_agent, create_rule,
  revoke_all,
}

-- `X402GuardCod3xAdapterConfig`
pub record AdapterConfig : Type 0 where
  pub proxy_url : Option Text
  pub agent_id : Option Text
  pub log_level : Option Text
  pub max_retries : Option Numeric

pub record Adapter : Type 0 where
  pub client : Client
  pub config : AdapterConfig

-- `Cod3xPaymentRequest`: a payment request and the session it belongs to.
pub record PaymentRequest : Type 0 where
  pub request : ProxyRequest
  pub cod3x_session_id : Option Text

abbrev pub client_config : AdapterConfig → PartialConfig
client_config c = record {
  proxy_url = c.proxy_url;
  agent_id = c.agent_id;
  api_key = none;
  log_level = c.log_level;
  max_retries = c.max_retries;
  retry_base_ms = none;
}

-- The constructor. `new_logger` is what the library pino makes of the log level: it throws on a
-- level that it does not know.
unfoldable pub new_adapter : Host → (Option Text → Result (Unit {0})) → AdapterConfig → Io Adapter
new_adapter host new_logger config = do
  lift (new_logger config.log_level)
  client ← lift (new_client host (client_config config))
  log info (text "Cod3x adapter initialized")
  pure (record { client = client; config = config })

-- The UTF-16 code units of a text.
unfoldable pub code_units : Text → List ℕ
code_units [] = []
code_units (c ∷ s) =
    let rest = code_units s in
    if ltb c 65536
    then c ∷ rest
    else (55296 + (c - 65536) / 1024) ∷ (56320 + (c - 65536) % 1024) ∷ rest

abbrev char_fields : ℕ → List ℕ → Fields
char_fields i [] = end
char_fields i (c ∷ r) = field (decimal i) (str (c ∷ [])) (char_fields (suc i) r)

abbrev item_fields : ℕ → Items → Fields
item_fields i nil = end
item_fields i (cons v vs) = field (decimal i) v (item_fields (suc i) vs)

-- `{ ...v }`
unfoldable pub spread : Json → Fields
unfolding code_units
spread null = end
spread (bool b) = end
spread (num n) = end
spread (str s) = char_fields 0 (code_units s)
spread (arr vs) = item_fields 0 vs
spread (obj fs) = fs

-- `Cod3xGuardedResponse`
unfoldable pub guarded : Json → Json
unfolding spread
guarded response = obj (set_field (text "guardedBy") (str (text "x402guard")) (spread response))

module _ (host : Host) (a : Adapter) where
  unfoldable pub adapter_health_check : Io Bool
  adapter_health_check = health_check host a.client

  -- `guardedExecute`: the session is logged and not sent.
  unfoldable pub guarded_execute : PaymentRequest → Io Json
  unfolding guarded
  guarded_execute p = do
    log info (text "Executing guarded Cod3x payment")
    response ← proxy_payment host a.client p.request
    pure (guarded response)

  unfoldable pub guarded_solana_execute : SolanaProxyRequest → Io Json
  guarded_solana_execute r =
      log info (text "Executing guarded Solana payment") >> proxy_solana_payment host a.client r

  unfoldable pub adapter_create_agent : Text → Text → Io (Option Json)
  adapter_create_agent name owner =
      log info (text "Creating agent")
      >> create_agent host a.client (record { name = some name; owner_address = some owner })

  unfoldable pub create_guardrail : Text → RuleType → Io (Option Json)
  create_guardrail id rule =
      log info (text "Creating guardrail rule") >> create_rule host a.client id rule

  unfoldable pub revoke_all_keys : Text → Text → Io (Unit {0})
  revoke_all_keys id owner =
      log warn (text "Revoking all keys and deactivating agent")
      >> (revoke_all host a.client id
            (record { owner_address = some owner; chain_id = none; eoa_nonce_hint = none })
          >> pure tt)

-- `toSecurityWorker`: the headers that the worker gives to every call.
unfoldable pub security_headers : Adapter → List (Text × Text)
security_headers a = (text "X-Agent-Id", get_or a.config.agent_id []) ∷ []
