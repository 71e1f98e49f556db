-- ===== src/Sdk/Types.antt =====
-- examples/core/src/types.ts: what the client sends. The proxy's answers stay parsed JSON, which
-- the source casts to the response types and never validates.
use x402guard.Base.{Option, none, some, List, [], ◌∷◌}
use x402guard.Js.Text.{Text, text}
use x402guard.Js.Number.{ℤ}
use x402guard.Js.Json.{Json, num, str, arr, items_of, object}

-- The property of an optional string; a missing one is `undefined`.
abbrev pub opt_str : Option Text → Option Json
opt_str none = none
opt_str (some s) = some (str s)

abbrev pub opt_num : Option ℤ → Option Json
opt_num none = none
opt_num (some n) = some (num n)

-- The parameters are as the callers cast them: a missing one is `undefined`.
pub data RuleType : Type 0 where
  max_spend_per_tx max_spend_per_day max_leverage max_slippage : Option ℤ → RuleType
  allowed_contracts : Option (List Text) → RuleType

abbrev pub tagged : Text → Text → Option Json → Json
tagged tag key value =
    object ((text "type", some (str tag)) ∷ (text "params", some (object ((key, value) ∷ []))) ∷ [])

abbrev pub opt_strs : Option (List Text) → Option Json
opt_strs none = none
opt_strs (some r) = some (arr (items_of r))

unfoldable pub rule_type_json : RuleType → Json
rule_type_json (max_spend_per_tx n) = tagged (text "MaxSpendPerTx") (text "limit") (opt_num n)
rule_type_json (max_spend_per_day n) = tagged (text "MaxSpendPerDay") (text "limit") (opt_num n)
rule_type_json (allowed_contracts r) =
    tagged (text "AllowedContracts") (text "addresses") (opt_strs r)
rule_type_json (max_leverage n) = tagged (text "MaxLeverage") (text "max") (opt_num n)
rule_type_json (max_slippage n) = tagged (text "MaxSlippage") (text "bps") (opt_num n)

pub record ProxyRequest : Type 0 where
  pub target_url : Option Text
  pub x402_payment : Option Text
  pub x402_requirements : Option Text
  pub agent_id : Option Text
  pub session_key_id : Option Text

unfoldable pub proxy_request_json : ProxyRequest → Json
proxy_request_json r = object (
    (text "targetUrl", opt_str r.target_url)
    ∷ (text "x402Payment", opt_str r.x402_payment)
    ∷ (text "x402Requirements", opt_str r.x402_requirements)
    ∷ (text "agentId", opt_str r.agent_id)
    ∷ (text "sessionKeyId", opt_str r.session_key_id)
    ∷ [])

pub record SolanaProxyRequest : Type 0 where
  pub target_url : Option Text
  pub network : Option Text
  pub vault_owner : Option Text
  pub amount : Option ℤ
  pub destination_program : Option Text
  pub x402_payment : Option Text

unfoldable pub solana_proxy_request_json : SolanaProxyRequest → Json
solana_proxy_request_json r = object (
    (text "targetUrl", opt_str r.target_url)
    ∷ (text "network", opt_str r.network)
    ∷ (text "vaultOwner", opt_str r.vault_owner)
    ∷ (text "amount", opt_num r.amount)
    ∷ (text "destinationProgram", opt_str r.destination_program)
    ∷ (text "x402Payment", opt_str r.x402_payment)
    ∷ [])

pub record CreateAgentRequest : Type 0 where
  pub name : Option Text
  pub owner_address : Option Text

unfoldable pub create_agent_json : CreateAgentRequest → Json
create_agent_json r =
    object ((text "name", opt_str r.name) ∷ (text "owner_address", opt_str r.owner_address) ∷ [])

-- `CreateRuleRequest`
unfoldable pub create_rule_json : RuleType → Json
create_rule_json rule = object ((text "rule_type", some (rule_type_json rule)) ∷ [])

pub record CreateSessionKeyRequest : Type 0 where
  pub public_key : Option Text
  pub max_spend : Option ℤ
  pub allowed_contracts : Option (List Text)
  pub expires_at : Option Text

unfoldable pub create_session_key_json : CreateSessionKeyRequest → Json
create_session_key_json r = object (
    (text "public_key", opt_str r.public_key)
    ∷ (text "max_spend", opt_num r.max_spend)
    ∷ (text "allowed_contracts", opt_strs r.allowed_contracts)
    ∷ (text "expires_at", opt_str r.expires_at)
    ∷ [])

pub record RevokeAllRequest : Type 0 where
  pub owner_address : Option Text
  pub chain_id : Option ℤ
  pub eoa_nonce_hint : Option ℤ

unfoldable pub revoke_all_json : RevokeAllRequest → Json
revoke_all_json r = object (
    (text "owner_address", opt_str r.owner_address)
    ∷ (text "chain_id", opt_num r.chain_id)
    ∷ (text "eoa_nonce_hint", opt_num r.eoa_nonce_hint)
    ∷ [])

-- A number as JavaScript has it where the configuration is built: an integer or `NaN`.
pub data Numeric : Type 0 where
  int : ℤ → Numeric
  not_a_number : Numeric

-- `Partial<X402GuardConfig>`
pub record PartialConfig : Type 0 where
  pub proxy_url : Option Text
  pub agent_id : Option Text
  pub api_key : Option Text
  pub log_level : Option Text
  pub max_retries : Option Numeric
  pub retry_base_ms : Option Numeric
