-- ===== src/Adapters/Openclaw/Tools.antt =====
-- examples/openclaw/src/tools: the handlers of the tools.
mod Answers
unfoldable pub use Answers.*
use x402guard.Base.{
  true, false, Option, some, none, List, [], ◌∷◌, ◌++◌, get_or, or_else, length, if◌then◌else◌,
}
use x402guard.Js.Text.{Text, text, text_eq}
use x402guard.Js.Number.{pos}
use x402guard.Js.Json.{Json, null, num, str, arr, obj, count_items, get_field}
use x402guard.Sdk.Errors.{
  Thrown, type_error, error, guardrail_violation, proxy_unreachable, message_of, Result, ok, throw,
  property, bind_result, map_result,
}
use x402guard.Sdk.Types.{
  RuleType, max_spend_per_tx, max_spend_per_day, allowed_contracts, max_leverage, max_slippage,
}
use x402guard.Sdk.Config.{Host}
use x402guard.Adapters.Cod3x.{code_units}
use x402guard.Adapters.Openclaw.{
  Input, json, detail, Output, flag, words, Plugin, pure, on, lift, catch, ◌>>=◌, Settings,
  get_client, with_agent, Tool, health_check, create_agent, get_agent, create_rule, list_rules,
  create_session_key, list_session_keys, revoke_session_key, proxy_payment, proxy_solana_payment,
  revoke_all,
}
use x402guard.Sdk.Client

module _ (host : Host) (settings : Settings) where
  -- `healthCheckTool`
  unfoldable pub health_check_tool : Plugin Output
  unfolding message_of
  health_check_tool =
      catch
        (do
          client ← get_client host settings
          _ ← on (Client.health_check host client)
          pure ((text "online", flag true) ∷ []))
        (λ e. pure ((text "online", flag false) ∷ (text "error", words (message_of e)) ∷ []))

  unfoldable pub create_agent_tool : Input → Plugin Output
  create_agent_tool i = do
    client ← get_client host settings
    agent ← on (
        Client.create_agent host client (record { name = i.name; owner_address = i.owner_address }))
    pure ((text "success", flag true) ∷ (text "agent", json agent) ∷ [])

  unfoldable pub get_agent_tool : Input → Plugin Output
  unfolding with_agent
  get_agent_tool i = with_agent settings i λ id. do
    client ← get_client host settings
    agent ← on (Client.get_agent host client id)
    pure ((text "success", flag true) ∷ (text "agent", json agent) ∷ [])

  unfoldable pub create_rule_tool : Input → Plugin Output
  unfolding with_agent parse_rule_type
  create_rule_tool i = with_agent settings i λ id. do
    client ← get_client host settings
    rule_type ← lift (parse_rule_type i)
    rule ← on (Client.create_rule host client id rule_type)
    pure ((text "success", flag true) ∷ (text "rule", json rule) ∷ [])

  unfoldable pub list_rules_tool : Input → Plugin Output
  unfolding with_agent length_of
  list_rules_tool i = with_agent settings i λ id. do
    client ← get_client host settings
    rules ← on (Client.list_rules host client id)
    count ← lift (length_of rules)
    pure
        ((text "success", flag true) ∷ (text "rules", json rules) ∷ (text "count", json count) ∷ [])

  unfoldable pub create_session_key_tool : Input → Plugin Output
  unfolding with_agent
  create_session_key_tool i = with_agent settings i λ id. do
    client ← get_client host settings
    key ← on (
        Client.create_session_key host client id (record {
          public_key = i.public_key;
          max_spend = i.max_spend;
          allowed_contracts = i.allowed_contracts;
          expires_at = i.expires_at;
        }))
    pure ((text "success", flag true) ∷ (text "sessionKey", json key) ∷ [])

  unfoldable pub list_session_keys_tool : Input → Plugin Output
  unfolding with_agent length_of
  list_session_keys_tool i = with_agent settings i λ id. do
    client ← get_client host settings
    keys ← on (Client.list_session_keys host client id)
    count ← lift (length_of keys)
    pure (
        (text "success", flag true)
        ∷ (text "sessionKeys", json keys)
        ∷ (text "count", json count)
        ∷ [])

  unfoldable pub revoke_session_key_tool : Input → Plugin Output
  unfolding with_agent
  revoke_session_key_tool i = with_agent settings i λ id. do
    client ← get_client host settings
    _ ← on (Client.revoke_session_key host client id (shown i.key_id))
    pure (
        (text "success", flag true)
        ∷ (text "message", words (text "Session key " ++ (shown i.key_id ++ text " revoked")))
        ∷ [])

  -- `proxyPaymentTool`
  unfoldable pub proxy_payment_tool : Input → Plugin Output
  unfolding payment_failed payment_done
  proxy_payment_tool i = do
    client ← get_client host settings
    catch
        (do
          response ← on (
              Client.proxy_payment host client (record {
                target_url = i.target_url;
                x402_payment = i.x402_payment;
                x402_requirements = i.x402_requirements;
                agent_id = or_else i.agent_id settings.default_agent_id;
                session_key_id = i.session_key_id;
              }))
          lift (payment_done response))
        (λ e. pure (payment_failed e))

  -- `proxySolanaPaymentTool`
  unfoldable pub proxy_solana_payment_tool : Input → Plugin Output
  unfolding payment_failed solana_payment_done
  proxy_solana_payment_tool i = do
    client ← get_client host settings
    catch
        (do
          response ← on (
              Client.proxy_solana_payment host client (record {
                target_url = i.target_url;
                network = i.network;
                vault_owner = i.vault_owner;
                amount = i.amount;
                destination_program = i.destination_program;
                x402_payment = i.x402_payment;
              }))
          lift (solana_payment_done response))
        (λ e. pure (payment_failed e))

  -- `revokeAllTool`
  unfoldable pub revoke_all_tool : Input → Plugin Output
  unfolding with_agent revoked_output
  revoke_all_tool i = with_agent settings i λ id. do
    client ← get_client host settings
    result ← on (
        Client.revoke_all host client id (record {
          owner_address = i.owner_address;
          chain_id = i.chain_id;
          eoa_nonce_hint = none;
        }))
    lift (revoked_output result)

  -- The handler of a tool.
  unfoldable pub run_tool : Tool → Input → Plugin Output
  run_tool health_check i = health_check_tool
  run_tool create_agent i = create_agent_tool i
  run_tool get_agent i = get_agent_tool i
  run_tool create_rule i = create_rule_tool i
  run_tool list_rules i = list_rules_tool i
  run_tool create_session_key i = create_session_key_tool i
  run_tool list_session_keys i = list_session_keys_tool i
  run_tool revoke_session_key i = revoke_session_key_tool i
  run_tool proxy_payment i = proxy_payment_tool i
  run_tool proxy_solana_payment i = proxy_solana_payment_tool i
  run_tool revoke_all i = revoke_all_tool i
