-- ===== src/Sdk/Errors/Messages.antt =====
-- The messages with which the proxy reports a violated rule (proxy/src/middleware/guardrails.rs).
use x402guard.Base.{ℕ, Bool, true, false, some, [], ◌∷◌, ◌++◌}
use x402guard.Js.Text.{Text, text}
use x402guard.Js.Number.{decimal, pos}
use x402guard.Js.Json.{Json, num, str, object}

-- `check_max_spend_per_tx`
unfoldable pub spend_tx_message : ℕ → ℕ → Text
spend_tx_message value limit =
    text "MaxSpendPerTx exceeded: payment "
    ++ (decimal value ++ (text " > limit " ++ decimal limit))

-- `check_max_spend_per_day`
unfoldable pub spend_day_message : ℕ → ℕ → Text
spend_day_message total limit =
    text "MaxSpendPerDay exceeded: daily total "
    ++ (decimal total ++ (text " > limit " ++ decimal limit))

-- `check_allowed_contracts`
unfoldable pub contract_message : Text → Text
contract_message target = text "AllowedContracts: target " ++ (target ++ text " not in whitelist")

-- `check_allowed_contracts` where the whitelist is empty
unfoldable pub empty_whitelist_message : Text
empty_whitelist_message = text "AllowedContracts: empty whitelist — all targets denied"

-- `check_max_leverage`
unfoldable pub leverage_message : ℕ → ℕ → Text
leverage_message leverage max =
    text "MaxLeverage exceeded: " ++ (decimal leverage ++ (text " > max " ++ decimal max))

-- `check_max_leverage` where the leverage is no 32-bit integer
unfoldable pub invalid_leverage_message : Text
invalid_leverage_message = text "MaxLeverage: invalid leverage value"

-- `check_max_slippage` where the slippage is no 32-bit integer
unfoldable pub invalid_slippage_message : Text
invalid_slippage_message = text "MaxSlippage: invalid slippage value"

-- `check_max_slippage`
unfoldable pub slippage_message : ℕ → ℕ → Text
slippage_message slippage max_bps =
    text "MaxSlippage exceeded: "
    ++ (decimal slippage ++ (text " bps > max " ++ (decimal max_bps ++ text " bps")))

-- A violation as the proxy reports it: the rule, and with most of them what was asked for and what it allows.
pub data ProxyViolation : Type 0 where
  spend_tx spend_day leverage slippage : ℕ → ℕ → ProxyViolation
  contract : Text → ProxyViolation
  empty_whitelist invalid_leverage invalid_slippage : ProxyViolation

unfoldable pub print : ProxyViolation → Text
unfolding spend_tx_message spend_day_message leverage_message slippage_message contract_message
    empty_whitelist_message invalid_leverage_message invalid_slippage_message
print (spend_tx value limit) = spend_tx_message value limit
print (spend_day total limit) = spend_day_message total limit
print (leverage asked max) = leverage_message asked max
print (slippage asked max_bps) = slippage_message asked max_bps
print (contract target) = contract_message target
print empty_whitelist = empty_whitelist_message
print invalid_leverage = invalid_leverage_message
print invalid_slippage = invalid_slippage_message

-- The display form of `AppError::GuardrailViolation` (proxy/src/error.rs) puts a prefix in front.
unfoldable pub framed : Bool → Text → Text
framed true m = text "guardrail violated: " ++ m
framed false m = m

-- `ErrorBody`
unfoldable pub error_body : Text → ℕ → Json
error_body message code =
    object ((text "error", some (str message)) ∷ (text "code", some (num (pos code))) ∷ [])
