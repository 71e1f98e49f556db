-- ===== src/Adapters/Openclaw/Tools/Answers.antt =====
-- examples/openclaw/src/tools: the rules of an input, and what the payment tools answer.
use x402guard.Base.{
  true, false, Option, some, none, List, [], ◌∷◌, ◌++◌, get_or, length, if◌then◌else◌,
}
use x402guard.Js.Text.{Text, text, text_eq}
use x402guard.Js.Number.{pos}
use x402guard.Js.Json.{Json, null, num, str, arr, obj, count_items, get_field}
use x402guard.Sdk.Errors.{
  Thrown, type_error, error, guardrail_violation, proxy_unreachable, message_of, Result, ok, throw,
  property, bind_result, map_result,
}
use x402guard.Sdk.Types.{
  RuleType, max_spend_per_tx, max_spend_per_day, allowed_contracts, max_leverage, max_slippage,
}
use x402guard.Adapters.Cod3x.{code_units}
use x402guard.Adapters.Openclaw.{Input, json, detail, Output, flag, words}

-- A text that a template prints.
abbrev pub shown : Option Text → Text
shown s = get_or s (text "undefined")

-- `v.length`
unfoldable pub length_of : Option Json → Result (Option Json)
length_of none = throw (type_error (text "Cannot read properties of undefined"))
length_of (some null) = throw (type_error (text "Cannot read properties of null"))
length_of (some (str s)) = ok (some (num (pos (length (code_units s)))))
length_of (some (arr vs)) = ok (some (num (pos (count_items vs))))
length_of (some (obj fs)) = ok (get_field (text "length") fs)
length_of (some _) = ok none

abbrev pub rule_parsers : Input → List (Text × RuleType)
rule_parsers i =
    (text "MaxSpendPerTx", max_spend_per_tx i.limit)
    ∷ (text "MaxSpendPerDay", max_spend_per_day i.limit)
    ∷ (text "AllowedContracts", allowed_contracts i.addresses)
    ∷ (text "MaxLeverage", max_leverage i.max)
    ∷ (text "MaxSlippage", max_slippage i.bps)
    ∷ []

unfoldable pub rule_named : Text → List (Text × RuleType) → Result RuleType
rule_named s [] = throw (error (text "Unknown rule type: " ++ s))
rule_named s ((name, rule) ∷ r) = if text_eq s name then ok rule else rule_named s r

-- `parseRuleType`
unfoldable pub parse_rule_type : Input → Result RuleType
unfolding rule_named
parse_rule_type i = rule_named (shown i.rule_type) (rule_parsers i)

-- The answer of a payment tool when the payment throws.
unfoldable pub payment_failed : Thrown → Output
unfolding message_of
payment_failed (guardrail_violation v) =
    (text "success", flag false)
    ∷ (text "blocked", flag true)
    ∷ (text "ruleType", words v.rule_type)
    ∷ (text "limit", detail v.limit)
    ∷ (text "actual", detail v.actual)
    ∷ (text "message", words v.message)
    ∷ []
payment_failed (proxy_unreachable url cause) =
    (text "success", flag false)
    ∷ (text "error", words (text "Proxy unreachable: " ++ message_of (proxy_unreachable url cause)))
    ∷ []
payment_failed e = (text "success", flag false) ∷ (text "error", words (message_of e)) ∷ []

-- The answer when the payment returns.
unfoldable pub payment_done : Json → Result Output
unfolding property
payment_done response = bind_result (property (text "txHash") response) (λ hash.
    map_result
      (λ message.
        (text "success", flag true)
        ∷ (text "txHash", json hash)
        ∷ (text "message", json message)
        ∷ [])
      (property (text "message") response))

unfoldable pub solana_payment_done : Json → Result Output
unfolding property
solana_payment_done response = bind_result (property (text "message") response) (λ message.
    bind_result (property (text "vaultPda") response) (λ vault.
      map_result
        (λ left.
          (text "success", flag true)
          ∷ (text "message", json message)
          ∷ (text "vaultPda", json vault)
          ∷ (text "remainingDailyCapacity", json left)
          ∷ [])
        (property (text "remainingDailyCapacity") response)))

unfoldable pub revoked_output : Json → Result Output
unfolding property
revoked_output result = bind_result (property (text "keys_revoked") result) (λ keys.
    bind_result (property (text "agent_deactivated") result) (λ gone.
      map_result
        (λ chain.
          (text "success", flag true)
          ∷ (text "keysRevoked", json keys)
          ∷ (text "agentDeactivated", json gone)
          ∷ (text "onChainAuthorization", json chain)
          ∷ [])
        (property (text "on_chain_authorization") result)))
