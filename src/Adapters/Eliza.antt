-- ===== src/Adapters/Eliza.antt =====
-- examples/elizaos/src/actions/guardedPayment.ts: the action of the ElizaOS plugin that pays.
pub mod Laws
pub mod Status
use x402guard.Base.{
  Bool, true, false, not, Option, some, none, List, [], ◌∷◌, ◌++◌, map, get_or, or_else,
  if◌then◌else◌,
}
use x402guard.Js.Text.{Text, text, text_eq, is_empty, lower_ascii}
use x402guard.Js.Number.{ℤ, pos, parse_int}
use x402guard.Js.Json.{Json, integer_text, to_text}
use x402guard.Sdk.Errors.{
  Amount, number, nan, string, Violation, Thrown, error, guardrail_violation, proxy_unreachable,
  message_of, Result, ok, throw, property,
}
use x402guard.Sdk.Io.{Io, info, warn, error_level, log, pure, lift, raise, catch, ◌>>=◌, ◌>>◌}
use x402guard.Sdk.Types.{
  Numeric, int, not_a_number, PartialConfig, ProxyRequest, SolanaProxyRequest,
}
use x402guard.Sdk.Config.{Host}
use x402guard.Sdk.Client.{Client, new_client, proxy_payment, proxy_solana_payment, health_check}
use x402guard.Adapters.Openclaw.{present}

-- The content of a message, typed as the source casts it.
pub record Content : Type 0 where
  pub target_url : Option Text
  pub x402_payment : Option Text
  pub amount : Option ℤ
  pub network : Option Text
  pub x402_requirements : Option Text
  pub session_key_id : Option Text
  pub vault_owner : Option Text
  pub destination_program : Option Text

-- `PaymentParams`
pub record PaymentParams : Type 0 where
  pub target_url : Text
  pub amount : ℤ
  pub network : Option Text
  pub x402_payment : Text
  pub x402_requirements : Option Text
  pub session_key_id : Option Text
  pub vault_owner : Option Text
  pub destination_program : Option Text

-- What is told to the callback beside a text.
pub data Attachment : Type 0 where
  nothing : Attachment
  response : Json → Attachment
  violation : Text → Amount → Amount → Attachment

-- The agent runtime: its settings, and the callback of a call if it has one.
pub record Runtime : Type 0 where
  pub setting : Text → Option Text
  pub callback : Option (Text → Attachment → Io (Unit {0}))

-- What the action returns.
pub data Outcome : Type 0 where
  failed : Text → Outcome
  done : Json → Outcome
  violated : Text → Amount → Amount → Outcome

abbrev params_of : Content → Option Text → Option Text → Option PaymentParams
params_of c (some url) (some payment) = some (record {
  target_url = url;
  amount = get_or c.amount (pos 0);
  network = c.network;
  x402_payment = payment;
  x402_requirements = c.x402_requirements;
  session_key_id = c.session_key_id;
  vault_owner = c.vault_owner;
  destination_program = c.destination_program;
})
params_of c _ _ = none

-- `extractPaymentParams`
unfoldable pub extract_payment_params : Content → Option PaymentParams
extract_payment_params c = params_of c (present c.target_url) (present c.x402_payment)

abbrev retries_of : Option Text → Option Numeric
retries_of none = none
retries_of (some s) = some (elim (parse_int s) [ none ↦ not_a_number | some n ↦ int n ])

abbrev pub client_at : Text → Option Text → Option Text → Option Numeric → PartialConfig
client_at url agent level retries = record {
  proxy_url = some url;
  agent_id = agent;
  api_key = none;
  log_level = level;
  max_retries = retries;
  retry_base_ms = none;
}

-- `buildClient`
unfoldable pub build_payment_client : Host → Runtime → Result Client
build_payment_client host rt = elim (present (rt.setting (text "X402GUARD_PROXY_URL"))) [
  | none ↦ throw (error (text "X402GUARD_PROXY_URL not configured in ElizaOS runtime settings"))
  | some url ↦ new_client host (
      client_at url (rt.setting (text "X402GUARD_AGENT_ID"))
        (rt.setting (text "X402GUARD_LOG_LEVEL"))
        (retries_of (present (rt.setting (text "X402GUARD_MAX_RETRIES")))))
]

-- `if (callback) await callback(…)`
unfoldable pub notify : Runtime → Text → Attachment → Io (Unit {0})
notify rt message attachment = elim rt.callback [
  | none ↦ pure tt
  | some call ↦ call message attachment
]

-- A message to the callback that is also the error returned.
unfoldable pub fail_with : Runtime → Text → Io Outcome
unfolding notify
fail_with rt message = do notify rt message nothing; pure (failed message)

-- `network === "solana"` in lower case; no other letter becomes one of these in lower case.
abbrev pub is_solana : Option Text → Bool
is_solana none = false
is_solana (some s) = text_eq (map lower_ascii s) (text "solana")

abbrev shown : Option Json → Text
shown none = text "undefined"
shown (some v) = to_text v

-- The answer to a payment that went through.
unfoldable pub paid : Runtime → Text → Json → Io Outcome
unfolding notify
paid rt words answer = do
  message ← lift (property (text "message") answer)
  notify rt (words ++ shown message) (response answer)
  pure (done answer)

abbrev pub evm_payment : Runtime → PaymentParams → ProxyRequest
evm_payment rt p = record {
  target_url = some p.target_url;
  x402_payment = some p.x402_payment;
  x402_requirements = some (get_or p.x402_requirements []);
  agent_id = rt.setting (text "X402GUARD_AGENT_ID");
  session_key_id = p.session_key_id;
}

abbrev pub solana_payment : PaymentParams → Text → SolanaProxyRequest
solana_payment p owner = record {
  target_url = some p.target_url;
  network = some (text "solana");
  vault_owner = some owner;
  amount = some p.amount;
  destination_program = p.destination_program;
  x402_payment = some p.x402_payment;
}

abbrev pub pay_evm : Host → Runtime → PaymentParams → Client → Io Outcome
pay_evm host rt p client = do
  log info (text "Proxying EVM payment through x402Guard")
  answer ← proxy_payment host client (evm_payment rt p)
  paid rt (text "Payment proxied successfully: ") answer

abbrev pub pay_solana : Host → Runtime → PaymentParams → Client → Option Text → Io Outcome
pay_solana host rt p client none =
    fail_with rt (text "Solana payment requires vaultOwner in message content")
pay_solana host rt p client (some owner) = do
  log info (text "Proxying Solana payment through x402Guard")
  answer ← proxy_solana_payment host client (solana_payment p owner)
  paid rt (text "Solana payment proxied successfully: ") answer

unfoldable pub pay : Host → Runtime → PaymentParams → Io Outcome
unfolding build_payment_client fail_with paid
pay host rt p = do
  client ← lift (build_payment_client host rt)
  (if is_solana p.network
      then pay_solana host rt p client (present p.vault_owner)
      else pay_evm host rt p client)

abbrev amount_text : Amount → Text
amount_text (number n) = integer_text n
amount_text nan = text "NaN"
amount_text (string s) = s

-- The lines about a violation, each after the first on a line of its own.
unfoldable pub violation_text : Violation → Text
violation_text v =
    text "Payment blocked by guardrail: "
    ++ (v.rule_type
        ++ (10 ∷ text "  Rule type: "
            ++ (v.rule_type
                ++ (10 ∷ text "  Limit:     "
                    ++ (amount_text v.limit
                        ++ (10 ∷ text "  Actual:    "
                            ++ (amount_text v.actual
                                ++ (10 ∷ text "  Message:   " ++ v.message))))))))

-- The action's answer to an error of the payment.
unfoldable pub explain : Runtime → Thrown → Io Outcome
unfolding notify violation_text fail_with message_of
explain rt (guardrail_violation v) = do
  log warn (text "Guardrail violation blocked payment")
  notify rt (violation_text v) (violation v.rule_type v.limit v.actual)
  pure (violated v.rule_type v.limit v.actual)
explain rt (proxy_unreachable url cause) = do
  log error_level (text "x402Guard proxy unreachable")
  fail_with rt (
      text "x402Guard proxy unreachable -- is docker compose up running? ("
      ++ (message_of (proxy_unreachable url cause) ++ text ")"))
explain rt e = do
  log error_level (text "Payment failed")
  fail_with rt (text "Payment failed: " ++ message_of e)

abbrev pub missing_params : Text
missing_params = text "Missing payment parameters. Required: targetUrl, x402Payment"

abbrev pub handle_params : Host → Runtime → Option PaymentParams → Io Outcome
handle_params host rt none = do log warn missing_params; fail_with rt missing_params
handle_params host rt (some p) = catch (pay host rt p) (explain rt)

-- The handler of the action `GUARDED_PAYMENT`.
unfoldable pub handler : Host → Runtime → Content → Io Outcome
unfolding extract_payment_params pay explain
handler host rt c = handle_params host rt (extract_payment_params c)

-- The action's `validate`.
unfoldable pub is_configured : Runtime → Bool
is_configured rt = elim (rt.setting (text "X402GUARD_PROXY_URL")) [
  | none ↦ false
  | some url ↦ not (is_empty url)
]
