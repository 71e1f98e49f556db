-- ===== src/Adapters/Tests.antt =====
-- Runs of the adapters at concrete inputs.
use x402guard.Base.{get_or, sym, ap, ◌≡◌, refl, true, some, none, [], if◌then◌else◌}
use x402guard.Js.Text.{text, text_eq}
use x402guard.Js.Number.{pos}
use x402guard.Js.Json.{obj, str, end, field}
use x402guard.Sdk.Errors.{ok}
use x402guard.Sdk.Errors.Messages.{leverage, print, framed, error_body}
use x402guard.Sdk.Io.{Network, Response, resolved}
use x402guard.Sdk.Config.{Host}
use x402guard.Sdk.Client.{Client, proxy_payment}
use x402guard.Adapters.Cod3x.{Adapter, AdapterConfig, PaymentRequest}
use x402guard.Adapters.Openclaw.{Input, Settings, create_rule}
use x402guard.Adapters.Openclaw.Tools.{proxy_payment_tool, run_tool}
use x402guard.Adapters.Openclaw.Payments.{IsAnswer, payment_of, proxy_payment_tool-IsAnswer}
use x402guard.Adapters.Openclaw.Laws.{Extends, run_tool-Extends}
use x402guard.Adapters.Eliza.{Runtime, Content, PaymentParams, extract_payment_params, pay, handler}
use x402guard.Adapters.Eliza.Laws.{IsPolite, answer_to, handler-answer_to}

abbrev paid : Response
paid = record {
  status = 200;
  retry_after = none;
  body = some (obj (field (text "message") (str (text "paid")) end));
}

abbrev accepting : Network
accepting _ _ = resolved paid

abbrev blocking : Network
blocking _ _ = resolved (record {
  status = 403;
  retry_after = none;
  body = some (error_body (framed true (print (leverage 10 5))) 403);
})

abbrev host_on : Network → Host
host_on net = record {
  env_proxy_url = some (text "http://p");
  env_agent_id = some (text "env");
  env_api_key = none;
  is_url = λ _. true;
  zod_message = λ _. text "invalid";
  network = net;
}

abbrev no_adapter_config : AdapterConfig
no_adapter_config = record {
  proxy_url = none;
  agent_id = none;
  log_level = none;
  max_retries = none;
}

abbrev client : Client
client = record {
  config = record {
    proxy_url = text "http://p";
    agent_id = some (text "env");
    api_key = none;
    log_level = none;
    max_retries = 3;
    retry_base_ms = 1000;
  };
  base_url = text "http://p";
}

abbrev adapter : Adapter
adapter = record { client = client; config = no_adapter_config }

abbrev payment : PaymentRequest
payment = record {
  request = record {
    target_url = some (text "http://s");
    x402_payment = some (text "p");
    x402_requirements = some (text "r");
    agent_id = none;
    session_key_id = none;
  };
  cod3x_session_id = some (text "s");
}

abbrev slippage_rule : Input
slippage_rule = record {
  agent_id = none;
  name = none;
  owner_address = none;
  rule_type = some (text "MaxSlippage");
  limit = none;
  addresses = none;
  max = none;
  bps = some (pos 50);
  public_key = none;
  max_spend = none;
  allowed_contracts = none;
  expires_at = none;
  key_id = none;
  target_url = some (text "http://s");
  x402_payment = some (text "p");
  x402_requirements = some (text "r");
  session_key_id = none;
  network = none;
  vault_owner = none;
  amount = none;
  destination_program = none;
  chain_id = none;
}

abbrev settings : Settings
settings = record { proxy_url = text "http://p"; default_agent_id = none; api_key = none }

proxy_payment_tool-IsAnswer_example :
    IsAnswer
      (some client)
      (proxy_payment (host_on accepting) client (payment_of settings slippage_rule) [])
      (proxy_payment_tool (host_on accepting) settings slippage_rule (some client, []))
proxy_payment_tool-IsAnswer_example =
    proxy_payment_tool-IsAnswer (host_on accepting) settings client slippage_rule []

run_tool-Extends_example :
    Extends
      (host_on accepting)
      settings
      (none, [])
      (run_tool (host_on accepting) settings create_rule slippage_rule (none, [])).1
run_tool-Extends_example =
    run_tool-Extends (host_on accepting) settings create_rule slippage_rule (none, [])

abbrev runtime : Runtime
runtime = record {
  setting =
      λ key. if text_eq key (text "X402GUARD_PROXY_URL") then some (text "http://p") else none;
  callback = some (λ message a t. (ok tt, t));
}

abbrev content : Content
content = record {
  target_url = some (text "http://s");
  x402_payment = some (text "p");
  amount = none;
  network = none;
  x402_requirements = none;
  session_key_id = none;
  vault_owner = none;
  destination_program = none;
}

abbrev no_content : Content
no_content = record content { x402_payment = none }

abbrev params : PaymentParams
params = record {
  target_url = text "http://s";
  amount = pos 0;
  network = none;
  x402_payment = text "p";
  x402_requirements = none;
  session_key_id = none;
  vault_owner = none;
  destination_program = none;
}

runtime-IsPolite : IsPolite runtime
runtime-IsPolite call given message a t = sym (ap (λ o. (get_or o call message a t).0) given)

handler-answer_to_example :
    (handler (host_on accepting) runtime content []).0
    ≡ ok (answer_to (pay (host_on accepting) runtime params []).0)
unfolding extract_payment_params text
handler-answer_to_example =
    handler-answer_to runtime runtime-IsPolite (host_on accepting) content params [] refl
