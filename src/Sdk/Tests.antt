-- ===== src/Sdk/Tests.antt =====
-- Runs of the SDK at concrete inputs: a network that is always busy, one that is offline, and one
-- on which the proxy blocks every payment.
use x402guard.Base.{
  List, ◌+◌, ◌*◌, ◌≤◌, ◌<◌, ◌≡◌, refl, ◌⊎◌, true, false, none, some, [], ◌∷◌, ◌==◌, arith, or_else,
}
use x402guard.Js.Text.{Text, text_eq, text, split, drop_end}
use x402guard.Js.Number.{scale, decimal, to_double}
use x402guard.Js.Uri.Laws.{is_segment_char}
use x402guard.Js.Text.Laws.{Each}
use x402guard.Js.Url.{read_segments}
use x402guard.Js.Uri.{encode_uri_component}
use x402guard.Sdk.Errors.{type_error}
use x402guard.Sdk.Errors.Messages.{leverage, print, framed, error_body}
use x402guard.Sdk.Io.{Request, Network, resolved, rejected, called, settle, count_calls}
use x402guard.Sdk.Retry.{
  RetryConfig, retry_after_secs, fetch_with_retry, rate_limit_delay, timer_ms,
}
use x402guard.Sdk.Retry.Laws.{is_retryable, Ends, fetch_with_retry-Ends, fetch_with_retry_first}
use x402guard.Sdk.Retry.Waits.{total_wait, fetch_with_retry_waits, rate_limit_delay_timer}
use x402guard.Sdk.Types.{PartialConfig}
use x402guard.Sdk.Config.{merge, Host, Config}
use x402guard.Sdk.Config.Laws.{IsValid, new_client-IsValid}
use x402guard.Sdk.Client.{Client, new_client, request, request_of, session_key_path}
use x402guard.Sdk.Client.Outcome.{verdict, request-verdict}
use x402guard.Sdk.Client.ErrorClasses.{Avoids, request-Avoids}
use x402guard.Sdk.Client.Paths.{session_key_path_stays}

abbrev one_retry : RetryConfig
one_retry = record { max_retries = 1; retry_base_ms = 100 }

abbrev ping : Request
ping = record { url = text "http://p"; method = text "GET"; headers = []; body = none }

abbrev busy : Network
busy _ _ = resolved (record { status = 429; retry_after = none; body = none })

abbrev offline : Network
offline _ _ = rejected (type_error (text "fetch failed"))

abbrev blocking : Network
blocking _ _ = resolved (record {
  status = 403;
  retry_after = none;
  body = some (error_body (framed true (print (leverage 10 5))) 403);
})

abbrev host_on : Network → Host
host_on net = record {
  env_proxy_url = some (text "http://p/");
  env_agent_id = none;
  env_api_key = none;
  is_url = λ _. true;
  zod_message = λ _. text "invalid";
  network = net;
}

abbrev no_config : PartialConfig
no_config = record {
  proxy_url = none;
  agent_id = none;
  api_key = none;
  log_level = none;
  max_retries = none;
  retry_base_ms = none;
}

abbrev defaults : Config
defaults = record {
  proxy_url = text "http://p/";
  agent_id = none;
  api_key = none;
  log_level = none;
  max_retries = 3;
  retry_base_ms = 1000;
}

abbrev client : Client
client = record { config = defaults; base_url = text "http://p" }

fetch_with_retry-Ends_example :
    Ends busy one_retry ping 2 [] (fetch_with_retry busy one_retry ping [])
fetch_with_retry-Ends_example = fetch_with_retry-Ends busy one_retry ping []

fetch_with_retry_first_example :
    fetch_with_retry blocking one_retry ping [] ≡ (settle (blocking [] ping), called ping ∷ [])
fetch_with_retry_first_example = fetch_with_retry_first blocking one_retry ping [] refl

fetch_with_retry_waits_example :
    let (r, t) = fetch_with_retry busy one_retry ping [] in
    (r ≡ settle (busy [] ping)) × (count_calls t ≡ 2) × (total_wait t + 1000 ≡ 1000 * 2)
unfolding scale retry_after_secs to_double
fetch_with_retry_waits_example =
    fetch_with_retry_waits busy one_retry ping (busy [] ping) 1000 (λ _. refl) refl refl []

rate_limit_delay_timer_example : timer_ms (rate_limit_delay (some (decimal 5)) 2) ≡ 20000
rate_limit_delay_timer_example = rate_limit_delay_timer 5 2 (omega arith) (omega arith)

request-verdict_example :
    let (r, t) = request (host_on busy) client (text "GET") (text "/health") none [] in
    let sent = request_of client (text "GET") (text "/health") none in
    (before : _) × (t ≡ called sent ∷ before)
    × (r ≡ verdict client (busy before sent))
    × (count_calls t ≤ 4)
    × (0 < count_calls t)
    × ((count_calls t ≡ 4) ⊎ (is_retryable (busy before sent) ≡ false))
request-verdict_example =
    request-verdict (host_on busy) client (text "GET") (text "/health") none []

request-Avoids_example :
    Avoids (request (host_on blocking) client (text "GET") (text "/health") none []).0
request-Avoids_example =
    request-Avoids (host_on blocking) client (text "GET") (text "/health") none [] (λ u e h. cc)

session_key_path_stays_example :
    (parts : List Text) × (split b'/' (session_key_path (text "a/b") (text "../k")) ≡ [] ∷ parts)
    × (read_segments [] parts
        ≡ encode_uri_component (text "../k")
          ∷ text "session-keys"
          ∷ encode_uri_component (text "a/b")
          ∷ text "agents"
          ∷ [])
    × Each is_segment_char (encode_uri_component (text "a/b"))
    × Each is_segment_char (encode_uri_component (text "../k"))
unfolding text text_eq
session_key_path_stays_example =
    session_key_path_stays [] (text "a/b") (text "../k")
      ((omega arith, (omega arith, (omega arith, tt))), refl, refl)
      ((omega arith, (omega arith, (omega arith, (omega arith, tt)))), refl, refl)

new_client-IsValid_example :
    IsValid (host_on offline) defaults
    × (or_else none (some (text "http://p/")) ≡ some (text "http://p/"))
    × (or_else none none ≡ client.config.agent_id)
    × (text "http://p" ≡ drop_end (λ c. c == b'/') (text "http://p/"))
    × (drop_end (λ c. c == b'/') (text "http://p") ≡ text "http://p")
unfolding new_client merge text drop_end
new_client-IsValid_example = new_client-IsValid (host_on offline) no_config client refl
