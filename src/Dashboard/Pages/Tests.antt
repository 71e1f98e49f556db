-- ===== src/Dashboard/Pages/Tests.antt =====
-- Runs of the page of an agent.
use x402guard.Base.{◌≡◌, refl, inr, true, false, some, none, [], ◌++◌}
use x402guard.Js.Text.{text}
use x402guard.Js.Json.{bool, arr, nil, obj, field, end}
use x402guard.Sdk.Errors.{ok}
use x402guard.Sdk.Io.{Response, resolved}
use x402guard.Dashboard.Session.{Server}
use x402guard.Dashboard.Proxy.{PageServer}
use x402guard.Dashboard.Pages.{AgentPage, not_found, agent_page}
use x402guard.Dashboard.Pages.Laws.{Outcome, agent_page-Read}
use x402guard.Dashboard.Pages.Refused.{Denied, agent_page_404, agent_page_keyless}

abbrev server_answering : Response → Server
server_answering r = record {
  proxy_base = text "http://p";
  management_api_key = text "k";
  is_dev = false;
  dev_skip_auth = false;
  get_user = λ _. some (record { wallet_address = none });
  to_lower_case = λ s. s;
  network = λ _ _. resolved r;
}

abbrev page_server : Response → PageServer
page_server r = record {
  server = server_answering r;
  status_text = λ _. text "Status";
  arrival = λ path. 0;
}

abbrev denied : Response
denied = record { status = 401; retry_after = none; body = none }

abbrev broken : Response
broken = record { status = 500; retry_after = none; body = none }

abbrev answered : Response
answered = record {
  status = 200;
  retry_after = none;
  body = some (obj (field (text "success") (bool true) (field (text "data") (arr nil) end)));
}

agent_page-Read_example : Outcome (page_server answered) (text "a") []
agent_page-Read_example = agent_page-Read (page_server answered) (text "a") []

agent_page_404_example :
    (agent_page (page_server broken) (text "a-" ++ (text "404" ++ text "-b")) []).0 ≡ ok not_found
agent_page_404_example =
    agent_page_404 (page_server broken) (text "a-") (text "-b") [] (inr (_, refl))
      λ _ _. (broken, refl, refl, tt)

agent_page_keyless_example :
    (page : AgentPage) × ((agent_page (page_server denied) (text "a") []).0 ≡ ok page) × Denied page
agent_page_keyless_example =
    agent_page_keyless (page_server denied) (text "a") [] (inr (_, refl))
      λ _ _ _ _ _. (denied, refl, refl)
