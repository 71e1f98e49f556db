-- ===== src/Dashboard/Home/Tests.antt =====
-- A user with two agents, of which one has summaries.
use x402guard.Base.{
  ◌&&◌, Bool, ◌≡◌, refl, false, some, none, [], ◌∷◌, map, List, Option, if◌then◌else◌,
}
use x402guard.Js.Text.{Text, text, text_eq, lower_ascii}
use x402guard.Js.Json.{null, str, obj, field, end}
use x402guard.Sdk.Errors.{ok}
use x402guard.Sdk.Io.{resolved}
use x402guard.Dashboard.Session.{User, Server, verify_session}
use x402guard.Dashboard.Agent.{Found, found}
use x402guard.Dashboard.Home.{AgentRow, SpendRow, HomeServer, cards, home_page}
use x402guard.Dashboard.Home.Laws.{Suits, agent_of, summaries_at, home_page-cards}

abbrev user : User
user = record { wallet_address = some (text "0xab") }

abbrev server : Server
server = record {
  proxy_base = text "http://p";
  management_api_key = text "k";
  is_dev = false;
  dev_skip_auth = false;
  get_user = λ _. some user;
  to_lower_case = map lower_ascii;
  network = λ _ _. resolved (record {
    status = 200;
    retry_after = none;
    body = some (
        obj (field (text "data") (obj (field (text "owner_address") (str (text "0xAB")) end)) end));
  });
}

abbrev first : AgentRow
first = record { id = text "1"; owner_address = text "0xAB" }

abbrev second : AgentRow
second = record { id = text "2"; owner_address = text "0xAB" }

abbrev old : SpendRow
old = record { agent_id = text "2"; figures = null }

abbrev new : SpendRow
new = record { agent_id = text "2"; figures = str (text "new") }

abbrev rows_if : Bool → Found (List AgentRow)
rows_if b = if b then found (some (first ∷ second ∷ [])) else found none

-- `ilike` on a pattern without wildcards.
abbrev same_owner : Text → Text → Bool
same_owner v pattern = text_eq (map lower_ascii v) (map lower_ascii pattern)

abbrev home : HomeServer
home = record {
  server = server;
  agents_of = λ _ q.
      rows_if (text_eq q.column (text "owner_address") && same_owner (text "0xAB") q.pattern);
  summaries_of = λ _ _. found (some (old ∷ new ∷ []));
}

home_page-cards_example :
    (cs : List (AgentRow × Option SpendRow)) × (home_page home [] ≡ (ok (cards cs), []))
    × (map agent_of cs ≡ first ∷ second ∷ [])
    × Suits (summaries_at home [] (text "0xab")) cs
unfolding verify_session text text_eq lower_ascii
home_page-cards_example =
    home_page-cards home [] user (text "0xab") first (second ∷ []) refl refl refl

abbrev shown : List (AgentRow × Option SpendRow)
shown = (first, none) ∷ (second, some new) ∷ []
