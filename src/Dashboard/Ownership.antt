-- ===== src/Dashboard/Ownership.antt =====
-- dashboard/src/app/dashboard/actions.ts: the check that the user owns the agent.
pub mod Laws
pub mod Converse
use x402guard.Base.{
  ℕ, zero, Bool, true, false, ◌&&◌, ◌||◌, leb, ◌==◌, Option, some, none, List, [], ◌∷◌, ◌++◌,
  if◌then◌else◌,
}
use x402guard.Js.Text.{Text, text, text_eq, is_empty, is_digit}
use x402guard.Js.Json.{Json, null, bool, num, str, arr, obj, object}
use x402guard.Js.Number.{pos}
use x402guard.Sdk.Errors.{Thrown, type_error, Result, ok, throw, property, bind_result}
use x402guard.Sdk.Io.{
  Request, Response, Reply, resolved, rejected, called, Io, pure, lift, catch, ◌>>=◌, is_ok, json,
  settle,
}
use x402guard.Dashboard.Session.{Server, User, skips_auth, verify_session}

-- `[0-9a-f]` with the flag `i`
abbrev pub is_hex : ℕ → Bool
is_hex c = is_digit c || (leb b'a' c && leb c b'f') || (leb b'A' c && leb c b'F')

-- Every character is a hexadecimal digit where the template has an x, and as the template elsewhere.
unfoldable pub fits : Text → Text → Bool
fits [] [] = true
fits (k ∷ ks) (c ∷ s) = (if k == b'x' then is_hex c else c == k) && fits ks s
fits _ _ = false

-- `UUID_RE.test(s)`
unfoldable pub is_uuid : Text → Bool
unfolding fits text
is_uuid s = fits (text "xxxxxxxx-xxxx-xxxx-xxxx-xxxxxxxxxxxx") s

abbrev key_headers : Text → List (Text × Text)
key_headers key = if is_empty key then [] else (text "X-Api-Key", key) ∷ []

-- `apiHeaders`
abbrev pub api_headers : Server → List (Text × Text)
api_headers server =
    (text "Content-Type", text "application/json") ∷ key_headers server.management_api_key

-- `apiHeadersNoBody`
abbrev pub api_headers_no_body : Server → List (Text × Text)
api_headers_no_body server = key_headers server.management_api_key

unfoldable pub fetch : Server → Request → Io Response
fetch server req t = (settle (server.network t req), called req ∷ t)

unfoldable pub agent_url : Server → Text → Text
agent_url server id = server.proxy_base ++ (text "/api/v1/agents/" ++ id)

abbrev pub agent_request : Server → Text → Request
agent_request server id = record {
  url = agent_url server id;
  method = text "GET";
  headers = api_headers_no_body server;
  body = none;
}

-- `v?.k`
abbrev optional_property : Text → Option Json → Result (Option Json)
optional_property k none = ok none
optional_property k (some null) = ok none
optional_property k (some v) = property k v

-- The string that a truthy value with a method `toLowerCase` is; `none` where the value is falsy.
abbrev pub truthy_string : Option Json → Result (Option Text)
truthy_string none = ok none
truthy_string (some null) = ok none
truthy_string (some (str s)) = if is_empty s then ok none else ok (some s)
truthy_string (some (bool false)) = ok none
truthy_string (some (num (pos zero))) = ok none
truthy_string (some _) = throw (type_error (text "ownerAddress.toLowerCase is not a function"))

-- `body.data?.owner_address`, as a string
unfoldable pub owner_of : Json → Result (Option Text)
unfolding property
owner_of body =
    bind_result (property (text "data") body)
      (λ agent. bind_result (optional_property (text "owner_address") agent) truthy_string)

-- The complaint about an agent whose owner is not the wallet; `none` where there is none.
unfoldable pub compare_owner : Server → Text → Option Text → Option Text
compare_owner server wallet none = some (text "Agent has no owner")
compare_owner server wallet (some owner) =
    if text_eq (server.to_lower_case owner) (server.to_lower_case wallet)
    then none
    else some (text "You do not own this agent")

unfoldable pub check_agent : Server → Text → Response → Io (Option Text)
unfolding owner_of compare_owner
check_agent server wallet r =
    if is_ok r
    then (do
      body ← lift (json r)
      owner ← lift (owner_of body)
      pure (compare_owner server wallet owner))
    else pure (some (text "Agent not found"))

unfoldable pub check_owner : Server → Text → Text → Io (Option Text)
unfolding fetch check_agent
check_owner server id wallet =
    catch (fetch server (agent_request server id) >>= check_agent server wallet)
      (λ _. pure (some (text "Failed to verify agent ownership")))

abbrev pub check_wallet : Server → Text → Option Text → Io (Option Text)
check_wallet server id none = pure (some (text "No wallet address in session"))
check_wallet server id (some wallet) =
    if is_empty wallet
    then pure (some (text "No wallet address in session"))
    else check_owner server id wallet

-- `assertAgentOwnership`: `none` where the user may go on.
unfoldable pub assert_agent_ownership : Server → Text → Io (Option Text)
unfolding verify_session check_owner
assert_agent_ownership server id =
    if skips_auth server
    then pure none
    else verify_session server >>= λ user. check_wallet server id user.wallet_address
