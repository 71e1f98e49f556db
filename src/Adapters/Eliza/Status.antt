-- ===== src/Adapters/Eliza/Status.antt =====
-- examples/elizaos/src/providers/x402guard.ts and plugin.ts: the provider of the proxy's status and
-- the initialisation of the plugin, and what they make of a health check.
use x402guard.Base.{◌≡◌, refl, Bool, true, false, some, none, [], ◌++◌, or_else}
use x402guard.Js.Text.{Text, text}
use x402guard.Sdk.Errors.{proxy_unreachable, error, message_of, Result, ok, throw}
use x402guard.Sdk.Io.{Trace, pure, catch, log, info, ◌>>=◌, ◌>>◌}
use x402guard.Sdk.Config.{Host}
use x402guard.Adapters.Openclaw.{present}
use x402guard.Adapters.Eliza.{
  health_check, error_level, new_client, lift, warn, raise, Thrown, Io, Option, Runtime, client_at,
}

-- What the provider `X402GUARD_STATUS` reports: not configured, or whether it is healthy, at which
-- URL, with the error of a failed check.
pub data ProxyStatus : Type 0 where
  not_configured : ProxyStatus
  reported : Bool → Text → Option Text → ProxyStatus

abbrev pub unhealthy : Text → Thrown → Io (Text × ProxyStatus)
unhealthy url (proxy_unreachable _ _) =
    log warn (text "x402Guard proxy unreachable")
    >> pure (text "x402Guard proxy unreachable at " ++ url, reported false url none)
unhealthy url e =
    log error_level (text "Health check failed")
    >> pure (
      text "x402Guard proxy health check failed: " ++ message_of e,
      reported false url (some (message_of e)),
    )

abbrev pub check_url : Host → Runtime → Text → Io Bool
check_url host rt url = do
  client ←
      lift (new_client host (client_at url none (rt.setting (text "X402GUARD_LOG_LEVEL")) none))
  health_check host client

unfoldable pub status_at : Host → Runtime → Text → Io (Text × ProxyStatus)
unfolding message_of
status_at host rt url =
    catch
      (do
        _ ← check_url host rt url
        log info (text "x402Guard proxy is healthy")
        pure (text "x402Guard proxy is reachable at " ++ url, reported true url none))
      (unhealthy url)

-- The provider's `get`.
unfoldable pub get_status : Host → Runtime → Io (Text × ProxyStatus)
unfolding status_at
get_status host rt = elim (present (rt.setting (text "X402GUARD_PROXY_URL"))) [
  | none ↦
      log warn (text "X402GUARD_PROXY_URL not configured")
      >> pure (
        text "x402Guard proxy not configured -- set X402GUARD_PROXY_URL in character settings",
        not_configured,
      )
  | some url ↦ status_at host rt url
]

abbrev pub reworded : Text → Thrown → Io (Unit {0})
reworded url (proxy_unreachable _ _) = raise (
    error
      (text "x402Guard proxy unreachable at " ++ (url ++ text " -- is docker compose up running?")))
reworded url e = raise e

unfoldable pub connect : Host → Runtime → Text → Io (Unit {0})
connect host rt url =
    catch (do _ ← check_url host rt url; log info (text "x402Guard proxy connected successfully"))
      (reworded url)

-- The plugin's `init`.
unfoldable pub init : Host → Runtime → Io (Unit {0})
unfolding connect
init host rt =
    elim (present (or_else (rt.setting (text "X402GUARD_PROXY_URL")) host.env_proxy_url)) [
      | none ↦
          log warn
            (text "X402GUARD_PROXY_URL not configured -- plugin will not be able to proxy payments")
      | some url ↦ connect host rt url
    ]

-- What the provider should report of a check at a URL.
abbrev pub report_of : Text → Result Bool → Text × ProxyStatus
report_of url (ok _) = (text "x402Guard proxy is reachable at " ++ url, reported true url none)
report_of url (throw (proxy_unreachable _ _)) =
    (text "x402Guard proxy unreachable at " ++ url, reported false url none)
report_of url (throw e) = (
  text "x402Guard proxy health check failed: " ++ message_of e,
  reported false url (some (message_of e)),
)

-- How the initialisation should end after a check at a URL.
abbrev pub end_of : Text → Result Bool → Result (Unit {0})
end_of url (ok _) = ok tt
end_of url (throw (proxy_unreachable _ _)) = throw (
    error
      (text "x402Guard proxy unreachable at " ++ (url ++ text " -- is docker compose up running?")))
end_of url (throw e) = throw e

module _ (host : Host) (rt : Runtime) (url : Text) (t : Trace) where
  reports :
      (out : Result Bool × Trace)
      → (catch
          ((λ _. out) >>= λ _.
            log info (text "x402Guard proxy is healthy")
            >> pure (text "x402Guard proxy is reachable at " ++ url, reported true url none))
          (unhealthy url)
          []).0
        ≡ ok (report_of url out.0)
  reports (ok b, u) = refl
  reports (throw (proxy_unreachable p c), u) = refl
  reports (throw _, u) = refl

  ends :
      (out : Result Bool × Trace)
      → (catch
          ((λ _. out) >>= λ _. log info (text "x402Guard proxy connected successfully"))
          (reworded url)
          []).0
        ≡ end_of url out.0
  ends (ok b, u) = refl
  ends (throw (proxy_unreachable p c), u) = refl
  ends (throw _, u) = refl

  -- With a proxy URL in the settings the provider never throws: it reports the proxy healthy exactly
  -- if the client could be built and its health check returned, and otherwise what went wrong.
  pub get_status-report_of :
      present (rt.setting (text "X402GUARD_PROXY_URL")) ≡ some url
      → (get_status host rt t).0 ≡ ok (report_of url (check_url host rt url t).0)
  unfolding get_status status_at
  get_status-report_of given = rw (given, get_status) (reports (check_url host rt url t))

  -- With a proxy URL in the settings or in the environment, the initialisation ends without an error
  -- exactly if the health check returned; an unreachable proxy gives an error that names that URL,
  -- and any other error is passed on.
  pub init-end_of :
      present (or_else (rt.setting (text "X402GUARD_PROXY_URL")) host.env_proxy_url) ≡ some url
      → (init host rt t).0 ≡ end_of url (check_url host rt url t).0
  unfolding init connect
  init-end_of given = rw (given, init) (ends (check_url host rt url t))
