-- ===== src/Sdk/Retry.antt =====
-- examples/core/src/retry.ts: `fetch` with retries on 429 and on network errors.
pub mod Laws
pub mod Waits
use x402guard.Base.{
  ℕ, zero, suc, ◌+◌, ◌-◌, ◌*◌, ◌^◌, Bool, true, false, ◌&&◌, Option, none, some, [], ◌∷◌, ltb, leb,
  ◌==◌, if◌then◌else◌,
}
use x402guard.Js.Text.{Text, text, is_empty}
use x402guard.Js.Number.{ℤ, pos, negsuc, negate, scale, to_double, parse_int}
use x402guard.Sdk.Errors.{Thrown, type_error, error, Result, ok, throw}
use x402guard.Sdk.Io.{
  Request, Response, Reply, resolved, rejected, Event, called, slept, logged, warn, Trace, Network,
}

pub record RetryConfig : Type 0 where
  pub max_retries : ℕ
  pub retry_base_ms : ℕ

-- `error instanceof TypeError`
abbrev pub is_type_error : Thrown → Bool
is_type_error (type_error _) = true
is_type_error _ = false

-- The seconds that the header asks for; 1 where it is missing, empty or no number.
unfoldable pub retry_after_secs : Option Text → ℤ
retry_after_secs none = pos 1
retry_after_secs (some header) =
    if is_empty header then pos 1 else elim (parse_int header) [ none ↦ pos 1 | some n ↦ n ]

abbrev pub round : ℤ → ℤ
round (pos n) = pos (to_double n)
round (negsuc n) = negate (to_double (suc n))

-- `secs * 1000 * Math.pow(2, attempt)`; the second factor is a power of two and loses nothing.
unfoldable pub rate_limit_delay : Option Text → ℕ → ℤ
rate_limit_delay header attempt = scale (round (scale (retry_after_secs header) 1000)) (2 ^ attempt)

-- `config.retryBaseMs * Math.pow(2, attempt)`
unfoldable pub network_delay : ℕ → ℕ → ℤ
network_delay base attempt = pos (base * 2 ^ attempt)

-- How long `setTimeout` waits, in milliseconds: a delay outside 1 to 2^31 - 1 becomes 1.
unfoldable pub timer_ms : ℤ → ℕ
timer_ms (pos n) = if leb 1 n && ltb n (2 ^ 31) then n else 1
timer_ms (negsuc n) = 1

abbrev pub or_exhausted : Option Thrown → Thrown
or_exhausted none = error (text "fetchWithRetry: max retries exhausted")
or_exhausted (some e) = e

abbrev rate_limited_message : Text
rate_limited_message = text "Rate limited (429), retrying after delay"

abbrev network_error_message : Text
network_error_message = text "Network error, retrying after delay"

-- The log line and the wait between two attempts.
abbrev rate_limited_trace : Option Text → ℕ → Trace → Trace
rate_limited_trace header attempt t =
    slept (rate_limit_delay header attempt) ∷ logged warn rate_limited_message ∷ t

abbrev network_error_trace : ℕ → ℕ → Trace → Trace
network_error_trace base attempt t =
    slept (network_delay base attempt) ∷ logged warn network_error_message ∷ t

module _ (net : Network) (config : RetryConfig) (req : Request) where
  open config use {max_retries, retry_base_ms}

  -- The loop; `left` counts the rounds for which `attempt <= maxRetries` still holds.
  rounds : ℕ → ℕ → Option Thrown → Trace → Result Response × Trace
  rounds zero attempt last_error t = (throw (or_exhausted last_error), t)
  rounds (suc left) attempt last_error t =
      let sent = called req ∷ t in
      elim (net t req) [
        | resolved r ↦ elim (r.status == 429 && ltb attempt max_retries) [
          | true ↦
              rounds left (attempt + 1) last_error (rate_limited_trace r.retry_after attempt sent)
          | false ↦ (ok r, sent)
        ]
        | rejected e ↦ elim (is_type_error e && ltb attempt max_retries) [
          | true ↦
              rounds left (attempt + 1) (some e) (network_error_trace retry_base_ms attempt sent)
          | false ↦ (throw e, sent)
        ]
      ]

  pub fetch_with_retry : Trace → Result Response × Trace
  fetch_with_retry t = rounds (suc max_retries) 0 none t
