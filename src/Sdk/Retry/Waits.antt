-- ===== src/Sdk/Retry/Waits.antt =====
-- How long the retry loop waits.
use x402guard.Base.{
  ℕ, zero, suc, ◌+◌, ◌*◌, ◌^◌, ◌≤◌, ◌<◌, ◌≡◌, refl, ap, true, false, Option, none, some, [], ◌∷◌,
  ltb, arith, lt→ltb, if◌then◌else◌,
}
use native.Mathlib.Numerals.{add-one}
use native.Mathlib.Nat.{pow-suc, one-le-pow}
use x402guard.Js.Number.{ℤ, pos, negsuc, scale, decimal, to_double, max_exact}
use x402guard.Js.Number.Decimal.{to_double_exact}
use x402guard.Js.Number.Numeral.{parse_int-decimal, decimal-IsNumeral}
use x402guard.Sdk.Errors.{Thrown, Result}
use x402guard.Sdk.Io.{
  Request, Response, Reply, resolved, rejected, called, slept, Trace, Network, settle, count_calls,
}
use x402guard.Sdk.Retry.{
  RetryConfig, rounds, fetch_with_retry, round, retry_after_secs, rate_limit_delay, network_delay,
  timer_ms, rate_limited_trace, network_error_trace,
}
use x402guard.Sdk.Retry.Laws.{is_retryable}

abbrev pub wait_of : ℤ → ℕ
wait_of (pos n) = n
wait_of (negsuc _) = 0

-- The milliseconds asked of `setTimeout` so far.
abbrev pub total_wait : Trace → ℕ
total_wait [] = 0
total_wait (slept ms ∷ t) = wait_of ms + total_wait t
total_wait (_ ∷ t) = total_wait t

-- The wait before the second attempt; each later one is twice as long.
abbrev pub first_wait : RetryConfig → Reply → ℤ
first_wait config (resolved r) = round (scale (retry_after_secs r.retry_after) 1000)
first_wait config (rejected _) = pos config.retry_base_ms

pow_suc : (b a : ℕ) → b * 2 ^ (a + 1) ≡ 2 * (b * 2 ^ a)
pow_suc b a = rw add-one (rw pow-suc (omega arith))

module _ (net : Network) (config : RetryConfig) (req : Request) (u : ℕ) where
  -- One round that is answered by something retryable, with attempts left.
  continues :
      (rep : Reply) (left attempt : ℕ) (last : Option Thrown) (t : Trace)
      → net t req ≡ rep
      → is_retryable rep ≡ true
      → first_wait config rep ≡ pos u
      → ltb attempt config.max_retries ≡ true
      → (next : Option Thrown) × (v : Trace) × (rounds net config req (suc left) attempt last t
          ≡ rounds net config req left (attempt + 1) next v)
        × (count_calls v ≡ suc (count_calls t))
        × (total_wait v ≡ u * 2 ^ attempt + total_wait t)
  unfolding rounds rate_limit_delay network_delay scale
  continues (resolved r) left attempt last t got again unit more = (
    last,
    rate_limited_trace r.retry_after attempt (called req ∷ t),
    rw (got, rounds, again, more),
    refl,
    ap (λ k. wait_of (scale k (2 ^ attempt)) + total_wait t) unit,
  )
  continues (rejected e) left attempt last t got again unit more = (
    some e,
    network_error_trace config.retry_base_ms attempt (called req ∷ t),
    rw (got, rounds, again, more),
    refl,
    ap (λ k. wait_of (scale k (2 ^ attempt)) + total_wait t) unit,
  )

  stops :
      (rep : Reply) (left attempt : ℕ) (last : Option Thrown) (t : Trace)
      → net t req ≡ rep
      → ltb attempt config.max_retries ≡ false
      → rounds net config req (suc left) attempt last t ≡ (settle rep, called req ∷ t)
  unfolding rounds
  stops (resolved r) left attempt last t got done = ground arith
  stops (rejected e) left attempt last t got done = ground arith

module _ (net : Network) (config : RetryConfig) (req : Request) (rep : Reply) (u : ℕ)
    (same : (t : Trace) → net t req ≡ rep) (again : is_retryable rep ≡ true)
    (unit : first_wait config rep ≡ pos u) where
  abbrev Waits : ℕ → ℕ → Trace → Result Response × Trace → Type 0
  Waits left attempt t (r, t') =
      (r ≡ settle rep)
      × (count_calls t' ≡ count_calls t + left)
      × (total_wait t' + u * 2 ^ attempt ≡ total_wait t + u * 2 ^ config.max_retries)

  rounds-Waits :
      (left attempt : ℕ) (last : Option Thrown) (t : Trace)
      → left + attempt ≡ config.max_retries
      → Waits (suc left) attempt t (rounds net config req (suc left) attempt last t)
  rounds-Waits zero attempt last t e =
      rw (stops net config req u rep 0 attempt last t (same t) (ground arith))
        (refl, omega arith, ap (λ k. total_wait t + u * 2 ^ k) (omega arith))
  rounds-Waits (suc left) attempt last t e =
      let (next, v, eq, calls, waits) =
        continues net config req u rep (suc left) attempt last t (same t) again unit
          (lt→ltb _ _ (omega arith)) in
      let (got, sent, total) = rounds-Waits left (attempt + 1) next v (omega arith) in
      rw eq (got, omega arith, omega (arith, pow_suc u attempt))

  -- On a network that always gives the same retryable answer, all `maxRetries + 1` attempts are
  -- made, the last answer is the outcome, and the waits add up to `2^maxRetries - 1` times the
  -- first one (the number of seconds in `Retry-After` times 1000 on a 429, `retryBaseMs` on a
  -- network error).
  pub fetch_with_retry_waits :
      (t : Trace)
      → let (r, t') = fetch_with_retry net config req t in
        (r ≡ settle rep)
        × (count_calls t' ≡ count_calls t + suc config.max_retries)
        × (total_wait t' + u ≡ total_wait t + u * 2 ^ config.max_retries)
  unfolding fetch_with_retry
  fetch_with_retry_waits t =
      let (got, sent, total) = rounds-Waits config.max_retries 0 none t (omega arith) in
      (got, sent, omega (arith, total))

retry_after_secs-decimal : (n : ℕ) → retry_after_secs (some (decimal n)) ≡ pos (to_double n)
unfolding retry_after_secs
retry_after_secs-decimal n = rw ((decimal-IsNumeral n).nonempty) (rw (parse_int-decimal n))

rate_limit_delay-decimal :
    (n attempt : ℕ)
    → n * 1000 ≤ max_exact
    → rate_limit_delay (some (decimal n)) attempt ≡ pos (n * 1000 * 2 ^ attempt)
unfolding rate_limit_delay scale
rate_limit_delay-decimal n attempt h =
    rw (retry_after_secs-decimal n)
      (rw (to_double_exact n (omega arith)) (rw (to_double_exact (n * 1000) h)))

one_le_product : (a b : ℕ) → 1 ≤ a → 1 ≤ b → 1 ≤ a * b
one_le_product a b h k = grind arith

timer_ms_cut : (m : ℕ) → 1 ≤ m → timer_ms (pos m) ≡ (if ltb m (2 ^ 31) then m else 1)
unfolding timer_ms
timer_ms_cut m h = ground arith

-- After a 429 that asks for a whole number of seconds, the timer waits that long, doubled for each
-- earlier attempt, as long as this is less than 2^31 ms (and not 0); a longer wait is cut to 1 ms.
pub rate_limit_delay_timer :
    (n attempt : ℕ)
    → n * 1000 ≤ max_exact
    → 0 < n
    → timer_ms (rate_limit_delay (some (decimal n)) attempt)
      ≡ (if ltb (n * 1000 * 2 ^ attempt) (2 ^ 31) then n * 1000 * 2 ^ attempt else 1)
rate_limit_delay_timer n attempt h p = rw (rate_limit_delay-decimal n attempt h) (
    timer_ms_cut (n * 1000 * 2 ^ attempt)
      (one_le_product (n * 1000) (2 ^ attempt) (omega arith) (one-le-pow attempt 2 (omega arith))))
