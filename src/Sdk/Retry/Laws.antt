-- ===== src/Sdk/Retry/Laws.antt =====
-- The retry loop on any network.
use x402guard.Base.{
  ℕ, zero, suc, ◌+◌, ◌≤◌, ◌<◌, ◌≡◌, refl, ◌⊎◌, inl, inr, Bool, false, ◌&&◌, Option, none, some, ◌∷◌,
  ltb, ◌==◌, arith, Bool-cases,
}
use x402guard.Sdk.Errors.{Thrown, Result}
use x402guard.Sdk.Io.{
  Request, Response, Reply, resolved, rejected, called, Trace, Network, settle, count_calls,
}
use x402guard.Sdk.Retry.{
  RetryConfig, is_type_error, rounds, fetch_with_retry, rate_limited_trace, network_error_trace,
}

-- An answer after which another attempt makes sense.
abbrev pub is_retryable : Reply → Bool
is_retryable (resolved r) = r.status == 429
is_retryable (rejected e) = is_type_error e

module _ (net : Network) (config : RetryConfig) (req : Request) where
  abbrev pub Ends : ℕ → Trace → Result Response × Trace → Type 0
  Ends left t (r, t') =
      (before : Trace) × (t' ≡ called req ∷ before)
      × (r ≡ settle (net before req))
      × (count_calls t' ≤ count_calls t + left)
      × (count_calls t < count_calls t')
      × ((count_calls t' ≡ count_calls t + left) ⊎ (is_retryable (net before req) ≡ false))

  Ends-later :
      (left : ℕ) (t u : Trace) (out : Result Response × Trace)
      → count_calls u ≡ suc (count_calls t)
      → Ends left u out
      → Ends (suc left) t out
  Ends-later left t u out e (before, sent, got, most, least, inl all) =
      (before, sent, got, omega arith, omega arith, inl (omega arith))
  Ends-later left t u out e (before, sent, got, most, least, inr final) =
      (before, sent, got, omega arith, omega arith, inr final)

  Ends-now :
      (left : ℕ) (t : Trace) (rep : Reply)
      → net t req ≡ rep
      → (left ≡ 0) ⊎ (is_retryable rep ≡ false)
      → Ends (suc left) t (settle rep, called req ∷ t)
  Ends-now left t rep got (inl done) =
      (t, refl, rw got, omega arith, omega arith, inl (omega arith))
  Ends-now left t rep got (inr final) =
      (t, refl, rw got, omega arith, omega arith, inr (rw got final))

  module _ (left attempt : ℕ) (last : Option Thrown) (t : Trace)
      (e : suc left + attempt ≡ suc config.max_retries)
      (later : (next : Option Thrown) (u : Trace)
        → 0 < left
        → Ends left u (rounds net config req left (attempt + 1) next u)) where
    -- The loop stops at the last round, or at an answer that needs no other attempt.
    stop_reason :
        (rep : Reply)
        → (is_retryable rep && ltb attempt config.max_retries) ≡ false
        → (left ≡ 0) ⊎ (is_retryable rep ≡ false)
    stop_reason rep stop = elim (Bool-cases (is_retryable rep)) [
      | inl again ↦ inl (ground arith)
      | inr final ↦ inr final
    ]

    round-Ends :
        (rep : Reply)
        → net t req ≡ rep
        → Ends (suc left) t (rounds net config req (suc left) attempt last t)
    unfolding rounds
    round-Ends (resolved r) got =
        elim (Bool-cases (r.status == 429 && ltb attempt config.max_retries)) [
          | inl again ↦
              rw (got, rounds, again)
                (Ends-later left t (rate_limited_trace r.retry_after attempt (called req ∷ t)) _
                  refl
                  (later last (rate_limited_trace r.retry_after attempt (called req ∷ t))
                    (ground arith)))
          | inr stop ↦
              rw (got, rounds, stop)
                (Ends-now left t (resolved r) got (stop_reason (resolved r) stop))
        ]
    round-Ends (rejected x) got =
        elim (Bool-cases (is_type_error x && ltb attempt config.max_retries)) [
          | inl again ↦
              rw (got, rounds, again)
                (Ends-later left t
                  (network_error_trace config.retry_base_ms attempt (called req ∷ t)) _ refl
                  (later (some x)
                    (network_error_trace config.retry_base_ms attempt (called req ∷ t))
                    (ground arith)))
          | inr stop ↦
              rw (got, rounds, stop)
                (Ends-now left t (rejected x) got (stop_reason (rejected x) stop))
        ]

  rounds-Ends :
      (left attempt : ℕ) (last : Option Thrown) (t : Trace)
      → left + attempt ≡ suc config.max_retries
      → 0 < left
      → Ends left t (rounds net config req left attempt last t)
  rounds-Ends zero attempt last t e p = elim p [ ]
  rounds-Ends (suc left) attempt last t e p =
      round-Ends left attempt last t e
        (λ next u q. rounds-Ends left (attempt + 1) next u (omega arith) q) (net t req) refl

  -- Whatever the network does, the outcome is its answer to the last request sent, returned or
  -- thrown as it is (so the error for exhausted retries is never thrown); at least one request and
  -- at most `maxRetries + 1` are sent, and fewer only if the last answer is neither a 429 nor a
  -- network error.
  pub fetch_with_retry-Ends :
      (t : Trace)
      → let (r, t') = fetch_with_retry net config req t in
        (before : Trace) × (t' ≡ called req ∷ before)
        × (r ≡ settle (net before req))
        × (count_calls t' ≤ count_calls t + suc config.max_retries)
        × (count_calls t < count_calls t')
        × ((count_calls t' ≡ count_calls t + suc config.max_retries)
            ⊎ (is_retryable (net before req) ≡ false))
  unfolding fetch_with_retry
  fetch_with_retry-Ends t =
      rounds-Ends (suc config.max_retries) 0 none t (omega arith) (omega arith)

  round_first :
      (left attempt : ℕ) (last : Option Thrown) (t : Trace) (rep : Reply)
      → net t req ≡ rep
      → is_retryable rep ≡ false
      → rounds net config req (suc left) attempt last t ≡ (settle rep, called req ∷ t)
  unfolding rounds
  round_first left attempt last t (resolved r) got final = rw (got, rounds, final)
  round_first left attempt last t (rejected e) got final = rw (got, rounds, final)

  -- An answer that is neither a 429 nor a network error is not followed by another attempt.
  pub fetch_with_retry_first :
      (t : Trace)
      → is_retryable (net t req) ≡ false
      → fetch_with_retry net config req t ≡ (settle (net t req), called req ∷ t)
  unfolding fetch_with_retry
  fetch_with_retry_first t final = round_first config.max_retries 0 none t (net t req) refl final
