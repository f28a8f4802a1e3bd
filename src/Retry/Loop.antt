-- ===== src/Retry/Loop.antt =====
-- packages/core/src/retry.ts, calculateBackoff and withRetry. `Math.random()` is a multiple of 2^-53,
-- given by its numerator; the product is computed exactly, where the source rounds to a double.
-- What the operation, the signal and the clock do in each attempt is the function `script`.
use manifest_mcp_mono.Common.{
  Text, ℕ, zero, suc, ◌+◌, ◌*◌, ◌/◌, ◌^◌, min, Bool, false, List, [], ◌∷◌, Option, none, some,
  if◌then◌else◌,
}
use manifest_mcp_mono.Retry.{Heap}
use manifest_mcp_mono.Retry.Verdict.{is_retryable_error}

pub record RetryConfig : Type 0 where
  pub max_retries : ℕ
  pub base_delay_ms : ℕ
  pub max_delay_ms : ℕ

abbrev pub default_retry_config : RetryConfig
default_retry_config = record { max_retries = 3; base_delay_ms = 1000; max_delay_ms = 10000 }

-- 2^53, the denominator of `Math.random()`.
abbrev pub random_range : ℕ
random_range = 9007199254740992

abbrev pub capped_delay : ℕ → ℕ → ℕ → ℕ
capped_delay attempt base_delay_ms max_delay_ms = min (base_delay_ms * 2 ^ attempt) max_delay_ms

-- floor(capped + capped * 0.25 * (random * 2 - 1))
unfoldable pub calculate_backoff : ℕ → ℕ → ℕ → ℕ → ℕ
calculate_backoff attempt base_delay_ms max_delay_ms random =
    capped_delay attempt base_delay_ms max_delay_ms
    * (3 * random_range + 2 * random)
    / (4 * random_range)

-- How a promise of the operation settles: its value, or the address of its error.
pub data Settled : Type 0 where
  ok : ℕ → Settled
  failed : ℕ → Settled

-- What happens around one attempt. `aborted_before`, `aborted_after` and `aborted_asleep` say whether
-- the signal has fired before the call, after its failure, and by the end of the backoff;
-- `callback_throws` is what `onRetry` throws, none where it returns or is not given.
pub record Attempt : Type 0 where
  pub aborted_before : Bool
  pub outcome : Settled
  pub aborted_after : Bool
  pub random : ℕ
  pub callback_throws : Option ℕ
  pub aborted_asleep : Bool

-- How the whole call ends: a value, the error that is rethrown, the signal's reason, or the error of
-- `onRetry`, which nothing in the loop catches.
pub data Outcome : Type 0 where
  returned : ℕ → Outcome
  thrown : ℕ → Outcome
  abort_reason : Outcome
  callback_error : ℕ → Outcome

-- The outcome, with the number of calls of the operation and the delays that `onRetry` was told.
pub record Run : Type 0 where
  pub outcome : Outcome
  pub calls : ℕ
  pub delays : List ℕ

abbrev pub stop : Outcome → ℕ → Run
stop o n = record { outcome = o; calls = n; delays = [] }

abbrev pub resume : ℕ → Run → Run
resume delay r = record { outcome = r.outcome; calls = suc r.calls; delays = delay ∷ r.delays }

module _ (to_lower_case : Text → Text) (heap : Heap) (config : RetryConfig) where
  -- A failed attempt with `left` more allowed; `rest` is the loop from the next attempt on.
  unfoldable pub after_failure : ℕ → ℕ → Attempt → ℕ → Run → Run
  after_failure left attempt a error rest =
      if is_retryable_error to_lower_case heap error false
      then (if a.aborted_after then stop abort_reason 1 else elim left [
        | zero ↦ stop (thrown error) 1
        | suc n ↦
            let delay =
              calculate_backoff attempt config.base_delay_ms config.max_delay_ms a.random in
            elim a.callback_throws [
              | some e ↦ record { outcome = callback_error e; calls = 1; delays = delay ∷ [] }
              | none ↦
                  if a.aborted_asleep
                  then record { outcome = abort_reason; calls = 1; delays = delay ∷ [] }
                  else resume delay rest
            ]
      ])
      else stop (thrown error) 1

  unfoldable pub attempt_once : ℕ → ℕ → Attempt → Run → Run
  unfolding after_failure
  attempt_once left attempt a rest =
      if a.aborted_before then stop abort_reason 0 else elim a.outcome [
        | ok v ↦ stop (returned v) 1
        | failed error ↦ after_failure left attempt a error rest
      ]

  -- The `for` loop from `attempt` on, with `left` attempts after it.
  unfoldable pub retry_from : ℕ → ℕ → (ℕ → Attempt) → Run
  unfolding attempt_once
  retry_from zero attempt script = attempt_once zero attempt (script attempt) (stop abort_reason 0)
  retry_from (suc left) attempt script =
      let rest = retry_from left (suc attempt) script in
      attempt_once (suc left) attempt (script attempt) rest

  unfoldable pub with_retry : (ℕ → Attempt) → Run
  unfolding retry_from
  with_retry script = retry_from config.max_retries 0 script
