-- ===== src/Retry/Attempts.antt =====
-- What the retry loop does with an operation's failures.
use manifest_mcp_mono.Common.{
  Text, ℕ, zero, suc, ◌+◌, ◌*◌, ◌≤◌, ◌<◌, ◌≡◌, ◌⊎◌, inl, inr, refl, Bool, true, false, List, [],
  ◌∷◌, arith, length, if_cases, get_elem?, Option, none, some, ap, if◌then◌else◌,
}
use mathlib.Core.Path.{subst}
use manifest_mcp_mono.Retry.{Heap, ErrorObject, Details, value}
use manifest_mcp_mono.Retry.Permanence.{Causes, submitted_never_retried}
use manifest_mcp_mono.Retry.Verdict.{is_retryable_error}
use manifest_mcp_mono.Retry.Loop.{
  RetryConfig, random_range, capped_delay, calculate_backoff, Settled, ok, failed, Attempt, Outcome,
  returned, thrown, abort_reason, callback_error, Run, after_failure, attempt_once, retry_from,
  with_retry, stop, resume,
}

scaled_le : (c a b : ℕ) → a ≤ b → c * a ≤ c * b
scaled_le c a b h = grind arith

-- The backoff stays within a quarter of the capped delay, on both sides.
pub calculate_backoff_bounds :
    (attempt base_delay_ms max_delay_ms random : ℕ)
    → random < random_range
    → let capped = capped_delay attempt base_delay_ms max_delay_ms in
      let delay = calculate_backoff attempt base_delay_ms max_delay_ms random in
      (4 * delay ≤ 5 * capped) × (3 * capped < 4 * delay + 4) × (4 * delay ≤ 5 * max_delay_ms)
unfolding calculate_backoff
calculate_backoff_bounds attempt base_delay_ms max_delay_ms random h =
    let capped = capped_delay attempt base_delay_ms max_delay_ms in
    let up = scaled_le capped (3 * random_range + 2 * random) (5 * random_range) (omega arith) in
    let low = scaled_le capped (3 * random_range) (3 * random_range + 2 * random) (omega arith) in
    (omega (arith, up), omega (arith, low), omega (arith, up))

module _ (to_lower_case : Text → Text) (heap : Heap) (config : RetryConfig)
    (script : ℕ → Attempt) where
  -- The attempt failed in a way that may be retried.
  abbrev pub FailedRetryably : ℕ → Type 0
  FailedRetryably k =
      (error : ℕ) × ((script k).outcome ≡ failed error)
      × (is_retryable_error to_lower_case heap error false ≡ true)

  -- A call that was made before the signal fired, failed retryably, and was followed by a backoff that
  -- neither the callback nor the signal ended.
  pub record Retries (k : ℕ) : Type 0 where
    pub on_time : (script k).aborted_before ≡ false
    pub failure : FailedRetryably k
    pub quiet : (script k).aborted_after ≡ false
    pub told : (script k).callback_throws ≡ none
    pub rested : (script k).aborted_asleep ≡ false

  -- What the result says, in terms of the last attempt that was made: its value, its error, the error
  -- of the callback that was told of it, or a signal that fired after its failure, in its backoff or
  -- before the next call.
  abbrev pub Explains : Outcome → ℕ → Type 0
  Explains (returned v) k = (script k).outcome ≡ ok v
  Explains (thrown error) k = (script k).outcome ≡ failed error
  Explains (callback_error e) k = FailedRetryably k × ((script k).callback_throws ≡ some e)
  Explains abort_reason k =
      FailedRetryably k
      × (((script k).aborted_after ≡ true)
          ⊎ (((script k).aborted_asleep ≡ true) ⊎ ((script (suc k)).aborted_before ≡ true)))

  -- A loop from attempt `from` made so many calls, each before the signal fired: each but the last
  -- was retried, and the result is explained by the last, or, where there is none, by a signal that
  -- had fired.
  abbrev pub Follows : Outcome → ℕ → ℕ → Type 0
  Follows o from zero = (o ≡ abort_reason) × ((script from).aborted_before ≡ true)
  Follows o from (suc zero) = ((script from).aborted_before ≡ false) × Explains o from
  Follows o from (suc (suc n)) = Retries from × Follows o (suc from) (suc n)

  -- An error is rethrown only where it may not be retried, or where the attempts are used up.
  abbrev pub GivesUp : Outcome → ℕ → ℕ → Type 0
  GivesUp (thrown error) calls left =
      (is_retryable_error to_lower_case heap error false ≡ false) ⊎ (calls ≡ suc left)
  GivesUp (returned v) calls left = Unit
  GivesUp (callback_error e) calls left = Unit
  GivesUp abort_reason calls left = Unit

  pub record IsSound (left from : ℕ) (r : Run) : Type 0 where
    pub bounded : r.calls ≤ suc left
    pub waited : length r.delays ≤ r.calls
    pub follows : Follows r.outcome from r.calls
    pub persists : GivesUp r.outcome r.calls left

  Follows-resume :
      (o : Outcome) (from n : ℕ) → Retries from → Follows o (suc from) n → Follows o from (suc n)
  Follows-resume o from zero v (ended, fired) = rw ended (v.on_time, (v.failure, inr (inr fired)))
  Follows-resume o from (suc n) v h = (v, h)

  last-IsSound :
      (left from : ℕ) (o : Outcome) (delays : List ℕ)
      → length delays ≤ 1
      → (script from).aborted_before ≡ false
      → Explains o from
      → GivesUp o 1 left
      → IsSound left from (record { outcome = o; calls = 1; delays = delays })
  last-IsSound left from o delays h t e g = record {
    bounded = omega arith;
    waited = h;
    follows = (t, e);
    persists = g;
  }

  GivesUp-resume :
      (o : Outcome) (calls left : ℕ) → GivesUp o calls left → GivesUp o (suc calls) (suc left)
  GivesUp-resume (thrown error) calls left (inl final) = inl final
  GivesUp-resume (thrown error) calls left (inr used) = inr (ap suc used)
  GivesUp-resume (returned v) calls left g = tt
  GivesUp-resume (callback_error e) calls left g = tt
  GivesUp-resume abort_reason calls left g = tt

  resume-IsSound :
      (n from delay : ℕ) (rest : Run)
      → Retries from
      → IsSound n (suc from) rest
      → IsSound (suc n) from (resume delay rest)
  resume-IsSound n from delay rest f s = record {
    bounded = omega arith;
    waited = omega arith;
    follows = Follows-resume rest.outcome from rest.calls f s.follows;
    persists = GivesUp-resume rest.outcome rest.calls n s.persists;
  }

  -- The backoff after a failure that may be retried, with the callback's end as `told`.
  backoff-IsSound :
      (n from delay : ℕ) (told : Option ℕ) (asleep : Bool) (rest : Run)
      → (script from).aborted_before ≡ false
      → FailedRetryably from
      → (script from).aborted_after ≡ false
      → (script from).callback_throws ≡ told
      → (script from).aborted_asleep ≡ asleep
      → IsSound n (suc from) rest
      → IsSound (suc n) from (elim told [
        | some e ↦ record { outcome = callback_error e; calls = 1; delays = delay ∷ [] }
        | none ↦
            if asleep
            then record { outcome = abort_reason; calls = 1; delays = delay ∷ [] }
            else resume delay rest
      ])
  backoff-IsSound n from delay (some e) asleep rest t f quiet told rested s =
      last-IsSound (suc n) from (callback_error e) (delay ∷ []) (omega arith) t (f, told) tt
  backoff-IsSound n from delay none true rest t f quiet told rested s =
      last-IsSound (suc n) from abort_reason (delay ∷ []) (omega arith) t (f, inr (inl rested)) tt
  backoff-IsSound n from delay none false rest t f quiet told rested s =
      resume-IsSound n from delay rest
        (record { on_time = t; failure = f; quiet = quiet; told = told; rested = rested }) s

  after_failure-IsSound :
      (left from error : ℕ) (rest : Run)
      → (script from).outcome ≡ failed error
      → (script from).aborted_before ≡ false
      → ((n : ℕ) → left ≡ suc n → IsSound n (suc from) rest)
      → IsSound left from
          (after_failure to_lower_case heap config left from (script from) error rest)
  unfolding after_failure
  after_failure-IsSound zero from error rest e t s =
      if_cases (IsSound zero from) (is_retryable_error to_lower_case heap error false)
        (λ again.
          if_cases (IsSound zero from) (script from).aborted_after
            (λ fired.
              last-IsSound zero from abort_reason [] (omega arith) t ((error, e, again), inl fired)
                tt)
            (λ _. last-IsSound zero from (thrown error) [] (omega arith) t e (inr refl)))
        (λ final. last-IsSound zero from (thrown error) [] (omega arith) t e (inl final))
  after_failure-IsSound (suc n) from error rest e t s =
      if_cases (IsSound (suc n) from) (is_retryable_error to_lower_case heap error false)
        (λ again.
          if_cases (IsSound (suc n) from) (script from).aborted_after
            (λ fired.
              last-IsSound (suc n) from abort_reason [] (omega arith) t
                ((error, e, again), inl fired) tt)
            (λ quiet.
              backoff-IsSound n from _ (script from).callback_throws (script from).aborted_asleep
                rest t (error, e, again) quiet refl refl (s n refl)))
        (λ final. last-IsSound (suc n) from (thrown error) [] (omega arith) t e (inl final))

  -- One attempt, with its settling as `o`.
  settled-IsSound :
      (left from : ℕ) (o : Settled) (rest : Run)
      → (script from).outcome ≡ o
      → (script from).aborted_before ≡ false
      → ((n : ℕ) → left ≡ suc n → IsSound n (suc from) rest)
      → IsSound left from (elim o [
        | ok v ↦ stop (returned v) 1
        | failed error ↦ after_failure to_lower_case heap config left from (script from) error rest
      ])
  settled-IsSound left from (ok v) rest e t s =
      last-IsSound left from (returned v) [] (omega arith) t e tt
  settled-IsSound left from (failed error) rest e t s =
      after_failure-IsSound left from error rest e t s

  once-IsSound :
      (left from : ℕ) (rest : Run)
      → ((n : ℕ) → left ≡ suc n → IsSound n (suc from) rest)
      → IsSound left from (attempt_once to_lower_case heap config left from (script from) rest)
  unfolding attempt_once
  once-IsSound left from rest s =
      if_cases (IsSound left from) (script from).aborted_before
        (λ fired. record {
          bounded = omega arith;
          waited = omega arith;
          follows = (refl, fired);
          persists = tt;
        })
        (λ t. settled-IsSound left from (script from).outcome rest refl t s)

  retry_from-IsSound :
      (left from : ℕ) → IsSound left from (retry_from to_lower_case heap config left from script)
  unfolding retry_from
  retry_from-IsSound zero from =
      once-IsSound zero from (stop abort_reason 0) (λ n e. absurd (omega arith))
  retry_from-IsSound (suc left) from =
      once-IsSound (suc left) from (retry_from to_lower_case heap config left (suc from) script)
        λ n e.
          let same : left ≡ n = omega arith in
          subst
            (λ m.
              IsSound m (suc from) (retry_from to_lower_case heap config left (suc from) script))
            same (retry_from-IsSound left (suc from))

  -- The operation is called at most `maxRetries + 1` times, and never once the signal has fired. Every
  -- call but the last failed with an error that may be retried, and neither `onRetry` nor the signal
  -- ended its backoff. The result is the last call's value or error, or the error that `onRetry` threw
  -- when it was told of that call's failure, or the signal's reason; the latter only where the signal
  -- had fired before the first call, after the last call's failure, in its backoff, or before the next.
  -- The error of a call is rethrown only where it may not be retried, or that many calls were made.
  pub with_retry-IsSound :
      IsSound config.max_retries 0 (with_retry to_lower_case heap config script)
  unfolding with_retry
  with_retry-IsSound = retry_from-IsSound config.max_retries 0

  Follows-last :
      (o : Outcome) (from n j k error : ℕ)
      → from + j ≡ k
      → (script k).outcome ≡ failed error
      → is_retryable_error to_lower_case heap error false ≡ false
      → Follows o from n
      → n ≤ suc j
  Follows-last o from zero j k error e q final h = omega arith
  Follows-last o from (suc zero) j k error e q final h = omega arith
  Follows-last o from (suc (suc n)) zero k error e q final (v, h) =
      let same : from ≡ k = omega arith in
      absurd (clash v.failure (ap (λ i. (script i).outcome) same))
    where
      clash : FailedRetryably from → (script from).outcome ≡ (script k).outcome → ⊥
      clash (other, failed', again) p = ground arith
  Follows-last o from (suc (suc n)) (suc j) k error e q final (f, h) =
      omega (arith, Follows-last o (suc from) (suc n) j k error (omega arith) q final h)

  -- A call that fails with an error whose causes, at any depth, tell of a submitted operation or of a
  -- lease that was left behind is the last call: what was sent is not sent again.
  pub submitted_is_last :
      (k error a : ℕ) (e : ErrorObject) (d : Details)
      → (script k).outcome ≡ failed error
      → Causes heap error a
      → get_elem? heap a ≡ some e
      → e.is_manifest ≡ true
      → e.details ≡ value (some d)
      → (d.partial ≡ true) ⊎ (d.was_sent ≡ true)
      → (with_retry to_lower_case heap config script).calls ≤ suc k
  submitted_is_last k error a e d q r found m details s =
      let run = with_retry to_lower_case heap config script in
      Follows-last run.outcome 0 run.calls k k error (omega arith) q
        (submitted_never_retried to_lower_case heap error a e d false r found m details s)
        with_retry-IsSound.follows
