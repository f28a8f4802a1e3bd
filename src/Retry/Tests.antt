-- ===== src/Retry/Tests.antt =====
-- Retry decisions on concrete errors, and the theorems there.
use manifest_mcp_mono.Common.{
  Text, codes, ℕ, ◌*◌, ◌+◌, ◌≤◌, ◌<◌, ◌≡◌, ◌≢◌, refl, inr, true, false, [], ◌∷◌, none, some, arith,
  leb, ◌&&◌, if◌then◌else◌, map,
}
use manifest_mcp_mono.Retry.{value, throws, Details, Heap}
use manifest_mcp_mono.Retry.Message.{is_transient_error_message}
use manifest_mcp_mono.Retry.Verdict.{
  classify_retryable, is_retryable_error, is_permanent_error, or_else_inspect,
}
use manifest_mcp_mono.Retry.Loop.{
  default_retry_config, capped_delay, calculate_backoff, ok, failed, Attempt, returned,
  abort_reason, callback_error, with_retry,
}
use manifest_mcp_mono.Retry.Permanence.{
  Causes, here, deeper, permanent_is_final, submitted_never_retried, classify_retryable-total,
}
use manifest_mcp_mono.Retry.Attempts.{
  IsSound, calculate_backoff_bounds, with_retry-IsSound, submitted_is_last,
}

-- `toLowerCase` on ASCII.
lower : Text → Text
lower = map (λ c. if leb b'A' c && leb c b'Z' then c + 32 else c)

message_tests :
    (is_transient_error_message lower (codes "Query failed: HTTP 503") ≡ true)
    × (is_transient_error_message lower (codes "proposal 500 not found") ≡ false)
    × (is_transient_error_message lower (codes "xstatus 503") ≡ false)
    × (is_transient_error_message lower (codes "Status  5034") ≡ false)
    × (is_transient_error_message lower (codes "got 429, Slow down") ≡ true)
    × (is_transient_error_message lower (codes "TypeError: Fetch failed") ≡ true)
unfolding is_transient_error_message lower
message_tests = (refl, refl, refl, refl, refl, refl)

abbrev no_details : Details
no_details = record {
  operation = [];
  outcome = [];
  has_idempotency_key = false;
  http_status = none;
  grpc_code = none;
  transport_code = [];
  partial = false;
  was_sent = false;
}

-- 0: "fetch failed", caused by 1. 1: a cancelled transaction that was sent. 2: its own cause.
abbrev errors : Heap
errors =
    record {
      is_manifest = false;
      inspection_failed = false;
      redacted = none;
      name = value (codes "TypeError");
      error_code = value [];
      message = value (codes "fetch failed");
      details = value none;
      cause = value 1;
    }
    ∷ record {
      is_manifest = true;
      inspection_failed = false;
      redacted = none;
      name = value (codes "ManifestMCPError");
      error_code = value (codes "QUERY_FAILED");
      message = value (codes "cancelled");
      details = value (some (record no_details { was_sent = true }));
      cause = throws;
    }
    ∷ record {
      is_manifest = false;
      inspection_failed = false;
      redacted = none;
      name = value (codes "TypeError");
      error_code = value [];
      message = value (codes "fetch failed");
      details = value none;
      cause = value 2;
    }
    ∷ []

verdict_tests :
    (is_retryable_error lower errors 0 false ≡ false)
    × (is_retryable_error lower errors 2 false ≡ true)
    × (is_retryable_error lower errors 2 true ≡ false)
    × (is_retryable_error lower errors 7 false ≡ false)
unfolding is_retryable_error lower or_else_inspect
verdict_tests = (refl, refl, refl, refl)

below_fetch : Causes errors 0 1
below_fetch = deeper _ refl refl here

permanent_is_final_example : is_retryable_error lower errors 0 false ≡ false
unfolding is_permanent_error or_else_inspect lower
permanent_is_final_example =
    permanent_is_final lower errors 0 1 _ false below_fetch refl (λ h. ground arith)

submitted_never_retried_example : is_retryable_error lower errors 0 false ≡ false
submitted_never_retried_example =
    submitted_never_retried lower errors 0 1 _ (record no_details { was_sent = true }) false
      below_fetch refl refl refl (inr refl)

classify_retryable-total_example : classify_retryable lower errors 2 ≢ none
classify_retryable-total_example = classify_retryable-total lower errors 2

calculate_backoff_bounds_example :
    let capped = capped_delay 2 1000 10000 in
    let delay = calculate_backoff 2 1000 10000 77 in
    (4 * delay ≤ 5 * capped) × (3 * capped < 4 * delay + 4) × (4 * delay ≤ 5 * 10000)
calculate_backoff_bounds_example = calculate_backoff_bounds 2 1000 10000 77 (omega arith)

-- Two failures of error 2, then a value; and error 0 in every attempt.
abbrev attempt : Attempt
attempt = record {
  aborted_before = false;
  outcome = failed 2;
  aborted_after = false;
  random = 0;
  callback_throws = none;
  aborted_asleep = false;
}

abbrev recovers : ℕ → Attempt
recovers n = if leb 2 n then record attempt { outcome = ok 42 } else attempt

-- A callback that throws, and a signal that fires before the second call.
abbrev rejects : ℕ → Attempt
rejects n = record attempt { callback_throws = some 9 }

abbrev stops : ℕ → Attempt
stops n = record attempt { aborted_before = leb 1 n }

abbrev sends : ℕ → Attempt
sends n = record attempt { outcome = failed 0 }

recovers_run :
    with_retry lower errors default_retry_config recovers
    ≡ record { outcome = returned 42; calls = 3; delays = 750 ∷ 1500 ∷ [] }
unfolding with_retry calculate_backoff is_retryable_error lower or_else_inspect
recovers_run = refl

rejects_run :
    with_retry lower errors default_retry_config rejects
    ≡ record { outcome = callback_error 9; calls = 1; delays = 750 ∷ [] }
unfolding with_retry calculate_backoff is_retryable_error lower or_else_inspect
rejects_run = refl

stops_run :
    with_retry lower errors default_retry_config stops
    ≡ record { outcome = abort_reason; calls = 1; delays = 750 ∷ [] }
unfolding with_retry calculate_backoff is_retryable_error lower or_else_inspect
stops_run = refl

with_retry-IsSound_example :
    IsSound lower errors default_retry_config recovers 3 0
      (with_retry lower errors default_retry_config recovers)
with_retry-IsSound_example = with_retry-IsSound lower errors default_retry_config recovers

submitted_is_last_example : (with_retry lower errors default_retry_config sends).calls ≤ 1
submitted_is_last_example =
    submitted_is_last lower errors default_retry_config sends 0 0 1 _
      (record no_details { was_sent = true }) refl below_fetch refl refl refl (inr refl)
