-- ===== src/LeaseWait/Tests.antt =====
-- Polls over concrete answers of a provider, and the theorems at them.
use mathlib.Core.Path.{Path}
use manifest_mcp_mono.Common.{
  ℕ, zero, suc, ◌≡◌, ◌<◌, refl, true, false, Option, none, some, String, arith,
}
use manifest_mcp_mono.LeaseWait.{
  LeaseState, active, pending, closed, FredLeaseStatus, ReadError, http, is_tolerable,
}
use manifest_mcp_mono.LeaseWait.Poll.{
  default_options, live, Read, answered, read_throws, Round, Wait, Outcome, ready, refused,
  deadline, provisioning_failed, terminal_state, poll_lease_readiness,
}
use manifest_mcp_mono.LeaseWait.Rounds.{Reached}
use manifest_mcp_mono.LeaseWait.Verdicts.{IsOpen, IsReady, Inconclusive, ready_is_confirmed}
use manifest_mcp_mono.LeaseWait.Deadline.{poll-total}

abbrev reads : Read → Round
reads read = record {
  aborted_at_start = false;
  chain = live;
  aborted_after_check = false;
  mint_throws = none;
  aborted_after_mint = false;
  read = read;
  aborted_after_read = false;
  progress_throws = none;
  busy_ms = 20;
  aborted_asleep = false;
  overslept_ms = 1;
}

abbrev status : LeaseState → Option String → FredLeaseStatus
status state provision_status = record {
  state = state;
  provision_status = provision_status;
  phase = none;
  message = none;
  last_error = none;
}

abbrev server_error : ReadError
server_error = record {
  is_provider_api_error = true;
  maintenance_veto = false;
  status = some 503;
  kind = http;
  retry_after_ms = some 90000;
}

abbrev not_found : ReadError
not_found = record server_error { status = some 404; retry_after_ms = none }

-- Pending, then a failed read, then active but provisioning, then ready.
abbrev deploys : ℕ → Round
deploys zero = reads (answered (status pending none))
deploys (suc zero) = reads (read_throws not_found)
deploys (suc (suc zero)) = reads (answered (status active (some "provisioning")))
deploys _ = reads (answered (status active (some "ready")))

abbrev always : Read → ℕ → Round
always read _ = reads read

abbrev given_up : Wait
given_up = record {
  now = 90083;
  last_state = none;
  last_provision_status = none;
  consecutive_failures = 4;
  last_poll_error = some server_error;
}

deploys_run :
    poll_lease_readiness default_options deploys 10 ≡ some (ready (status active (some "ready")))
unfolding poll_lease_readiness is_tolerable
deploys_run = refl

newer_status_waits :
    poll_lease_readiness
      (record default_options { timeout_ms = 5000 })
      (always (answered (status active (some "warming"))))
      10
    ≡ some (
        deadline (record {
          now = 6042;
          last_state = some active;
          last_provision_status = some "warming";
          consecutive_failures = 0;
          last_poll_error = none;
        }))
unfolding poll_lease_readiness is_tolerable
newer_status_waits = refl

failed_run :
    poll_lease_readiness default_options (always (answered (status active (some "failed")))) 10
    ≡ some (provisioning_failed "failed")
unfolding poll_lease_readiness is_tolerable
failed_run = refl

closed_run :
    poll_lease_readiness default_options (always (answered (status closed (some "ready")))) 10
    ≡ some (terminal_state closed)
unfolding poll_lease_readiness is_tolerable
closed_run = refl

no_budget_run :
    poll_lease_readiness
      (record default_options { failure_budget = 0 })
      (always (read_throws (record server_error { status = some 400 })))
      10
    ≡ some (refused (record server_error { status = some 400 }))
unfolding poll_lease_readiness is_tolerable
no_budget_run = refl

ready_is_confirmed_example :
    (i : ℕ) × (w : Wait) × Reached default_options deploys i w
    × (w.now < 600000)
    × IsOpen default_options (deploys i)
    × ((deploys i).read ≡ answered (status active (some "ready")))
    × IsReady (status active (some "ready"))
    × ((j : ℕ)
        → j < i
        → IsOpen default_options (deploys j) × Inconclusive default_options (deploys j))
ready_is_confirmed_example =
    ready_is_confirmed default_options deploys 10 (status active (some "ready")) deploys_run

poll-total_example :
    (o : Outcome) × (poll_lease_readiness default_options
        (always (answered (status pending none)))
        2400004
      ≡ some o)
poll-total_example =
    poll-total default_options (always (answered (status pending none))) 2400004 (omega arith)
      (omega arith)
