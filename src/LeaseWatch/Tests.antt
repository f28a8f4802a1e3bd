-- ===== src/LeaseWatch/Tests.antt =====
-- Waits over concrete frames and reads, and the theorems at them.
use mathlib.Core.Path.{Path}
use manifest_mcp_mono.Common.{
  ◌≡◌, ◌≢◌, refl, true, false, List, [], ◌∷◌, Option, none, some, String,
}
use manifest_mcp_mono.LeaseWait.{
  LeaseState, active, closed, FredLeaseStatus, ReadError, http, is_tolerable,
}
use manifest_mcp_mono.LeaseWait.Poll.{Read, answered, read_throws}
use manifest_mcp_mono.LeaseWatch.{
  undecided, classify_terminal, object, no_json, FredWsEvent, parse_fred_ws_event,
  map_ws_event_to_status, WatchOptions, no_progress, terminal, reconnect, permanent, SocketEvent,
  opened, message, closed_with, snapshot_read, confirm_read, after, step, emit, abort_fired,
  errored, on_frame, consider, confirm_via_status, claim, on_snapshot, on_confirm, observe_status,
}
use manifest_mcp_mono.LeaseWatch.Driver.{
  watch, wait_via_ws, after_connection, fall_back, wait_via_poll, watch_round, poll_answered,
  poll_failed, WatchPolicy, resolved, refused, abort_reason, PollRound, Attempt, WatchEnv,
  wait_for_lease_status,
}
use manifest_mcp_mono.LeaseWatch.Provenance.{Provenance, terminal_is_authoritative}
use manifest_mcp_mono.LeaseWatch.Resolution.{WasRead, success_is_read}

abbrev reports_once : WatchOptions
reports_once = record { has_on_status = true; emit_every = false }

abbrev status : LeaseState → String → FredLeaseStatus
status state provision_status = record {
  state = state;
  provision_status = some provision_status;
  phase = none;
  message = none;
  last_error = none;
}

abbrev frame : String → SocketEvent
frame s = message (object (some s) (some ""))

abbrev failed_frame : FredWsEvent
failed_frame = record { status = "failed"; error = none }

-- From here on, the newest event is the first. The read on open answers `ready` only after a frame said
-- `failed`; the frame's own read fails.
abbrev overtaken : List SocketEvent
overtaken =
    confirm_read none
    ∷ snapshot_read (some (status active "ready"))
    ∷ frame "failed"
    ∷ frame "provisioning"
    ∷ opened
    ∷ []

-- Two candidates in one read: the second read sees the lease closed.
abbrev superseded : List SocketEvent
superseded =
    confirm_read (some (status closed "retained"))
    ∷ confirm_read (some (status active "ready"))
    ∷ frame "retained"
    ∷ frame "ready"
    ∷ []

abbrev on_open_ready : List SocketEvent
on_open_ready = snapshot_read (some (status active "ready")) ∷ opened ∷ []

overtaken_run :
    (after reports_once no_progress overtaken).settled
    ≡ some (terminal (map_ws_event_to_status failed_frame))
unfolding after step parse_fred_ws_event map_ws_event_to_status on_frame consider classify_terminal
    confirm_via_status claim on_snapshot on_confirm emit observe_status
overtaken_run = refl

superseded_run :
    (after reports_once no_progress superseded).settled ≡ some (terminal (status closed "retained"))
unfolding after step parse_fred_ws_event map_ws_event_to_status on_frame consider classify_terminal
    confirm_via_status claim on_snapshot on_confirm emit observe_status
superseded_run = refl

dropped_run :
    (after reports_once no_progress (closed_with 1006 ∷ message no_json ∷ opened ∷ [])).settled
    ≡ some reconnect
unfolding after step parse_fred_ws_event map_ws_event_to_status on_frame consider classify_terminal
    confirm_via_status claim on_snapshot on_confirm emit observe_status
dropped_run = refl

refused_run :
    (after reports_once no_progress (errored ∷ closed_with 1008 ∷ [])).settled
    ≡ some (permanent 1008)
unfolding after step parse_fred_ws_event map_ws_event_to_status on_frame consider classify_terminal
    confirm_via_status claim on_snapshot on_confirm emit observe_status
refused_run = refl

repeats_run :
    (after reports_once no_progress
      (frame "updating" ∷ frame "updating" ∷ opened ∷ [])).progress.reports
    ≡ map_ws_event_to_status (record { status = "updating"; error = none }) ∷ []
unfolding after step parse_fred_ws_event map_ws_event_to_status on_frame consider classify_terminal
    confirm_via_status claim on_snapshot on_confirm emit observe_status
repeats_run = refl

abbrev policy : WatchPolicy
policy = record {
  reporting = reports_once;
  interval_ms = 3000;
  timeout_ms = 600000;
  failure_budget = 1;
}

abbrev poll : Read → PollRound
poll read = record {
  aborted_before = false;
  mint_throws = none;
  aborted_minting = false;
  read = read;
  aborted_reading = false;
  busy_ms = 20;
  aborted_asleep = false;
  overslept_ms = 1;
}

abbrev attempt : List SocketEvent → Attempt
attempt past = record {
  aborted_before = false;
  mint_throws = none;
  past = past;
  busy_ms = 40;
  aborted_asleep = false;
  overslept_ms = 1;
}

-- Every connection delivers the same events, every read of the poll has the same answer.
abbrev watches : List SocketEvent → Read → WatchEnv
watches past read = record {
  aborted_at_start = false;
  setup_throws = none;
  lease_found = true;
  url_throws = none;
  has_events = true;
  ws_url_throws = none;
  attempts = λ i. attempt past;
  aborted_at_catch = false;
  rounds = λ i. poll read;
}

abbrev read_error : ReadError
read_error = record {
  is_provider_api_error = true;
  maintenance_veto = false;
  status = some 502;
  kind = http;
  retry_after_ms = none;
}

-- Both connections drop, and a poll finds the lease ready.
falls_back_run :
    wait_for_lease_status policy
      (watches (closed_with 1006 ∷ []) (answered (status active "ready")))
      3
    ≡ some (resolved (status active "ready"))
unfolding wait_for_lease_status watch wait_via_ws after_connection fall_back wait_via_poll
    watch_round poll_answered poll_failed is_tolerable after step parse_fred_ws_event
    map_ws_event_to_status on_frame consider classify_terminal confirm_via_status claim on_snapshot
    on_confirm emit observe_status
falls_back_run = refl

streams_run :
    wait_for_lease_status policy (watches on_open_ready (read_throws read_error)) 3
    ≡ some (resolved (status active "ready"))
unfolding wait_for_lease_status watch wait_via_ws after_connection fall_back wait_via_poll
    watch_round poll_answered poll_failed is_tolerable after step parse_fred_ws_event
    map_ws_event_to_status on_frame consider classify_terminal confirm_via_status claim on_snapshot
    on_confirm emit observe_status
streams_run = refl

gives_up_run :
    wait_for_lease_status policy
      (record (watches [] (read_throws read_error)) { has_events = false })
      3
    ≡ some (refused read_error)
unfolding wait_for_lease_status watch wait_via_ws after_connection fall_back wait_via_poll
    watch_round poll_answered poll_failed is_tolerable after step parse_fred_ws_event
    map_ws_event_to_status on_frame consider classify_terminal confirm_via_status claim on_snapshot
    on_confirm emit observe_status
gives_up_run = refl

aborted_run :
    wait_for_lease_status policy
      (record (watches (abort_fired ∷ opened ∷ []) (answered (status active "ready"))) {
        aborted_at_catch = true;
      })
      3
    ≡ some abort_reason
unfolding wait_for_lease_status watch wait_via_ws after_connection fall_back wait_via_poll
    watch_round poll_answered poll_failed is_tolerable after step parse_fred_ws_event
    map_ws_event_to_status on_frame consider classify_terminal confirm_via_status claim on_snapshot
    on_confirm emit observe_status
aborted_run = refl

terminal_is_authoritative_example :
    Provenance reports_once no_progress (map_ws_event_to_status failed_frame) overtaken
    × (classify_terminal (map_ws_event_to_status failed_frame) ≢ undecided)
terminal_is_authoritative_example =
    terminal_is_authoritative reports_once no_progress overtaken
      (map_ws_event_to_status failed_frame) overtaken_run

success_is_read_example :
    Path LeaseState active active
    × Path (Option String) (some "ready") (some "ready")
    × WasRead policy (watches on_open_ready (read_throws read_error)) (status active "ready")
unfolding classify_terminal
success_is_read_example =
    success_is_read policy (watches on_open_ready (read_throws read_error)) 3
      (status active "ready") streams_run refl
