-- ===== src/LeaseWatch/Driver.antt =====
-- packages/fred/src/tools/waitForLeaseStatus.ts: waitViaPoll, waitViaWs and waitForLeaseStatus. Time
-- counts from the moment that fixes the deadline. What the environment does is a record of answers for
-- each round and each connection; the log lines are left out.
use manifest_mcp_mono.Common.{
  ℕ, zero, suc, ◌+◌, ◌-◌, min, Bool, true, false, ◌&&◌, not, List, Option, none, some, ltb, leb,
  get_or_else, if◌then◌else◌,
}
use manifest_mcp_mono.LeaseWait.{FredLeaseStatus, ReadError, is_tolerable}
use manifest_mcp_mono.LeaseWait.Poll.{Read, answered, read_throws, max_retry_after_honoured_ms}
use manifest_mcp_mono.LeaseWatch.{
  success, failure, undecided, classify_terminal, WatchOptions, Progress, no_progress,
  observe_status, emit, ConnOutcome, terminal, reconnect, deadline, aborted, permanent, Conn,
  SocketEvent, after,
}

-- The resolved options of a wait.
pub record WatchPolicy : Type 0 where
  pub reporting : WatchOptions
  pub interval_ms : ℕ
  pub timeout_ms : ℕ
  pub failure_budget : ℕ

pub record WatchState : Type 0 where
  pub now : ℕ
  pub progress : Progress
  pub consecutive_failures : ℕ
  pub last_poll_error : Option ReadError

abbrev pub at_start : WatchState
at_start = record {
  now = 0;
  progress = no_progress;
  consecutive_failures = 0;
  last_poll_error = none;
}

-- `threw` is an error of the setup, of a URL's check or of a token's minting, passed on as it is.
pub data WatchOutcome : Type 0 where
  resolved : FredLeaseStatus → WatchOutcome
  abort_reason lease_not_found unavailable : WatchOutcome
  timed_out : WatchState → WatchOutcome
  threw : (error : ℕ) → WatchOutcome
  refused : ReadError → WatchOutcome
  closed_permanently : (code : ℕ) → WatchOutcome

-- One iteration of the poll: whether the signal has fired by each await, and what each await gives.
-- `busy_ms` passes up to the end of the read, and the sleep takes `overslept_ms` more than asked.
pub record PollRound : Type 0 where
  pub aborted_before : Bool
  pub mint_throws : Option ℕ
  pub aborted_minting : Bool
  pub read : Read
  pub aborted_reading : Bool
  pub busy_ms : ℕ
  pub aborted_asleep : Bool
  pub overslept_ms : ℕ

pub data PollStep : Type 0 where
  ended : WatchOutcome → PollStep
  polls_on : WatchState → PollStep

-- The check of the deadline, and the sleep up to the next iteration.
abbrev pub sleep_until_next : WatchPolicy → PollRound → ℕ → WatchState → PollStep
sleep_until_next c r ms w =
    if leb c.timeout_ms w.now
    then ended (timed_out w)
    else if r.aborted_asleep
    then ended abort_reason
    else polls_on (record w { now = w.now + ms + r.overslept_ms })

unfoldable pub poll_failed : WatchPolicy → PollRound → ReadError → WatchState → PollStep
poll_failed c r e w =
    let w' = record w {
      consecutive_failures = suc w.consecutive_failures;
      last_poll_error = some e;
    } in
    if r.aborted_reading
    then ended abort_reason
    else if not (is_tolerable e)
    then ended (refused e)
    else if ltb c.failure_budget w'.consecutive_failures
    then ended (refused e)
    else sleep_until_next c r
        (min (get_or_else e.retry_after_ms c.interval_ms)
          (min max_retry_after_honoured_ms (c.timeout_ms - w.now)))
        w'

unfoldable pub poll_answered : WatchPolicy → PollRound → FredLeaseStatus → WatchState → PollStep
poll_answered c r s w =
    let seen = observe_status s w.progress in
    elim (classify_terminal s) [
      | success ↦ ended (resolved s)
      | failure ↦ ended (resolved s)
      | undecided ↦ sleep_until_next c r c.interval_ms (record w {
        progress = emit c.reporting s seen;
        consecutive_failures = 0;
        last_poll_error = none;
      })
    ]

abbrev pub after_poll : WatchPolicy → PollRound → Read → WatchState → PollStep
after_poll c r (answered s) w = poll_answered c r s w
after_poll c r (read_throws e) w = poll_failed c r e w

unfoldable pub watch_round : WatchPolicy → PollRound → WatchState → PollStep
watch_round c r w =
    if r.aborted_before
    then ended abort_reason
    else if leb c.timeout_ms w.now
    then ended (timed_out w)
    else elim r.mint_throws [
      | some error ↦ if r.aborted_minting then ended abort_reason else ended (threw error)
      | none ↦ after_poll c r r.read (record w { now = w.now + r.busy_ms })
    ]

-- The polling loop, from round `i` on; none where the fuel runs out.
unfoldable pub wait_via_poll :
    WatchPolicy → (ℕ → PollRound) → ℕ → ℕ → WatchState → Option WatchOutcome
wait_via_poll c rounds zero i w = none
wait_via_poll c rounds (suc fuel) i w = elim (watch_round c (rounds i) w) [
  | ended o ↦ some o
  | polls_on w' ↦ wait_via_poll c rounds fuel (suc i) w'
]

-- One attempt at a connection; `past` is what its socket, reads and timers deliver, the newest first.
pub record Attempt : Type 0 where
  pub aborted_before : Bool
  pub mint_throws : Option ℕ
  pub past : List SocketEvent
  pub busy_ms : ℕ
  pub aborted_asleep : Bool
  pub overslept_ms : ℕ

abbrev pub ws_max_reconnect_attempts : ℕ
ws_max_reconnect_attempts = 2

abbrev pub ws_reconnect_delay_ms : ℕ
ws_reconnect_delay_ms = 1000

-- What the socket's wait ends with, and the state it leaves; `waiting` is a connection that has not
-- settled yet.
pub data WsResult : Type 0 where
  waiting : WsResult
  gives : WatchOutcome → WatchState → WsResult

abbrev pub is_last : ℕ → Bool
is_last zero = true
is_last (suc n) = false

-- What the outcome of a connection leads to; `slept` and `again` are the attempts that are left, after
-- the delay or without it.
unfoldable pub after_connection :
    WatchPolicy → Attempt → ℕ → Option ConnOutcome → WatchState → WsResult → WsResult → WsResult
after_connection c a left none w slept again = waiting
after_connection c a left (some (terminal s)) w slept again = gives (resolved s) w
after_connection c a left (some aborted) w slept again = gives abort_reason w
after_connection c a left (some (permanent code)) w slept again = gives (closed_permanently code) w
after_connection c a left (some deadline) w slept again = gives (timed_out w) w
after_connection c a left (some reconnect) w slept again =
    if not (is_last left) && ltb w.now c.timeout_ms
    then if a.aborted_asleep then gives abort_reason w else slept
    else again

abbrev pub connection : WatchPolicy → Attempt → WatchState → Conn
connection c a w = after c.reporting w.progress a.past

abbrev pub left_by : WatchPolicy → Attempt → WatchState → WatchState
left_by c a w = record w { now = w.now + a.busy_ms; progress = (connection c a w).progress }

abbrev pub delayed : Attempt → WatchState → WatchState
delayed a w = record w { now = w.now + ws_reconnect_delay_ms + a.overslept_ms }

-- The attempts from `i` on, of which `left` are left.
unfoldable pub wait_via_ws : WatchPolicy → (ℕ → Attempt) → ℕ → ℕ → WatchState → WsResult
wait_via_ws c attempts zero i w = gives unavailable w
wait_via_ws c attempts (suc left) i w =
    let a = attempts i in
    let w' = left_by c a w in
    let again = wait_via_ws c attempts left (suc i) w' in
    let slept = wait_via_ws c attempts left (suc i) (delayed a w') in
    if a.aborted_before
    then gives abort_reason w
    else if leb c.timeout_ms w.now
    then gives unavailable w
    else elim a.mint_throws [
      | some error ↦ gives (threw error) (record w { now = w.now + a.busy_ms })
      | none ↦ after_connection c a left (connection c a w).settled w' slept again
    ]

-- What a whole wait meets. `setup_throws` is the first error of the rate limit, the address and the
-- lease's query, `url_throws` of the provider's address, and `ws_url_throws` of the check of that
-- address before the socket's wait.
pub record WatchEnv : Type 0 where
  pub aborted_at_start : Bool
  pub setup_throws : Option ℕ
  pub lease_found : Bool
  pub url_throws : Option ℕ
  pub has_events : Bool
  pub ws_url_throws : Option ℕ
  pub attempts : ℕ → Attempt
  pub aborted_at_catch : Bool
  pub rounds : ℕ → PollRound

-- The `catch` around the socket's wait: only a failure that is no abort, before the deadline, polls.
unfoldable pub fall_back : WatchPolicy → WatchEnv → ℕ → WatchState → Option WatchOutcome
fall_back c env fuel w =
    if env.aborted_at_catch
    then some abort_reason
    else if leb c.timeout_ms w.now
    then some (timed_out w)
    else wait_via_poll c env.rounds fuel 0 w

abbrev pub after_ws : WatchPolicy → WatchEnv → ℕ → WsResult → Option WatchOutcome
after_ws c env fuel waiting = none
after_ws c env fuel (gives (resolved s) w) = some (resolved s)
after_ws c env fuel (gives _ w) = fall_back c env fuel w

unfoldable pub watch : WatchPolicy → WatchEnv → ℕ → Option WatchOutcome
watch c env fuel =
    if env.has_events
    then elim env.ws_url_throws [
      | some error ↦ fall_back c env fuel at_start
      | none ↦ after_ws c env fuel (wait_via_ws c env.attempts ws_max_reconnect_attempts 0 at_start)
    ]
    else wait_via_poll c env.rounds fuel 0 at_start

-- none where the fuel of the poll runs out, or a connection has not settled yet.
unfoldable pub wait_for_lease_status : WatchPolicy → WatchEnv → ℕ → Option WatchOutcome
unfolding watch
wait_for_lease_status c env fuel =
    if env.aborted_at_start then some abort_reason else elim env.setup_throws [
      | some error ↦ some (threw error)
      | none ↦
          if not env.lease_found
          then some lease_not_found
          else elim env.url_throws [ some error ↦ some (threw error) | none ↦ watch c env fuel ]
    ]
