-- ===== src/LeaseWatch.antt =====
-- packages/fred/src/tools/waitForLeaseStatus.ts: classifyTerminal, the frames of the event stream, and
-- runWsConnection as a step function over what one connection delivers: its own events, the answers to
-- the status reads that it starts, its timers and the caller's signal.
pub mod Tracking
pub mod Provenance
pub mod Driver
pub mod Resolution
pub mod Tests
use manifest_mcp_mono.Common.{
  ℕ, suc, Bool, true, false, ◌&&◌, ◌||◌, not, List, [], ◌∷◌, Option, none, some, String, str_mem,
  str_eq, ◌==◌, get_or_else, if◌then◌else◌,
}
use manifest_mcp_mono.LeaseWait.{
  LeaseState, unspecified, pending, active, closed, rejected, expired, unknown_state,
  FredLeaseStatus, provision_in_progress, provision_failed, provision_success,
}

pub data Terminal : Type 0 where
  success failure undecided : Terminal

abbrev pub classify_active : Option String → Terminal
classify_active none = undecided
classify_active (some ps) =
    if str_mem ps provision_failed
    then failure
    else if str_mem ps provision_success
    then success
    else undecided

abbrev pub classify_at : LeaseState → Option String → Terminal
classify_at active ps = classify_active ps
classify_at closed ps = failure
classify_at rejected ps = failure
classify_at expired ps = failure
classify_at pending ps = undecided
classify_at unspecified ps = undecided
classify_at unknown_state ps = undecided

unfoldable pub classify_terminal : FredLeaseStatus → Terminal
classify_terminal s = classify_at s.state s.provision_status

abbrev pub is_failure : Terminal → Bool
is_failure failure = true
is_failure _ = false

unfoldable pub is_lease_failure_terminal : FredLeaseStatus → Bool
is_lease_failure_terminal s = is_failure (classify_terminal s)

-- What `JSON.parse` makes of a frame: no JSON, no object, or an object with its fields `status` and
-- `error`, where a field that is no text is none.
pub data FrameText : Type 0 where
  no_json no_object : FrameText
  object : (status error : Option String) → FrameText

pub record FredWsEvent : Type 0 where
  pub status : String
  pub error : Option String

abbrev pub non_empty_error : Option String → Option String
non_empty_error none = none
non_empty_error (some e) = if str_eq e "" then none else some e

unfoldable pub parse_fred_ws_event : FrameText → Option FredWsEvent
parse_fred_ws_event no_json = none
parse_fred_ws_event no_object = none
parse_fred_ws_event (object none e) = none
parse_fred_ws_event (object (some s) e) = some (record { status = s; error = non_empty_error e })

unfoldable pub map_ws_event_to_status : FredWsEvent → FredLeaseStatus
map_ws_event_to_status ev = record {
  state = active;
  provision_status = some ev.status;
  phase = some ev.status;
  message = ev.error;
  last_error = ev.error;
}

-- The options of a wait that matter here; `has_on_status` says whether the caller listens.
pub record WatchOptions : Type 0 where
  pub has_on_status : Bool
  pub emit_every : Bool

-- What a wait keeps over its connections and polls: `observed`, the key of the last report, and the
-- statuses that the caller was told, the newest first.
pub record Progress : Type 0 where
  pub last_state : Option LeaseState
  pub last_provision_status : Option String
  pub last_key : Option (LeaseState × String)
  pub reports : List FredLeaseStatus

abbrev pub no_progress : Progress
no_progress = record {
  last_state = none;
  last_provision_status = none;
  last_key = none;
  reports = [];
}

unfoldable pub observe_status : FredLeaseStatus → Progress → Progress
observe_status s p = record p {
  last_state = some s.state;
  last_provision_status = s.provision_status;
}

abbrev pub state_number : LeaseState → ℕ
state_number unspecified = 0
state_number pending = 1
state_number active = 2
state_number closed = 3
state_number rejected = 4
state_number expired = 5
state_number unknown_state = 6

abbrev pub key_of : FredLeaseStatus → LeaseState × String
key_of s = (s.state, get_or_else s.provision_status "")

abbrev pub same_key : LeaseState × String → Option (LeaseState × String) → Bool
same_key k none = false
same_key k (some l) = state_number k.0 == state_number l.0 && str_eq k.1 l.1

-- Tells the caller of a status, unless it repeats the last one.
unfoldable pub emit : WatchOptions → FredLeaseStatus → Progress → Progress
emit c s p =
    if not c.has_on_status
    then p
    else if c.emit_every || not (same_key (key_of s) p.last_key)
    then record p { last_key = some (key_of s); reports = s ∷ p.reports }
    else p

pub data ConnOutcome : Type 0 where
  terminal : FredLeaseStatus → ConnOutcome
  reconnect deadline aborted : ConnOutcome
  permanent : (code : ℕ) → ConnOutcome

-- The variables of one connection. `confirming` holds the candidate that the read in flight claimed,
-- with the value of `candidateSeq` that it captured, and `snapshot` what the read on open captured.
pub record Conn : Type 0 where
  pub settled : Option ConnOutcome
  pub confirming : Option (FredWsEvent × ℕ)
  pub candidate_seq : ℕ
  pub pending_candidate : Option FredWsEvent
  pub snapshot : Option ℕ
  pub progress : Progress

abbrev pub connected : Progress → Conn
connected p = record {
  settled = none;
  confirming = none;
  candidate_seq = 0;
  pending_candidate = none;
  snapshot = none;
  progress = p;
}

-- A read's event holds the provider's answer, or none where the read threw. A socket opens at most once.
pub data SocketEvent : Type 0 where
  opened errored liveness_elapsed deadline_elapsed abort_fired : SocketEvent
  message : FrameText → SocketEvent
  closed_with : (code : ℕ) → SocketEvent
  snapshot_read confirm_read : Option FredLeaseStatus → SocketEvent

abbrev pub is_settled : Conn → Bool
is_settled x = elim x.settled [ none ↦ false | some o ↦ true ]

abbrev pub finish : ConnOutcome → Conn → Conn
finish o x = if is_settled x then x else record x { settled = some o }

-- Judges a status: ends the attempt, or reports progress.
unfoldable pub consider : WatchOptions → FredLeaseStatus → Conn → Conn
consider c s x = if is_settled x then x else elim (classify_terminal s) [
  | undecided ↦ record x { progress = emit c s (observe_status s x.progress) }
  | success ↦ finish (terminal s) (record x { progress = observe_status s x.progress })
  | failure ↦ finish (terminal s) (record x { progress = observe_status s x.progress })
]

-- The head of the confirming loop: claims the waiting candidate and starts a read, or leaves the loop.
unfoldable pub claim : Conn → Conn
claim x = if is_settled x then record x { confirming = none } else elim x.pending_candidate [
  | none ↦ record x { confirming = none }
  | some ev ↦ record x { confirming = some (ev, x.candidate_seq); pending_candidate = none }
]

unfoldable pub confirm_via_status : FredWsEvent → Conn → Conn
confirm_via_status ev x =
    let x' = record x { candidate_seq = suc x.candidate_seq; pending_candidate = some ev } in
    elim x.confirming [ none ↦ claim x' | some read ↦ x' ]

unfoldable pub on_frame : WatchOptions → Option FredWsEvent → Conn → Conn
on_frame c none x = x
on_frame c (some ev) x =
    if str_mem ev.status provision_in_progress
    then consider c (map_ws_event_to_status ev) x
    else confirm_via_status ev x

-- The end of the confirming read that claimed `ev` at `seq`.
unfoldable pub on_confirm : WatchOptions → FredWsEvent → ℕ → Option FredLeaseStatus → Conn → Conn
on_confirm c ev seq none x =
    if not (is_settled x) && x.candidate_seq == seq && str_mem ev.status provision_failed
    then claim (consider c (map_ws_event_to_status ev) x)
    else claim x
on_confirm c ev seq (some s) x = if x.candidate_seq == seq then claim (consider c s x) else claim x

unfoldable pub on_snapshot : WatchOptions → ℕ → Option FredLeaseStatus → Conn → Conn
on_snapshot c seq none x = record x { snapshot = none }
on_snapshot c seq (some s) x =
    let x' = record x { snapshot = none } in
    if not (is_settled x) && x.candidate_seq == seq then consider c s x' else x'

abbrev pub permanent_ws_close_codes : ℕ → Bool
permanent_ws_close_codes code = code == 1008 || code == 4001 || code == 4003

unfoldable pub step : WatchOptions → Conn → SocketEvent → Conn
step c x opened = record x { snapshot = some x.candidate_seq }
step c x errored = finish reconnect x
step c x liveness_elapsed = finish reconnect x
step c x deadline_elapsed = finish deadline x
step c x abort_fired = finish aborted x
step c x (message text) = if is_settled x then x else on_frame c (parse_fred_ws_event text) x
step c x (closed_with code) =
    finish (if permanent_ws_close_codes code then permanent code else reconnect) x
step c x (snapshot_read answer) = elim x.snapshot [
  | none ↦ x
  | some seq ↦ on_snapshot c seq answer x
]
step c x (confirm_read answer) = elim x.confirming [
  | none ↦ x
  | some read ↦ on_confirm c read.0 read.1 answer x
]

-- The connection after the events of `past`, the newest first. A signal that has fired before the
-- connection is its first event.
unfoldable pub after : WatchOptions → Progress → List SocketEvent → Conn
after c p [] = connected p
after c p (e ∷ past) = step c (after c p past) e
