-- ===== src/LeaseWait/Poll.antt =====
-- packages/fred/src/readiness/poll-lease-readiness.ts: pollLeaseReadiness. Time counts from the start
-- of the wait. What the environment does in one round of the loop is a record of answers; the
-- log lines are left out.
use manifest_mcp_mono.Common.{
  ℕ, zero, suc, ◌+◌, ◌-◌, min, Bool, true, false, Option, none, some, String, str_mem, ltb,
  get_or_else, if◌then◌else◌,
}
use manifest_mcp_mono.LeaseWait.{
  LeaseState, unspecified, pending, active, closed, rejected, expired, unknown_state,
  FredLeaseStatus, ReadError, is_tolerable, provision_failed, provision_success,
}

-- `failure_budget` is `maxConsecutiveFailures`, clamped; `checks_chain` says whether the caller gave
-- `checkChainState`.
pub record PollOptions : Type 0 where
  pub interval_ms : ℕ
  pub timeout_ms : ℕ
  pub failure_budget : ℕ
  pub checks_chain : Bool

abbrev pub default_options : PollOptions
default_options = record {
  interval_ms = 3000;
  timeout_ms = 600000;
  failure_budget = 3;
  checks_chain = false;
}

abbrev pub max_retry_after_honoured_ms : ℕ
max_retry_after_honoured_ms = 30000

pub data TerminalChainLeaseState : Type 0 where
  chain_closed chain_rejected chain_expired : TerminalChainLeaseState

pub data ChainCheck : Type 0 where
  live : ChainCheck
  terminal : TerminalChainLeaseState → ChainCheck
  check_throws : (error : ℕ) → ChainCheck

pub data Read : Type 0 where
  answered : FredLeaseStatus → Read
  read_throws : ReadError → Read

-- The awaits of one round, in the order of the code. `aborted_…` says whether the signal has fired by
-- then; `busy_ms` passes up to the end of the read, and the sleep takes `overslept_ms` more than asked.
pub record Round : Type 0 where
  pub aborted_at_start : Bool
  pub chain : ChainCheck
  pub aborted_after_check : Bool
  pub mint_throws : Option ℕ
  pub aborted_after_mint : Bool
  pub read : Read
  pub aborted_after_read : Bool
  pub progress_throws : Option ℕ
  pub busy_ms : ℕ
  pub aborted_asleep : Bool
  pub overslept_ms : ℕ

-- The variables of the loop.
pub record Wait : Type 0 where
  pub now : ℕ
  pub last_state : Option LeaseState
  pub last_provision_status : Option String
  pub consecutive_failures : ℕ
  pub last_poll_error : Option ReadError

abbrev pub started : Wait
started = record {
  now = 0;
  last_state = none;
  last_provision_status = none;
  consecutive_failures = 0;
  last_poll_error = none;
}

-- The context of a LeaseReadinessUnconfirmedError: the wait as it stood.
pub data Outcome : Type 0 where
  ready : FredLeaseStatus → Outcome
  terminal_on_chain : TerminalChainLeaseState → Outcome
  check_failed mint_failed progress_failed : (error : ℕ) → Outcome
  refused : ReadError → Outcome
  aborted : Outcome
  provisioning_failed : (provision_status : String) → Outcome
  terminal_state unexpected_state : LeaseState → Outcome
  unreachable deadline : Wait → Outcome

-- The rest of a round, or what the poll ends with.
pub data Next {ℓ} (A : Type ℓ) : Type ℓ where
  stop : Outcome → Next A
  go : A → Next A

infixl 5 ◌>>=◌ ◌>>◌
abbrev pub ◌>>=◌ {ℓ κ} : {A : Type ℓ} {B : Type κ} → Next A → (A → Next B) → Next B
stop o >>= f = stop o
go a >>= f = f a

abbrev pub ◌>>◌ {ℓ} : {B : Type ℓ} → Next (Unit {0}) → Next B → Next B
m >> k = m >>= λ _. k

abbrev pub throw_if_aborted : Bool → Next (Unit {0})
throw_if_aborted true = stop aborted
throw_if_aborted false = go tt

abbrev pub throw_as : (ℕ → Outcome) → Option ℕ → Next (Unit {0})
throw_as f none = go tt
throw_as f (some error) = stop (f error)

abbrev pub of_check : ChainCheck → Bool → Next (Unit {0})
of_check live after = throw_if_aborted after
of_check (terminal s) after = stop (terminal_on_chain s)
of_check (check_throws error) after = stop (check_failed error)

unfoldable pub check_chain : PollOptions → Round → Next (Unit {0})
check_chain c r = elim c.checks_chain [
  | false ↦ go tt
  | true ↦ of_check r.chain r.aborted_after_check
]

-- What an ACTIVE lease's provision status says: only `ready` is success, an unknown one waits.
unfoldable pub judge_provision : FredLeaseStatus → Option String → Next (Unit {0})
judge_provision s none = go tt
judge_provision s (some ps) =
    if str_mem ps provision_failed
    then stop (provisioning_failed ps)
    else if str_mem ps provision_success
    then stop (ready s)
    else go tt

-- The `switch` on the lease's state.
unfoldable pub judge_state : LeaseState → FredLeaseStatus → Next (Unit {0})
unfolding judge_provision
judge_state active s = judge_provision s s.provision_status
judge_state pending s = go tt
judge_state closed s = stop (terminal_state closed)
judge_state rejected s = stop (terminal_state rejected)
judge_state expired s = stop (terminal_state expired)
judge_state unspecified s = stop (unexpected_state unspecified)
judge_state unknown_state s = stop (unexpected_state unknown_state)

-- `abortableSleep(ms)`, after which the next round begins.
abbrev pub sleep : Round → ℕ → Wait → Next Wait
sleep r ms w = do
  throw_if_aborted r.aborted_asleep
  go (record w { now = w.now + ms + r.overslept_ms })

-- The provider's own hint, bounded by the ceiling and by the time left.
abbrev pub backoff : PollOptions → ReadError → Wait → ℕ
backoff c e w =
    min (get_or_else e.retry_after_ms c.interval_ms)
      (min max_retry_after_honoured_ms (c.timeout_ms - w.now))

unfoldable pub count_failure : PollOptions → Round → ReadError → Wait → Next Wait
count_failure c r e w =
    if ltb c.failure_budget w.consecutive_failures
    then stop (unreachable w)
    else sleep r (backoff c e w) w

-- The `catch` of the status read.
unfoldable pub failed_read : PollOptions → Round → ReadError → Wait → Next Wait
unfolding count_failure
failed_read c r e w = do
  throw_if_aborted r.aborted_after_read
  let counted = record w {
    consecutive_failures = suc w.consecutive_failures;
    last_poll_error = some e;
  }
  (if is_tolerable e then count_failure c r e counted else stop (refused e))

unfoldable pub status_read : PollOptions → Round → FredLeaseStatus → Wait → Next Wait
unfolding judge_state
status_read c r s w = do
  let w' = record w {
    consecutive_failures = 0;
    last_poll_error = none;
    last_state = some s.state;
    last_provision_status = s.provision_status;
  }
  throw_as progress_failed r.progress_throws
  judge_state s.state s
  sleep r c.interval_ms w'

unfoldable pub after_read : PollOptions → Round → Read → Wait → Next Wait
unfolding status_read failed_read
after_read c r (answered s) w = status_read c r s w
after_read c r (read_throws e) w = failed_read c r e w

-- One round of the loop.
unfoldable pub poll_round : PollOptions → Round → Wait → Next Wait
unfolding check_chain after_read
poll_round c r w = do
  throw_if_aborted r.aborted_at_start
  check_chain c r
  throw_as mint_failed r.mint_throws
  throw_if_aborted r.aborted_after_mint
  after_read c r r.read (record w { now = w.now + r.busy_ms })

-- The loop, from round `i` on; none where the fuel runs out.
unfoldable pub poll_from : PollOptions → (ℕ → Round) → ℕ → ℕ → Wait → Option Outcome
unfolding poll_round
poll_from c script zero i w = none
poll_from c script (suc fuel) i w =
    if ltb w.now c.timeout_ms
    then elim (poll_round c (script i) w) [
      | stop o ↦ some o
      | go w' ↦ poll_from c script fuel (suc i) w'
    ]
    else some (deadline w)

unfoldable pub poll_lease_readiness : PollOptions → (ℕ → Round) → ℕ → Option Outcome
unfolding poll_from
poll_lease_readiness c script fuel = poll_from c script fuel 0 started
