-- ===== src/LeaseWait/Verdicts.antt =====
-- What each end of a poll says of the provider's answers.
use mathlib.Core.Path.{subst}
use manifest_mcp_mono.Common.{
  ℕ, zero, suc, ◌+◌, ◌≤◌, ◌<◌, ◌≡◌, ◌≢◌, ◌⊎◌, inl, inr, refl, ap, sym, true, false, Option, none,
  some, String, arith, Bool-cases, ltb, str_mem, str_eq, eq_iff,
}
use manifest_mcp_mono.LeaseWait.{
  LeaseState, unspecified, pending, active, closed, rejected, expired, unknown_state,
  FredLeaseStatus, ReadError, is_tolerable, provision_failed,
}
use manifest_mcp_mono.LeaseWait.Poll.{
  PollOptions, live, Read, answered, read_throws, Round, Wait, Outcome, ready, unreachable, Next,
  stop, go, check_chain, judge_provision, judge_state, failed_read, status_read, after_read,
  poll_round, poll_lease_readiness,
}
use manifest_mcp_mono.LeaseWait.Rounds.{Reached, start, next, Ends, late, during, poll-Ends}

-- Nothing ended the round before its read.
pub record IsOpen (c : PollOptions) (r : Round) : Type 0 where
  pub unaborted : r.aborted_at_start ≡ false
  pub on_chain : c.checks_chain ≡ true → (r.chain ≡ live) × (r.aborted_after_check ≡ false)
  pub minted : r.mint_throws ≡ none
  pub signed : r.aborted_after_mint ≡ false

-- A round that goes on is one whose read was reached.
pub poll_round-go :
    (c : PollOptions) (r : Round) (w w' : Wait)
    → poll_round c r w ≡ go w'
    → IsOpen c r × (after_read c r r.read (record w { now = w.now + r.busy_ms }) ≡ go w')
unfolding poll_round check_chain
poll_round-go c r w w' h = ground (arith, h)

poll_round-ready :
    (c : PollOptions) (r : Round) (w : Wait) (s : FredLeaseStatus)
    → poll_round c r w ≡ stop (ready s)
    → IsOpen c r × (after_read c r r.read (record w { now = w.now + r.busy_ms }) ≡ stop (ready s))
unfolding poll_round check_chain
poll_round-ready c r w s h = ground (arith, h)

pub poll_round-unreachable :
    (c : PollOptions) (r : Round) (w u : Wait)
    → poll_round c r w ≡ stop (unreachable u)
    → after_read c r r.read (record w { now = w.now + r.busy_ms }) ≡ stop (unreachable u)
unfolding poll_round check_chain
poll_round-unreachable c r w u h = ground (arith, h)

-- What a status has to say to end a poll in success.
abbrev pub IsReady : FredLeaseStatus → Type 0
IsReady s = (s.state ≡ active) × (s.provision_status ≡ some "ready")

judge_provision-ready :
    (s t : FredLeaseStatus) (ps : Option String)
    → judge_provision s ps ≡ stop (ready t)
    → (ps ≡ some "ready") × (t ≡ s)
unfolding judge_provision
judge_provision-ready s t none h = cc h
judge_provision-ready s t (some ps) h = elim (Bool-cases (str_mem ps provision_failed)) [
  | inl bad ↦ absurd (refuses bad)
  | inr other ↦ elim (Bool-cases (str_eq ps "ready")) [
    | inl same ↦ (ap some ((eq_iff ps "ready").0 same), named same other)
    | inr unknown ↦ absurd (waits unknown other)
  ]
]
  where
    refuses : str_mem ps provision_failed ≢ true
    refuses bad = cc (bad, h)

    named : str_eq ps "ready" ≡ true → str_mem ps provision_failed ≡ false → t ≡ s
    named same other = ground (arith, same, other, h)

    waits : str_eq ps "ready" ≡ false → str_mem ps provision_failed ≢ false
    waits unknown other = ground (arith, unknown, other, h)

judge_state-ready :
    (st : LeaseState) (s t : FredLeaseStatus)
    → judge_state st s ≡ stop (ready t)
    → (st ≡ active) × (s.provision_status ≡ some "ready") × (t ≡ s)
unfolding judge_state
judge_state-ready active s t h =
    let (says, same) = judge_provision-ready s t s.provision_status h in (refl, says, same)
judge_state-ready pending s t h = cc h
judge_state-ready closed s t h = cc h
judge_state-ready rejected s t h = cc h
judge_state-ready expired s t h = cc h
judge_state-ready unspecified s t h = cc h
judge_state-ready unknown_state s t h = cc h

-- The part of a round after a read that succeeded ends in success only by its judgement.
status_read-ready :
    (c : PollOptions) (r : Round) (s t : FredLeaseStatus) (w : Wait)
    → status_read c r s w ≡ stop (ready t)
    → judge_state s.state s ≡ stop (ready t)
unfolding status_read
status_read-ready c r s t w h = ground (arith, h)

failed_read-ready :
    (c : PollOptions) (r : Round) (e : ReadError) (t : FredLeaseStatus) (w : Wait)
    → failed_read c r e w ≢ stop (ready t)
unfolding failed_read
failed_read-ready c r e t w h = ground (arith, h)

after_read-ready :
    (c : PollOptions) (r : Round) (read : Read) (t : FredLeaseStatus) (w : Wait)
    → after_read c r read w ≡ stop (ready t)
    → (read ≡ answered t) × IsReady t
unfolding after_read
after_read-ready c r (answered s) t w h =
    let (is_active, says, same) = judge_state-ready s.state s t (status_read-ready c r s t w h) in
    (ap answered (sym same), subst IsReady (sym same) (is_active, says))
after_read-ready c r (read_throws e) t w h = absurd (failed_read-ready c r e t w h)

-- A read that a wait may go on after: a failure that is tolerated, or a status that decides nothing.
pub data Inconclusive (c : PollOptions) (r : Round) : Type 0 where
  blip : (e : ReadError) → r.read ≡ read_throws e → is_tolerable e ≡ true → Inconclusive c r
  undecided :
      (s : FredLeaseStatus) → r.read ≡ answered s → judge_state s.state s ≡ go tt → Inconclusive c r

pub failed_read-go :
    (c : PollOptions) (r : Round) (e : ReadError) (w w' : Wait)
    → failed_read c r e w ≡ go w'
    → (is_tolerable e ≡ true)
      × (w.consecutive_failures < c.failure_budget)
      × (w'.consecutive_failures ≡ suc w.consecutive_failures)
      × (w.now ≤ w'.now)
unfolding failed_read
failed_read-go c r e w w' h = ground (arith, h)

pub status_read-go :
    (c : PollOptions) (r : Round) (s : FredLeaseStatus) (w w' : Wait)
    → status_read c r s w ≡ go w'
    → (judge_state s.state s ≡ go tt)
      × (w'.consecutive_failures ≡ 0)
      × (w.now + c.interval_ms ≤ w'.now)
unfolding status_read
status_read-go c r s w w' h = elim (judged (judge_state s.state s)) [
  | inl (o, stops) ↦ absurd (ends o stops)
  | inr goes ↦ (goes, ground (arith, goes, h), ground (arith, goes, h))
]
  where
    judged : (n : Next (Unit {0})) → ((o : Outcome) × (n ≡ stop o)) ⊎ (n ≡ go tt)
    judged (stop o) = inl (o, refl)
    judged (go tt) = inr refl

    ends : (o : Outcome) → judge_state s.state s ≢ stop o
    ends o stops = ground (arith, stops, h)

after_read-go :
    (c : PollOptions) (r : Round) (w w' : Wait) → after_read c r r.read w ≡ go w' → Inconclusive c r
unfolding after_read
after_read-go c r w w' = by_read r.read refl
  where
    by_read : (read : Read) → r.read ≡ read → after_read c r read w ≡ go w' → Inconclusive c r
    by_read (answered s) e h = undecided s e (status_read-go c r s w w' h).0
    by_read (read_throws err) e h = blip err e (failed_read-go c r err w w' h).0

-- Every round that the loop leaves behind was open, and its read inconclusive.
pub Reached-before :
    (c : PollOptions) (script : ℕ → Round) (i j : ℕ) (w : Wait)
    → Reached c script i w
    → j < i
    → IsOpen c (script j) × Inconclusive c (script j)
Reached-before c script zero j w start h = absurd (omega arith)
Reached-before c script (suc i) j w (next {w = v} r left goes) h = elim (last j i h) [
  | inl same ↦
      let (is_open, read) = poll_round-go c (script i) v w goes in
      subst (λ k. IsOpen c (script k) × Inconclusive c (script k)) (sym same)
        (is_open, after_read-go c (script i) (record v { now = v.now + (script i).busy_ms }) w read)
  | inr before ↦ Reached-before c script i j v r before
]
  where
    last : (j i : ℕ) → j < suc i → (j ≡ i) ⊎ (j < i)
    last j i h = elim (Bool-cases (ltb j i)) [
      | inl lt ↦ inr (ground (arith, lt))
      | inr ge ↦ inl (ground (arith, ge))
    ]

-- A poll that ends in success returns the status that the provider answered in the last round: the
-- lease is active and its provision status `ready`, the deadline had not passed, no check of the chain
-- in that round was terminal, and no earlier round had an answer that decides: each was a tolerated
-- failure, or a status that waits.
pub ready_is_confirmed :
    (c : PollOptions) (script : ℕ → Round) (fuel : ℕ) (s : FredLeaseStatus)
    → poll_lease_readiness c script fuel ≡ some (ready s)
    → (i : ℕ) × (w : Wait) × Reached c script i w
      × (w.now < c.timeout_ms)
      × IsOpen c (script i)
      × ((script i).read ≡ answered s)
      × IsReady s
      × ((j : ℕ) → j < i → IsOpen c (script j) × Inconclusive c (script j))
ready_is_confirmed c script fuel s h =
    let (i, w, reached, ends) = poll-Ends c script fuel (ready s) h in of_end i w reached ends
  where
    of_end :
        (i : ℕ) (w : Wait)
        → Reached c script i w
        → Ends c script i w (ready s)
        → (i : ℕ) × (w : Wait) × Reached c script i w
          × (w.now < c.timeout_ms)
          × IsOpen c (script i)
          × ((script i).read ≡ answered s)
          × IsReady s
          × ((j : ℕ) → j < i → IsOpen c (script j) × Inconclusive c (script j))
    of_end i w reached (late over e) = cc e
    of_end i w reached (during left stops) =
        let (is_open, judged) = poll_round-ready c (script i) w s stops in
        let (said, is_ready) =
          after_read-ready c (script i) (script i).read s
            (record w { now = w.now + (script i).busy_ms }) judged in
        (
          i,
          w,
          reached,
          left,
          is_open,
          said,
          is_ready,
          λ j h. Reached-before c script i j w reached h,
        )
