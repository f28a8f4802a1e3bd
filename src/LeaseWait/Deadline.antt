-- ===== src/LeaseWait/Deadline.antt =====
-- A poll gives up exactly after a burst of failed reads, and it always ends.
use native.Mathlib.Nat.{mul-le-mul_right, suc-mul}
use manifest_mcp_mono.Common.{
  ℕ, zero, suc, ◌+◌, ◌-◌, ◌*◌, ◌≤◌, ◌<◌, ◌≡◌, inl, inr, refl, true, some, arith, Bool-cases, ltb,
}
use manifest_mcp_mono.LeaseWait.{ReadError, is_tolerable}
use manifest_mcp_mono.LeaseWait.Poll.{
  PollOptions, Read, answered, read_throws, Round, Wait, started, Outcome, deadline, go, after_read,
  poll_round, poll_from, poll_lease_readiness,
}
use manifest_mcp_mono.LeaseWait.Rounds.{Next-cases}
use manifest_mcp_mono.LeaseWait.Verdicts.{poll_round-go, failed_read-go, status_read-go}

-- The reads of the `n` rounds before round `i` all failed in a way that is tolerated.
pub Streak : (ℕ → Round) → ℕ → ℕ → Type 0
Streak script zero i = Unit
Streak script (suc n) zero = ⊥
Streak script (suc n) (suc i) =
    ((e : ReadError) × ((script i).read ≡ read_throws e) × (is_tolerable e ≡ true))
    × Streak script n i

-- How a round that goes on moves the counter and the clock.
data Moves (c : PollOptions) (r : Round) (w w' : Wait) : Type 0 where
  read_ok : w'.consecutive_failures ≡ 0 → w.now + c.interval_ms ≤ w'.now → Moves c r w w'
  read_failed :
      (e : ReadError)
      → r.read ≡ read_throws e
      → is_tolerable e ≡ true
      → w.consecutive_failures < c.failure_budget
      → w'.consecutive_failures ≡ suc w.consecutive_failures
      → w.now ≤ w'.now
      → Moves c r w w'

poll_round-Moves :
    (c : PollOptions) (r : Round) (w w' : Wait) → poll_round c r w ≡ go w' → Moves c r w w'
unfolding after_read
poll_round-Moves c r w w' h = by_read r.read refl (poll_round-go c r w w' h).1
  where
    later : Wait
    later = record w { now = w.now + r.busy_ms }

    by_read : (read : Read) → r.read ≡ read → after_read c r read later ≡ go w' → Moves c r w w'
    by_read (answered s) e h =
        let (_, zeroed, slept) = status_read-go c r s later w' h in
        read_ok zeroed (omega (arith, slept))
    by_read (read_throws err) e h =
        let (fits, left, counted, passed) = failed_read-go c r err later w' h in
        read_failed err e fits left counted (omega (arith, passed))

-- What is left of a wait: the milliseconds, each worth a whole burst, and the rest of this burst.
abbrev measure : PollOptions → Wait → ℕ
measure c w =
    (c.timeout_ms - w.now) * suc c.failure_budget + (c.failure_budget - w.consecutive_failures)

scaled-le : (d e b : ℕ) → e < d → e * suc b + suc b ≤ d * suc b
scaled-le d e b h = omega (arith, mul-le-mul_right {m = suc e} {n = d} (suc b) h, suc-mul e (suc b))

measure_lem :
    (c : PollOptions) (r : Round) (w w' : Wait)
    → 1 ≤ c.interval_ms
    → w.now < c.timeout_ms
    → Moves c r w w'
    → measure c w' < measure c w
measure_lem c r w w' some_time left (read_ok zeroed slept) =
    let less =
      scaled-le (c.timeout_ms - w.now) (c.timeout_ms - w'.now) c.failure_budget
        (omega (arith, slept)) in
    omega (arith, less, zeroed)
measure_lem c r w w' some_time left (read_failed e threw fits room counted passed) =
    let less =
      mul-le-mul_right {m = c.timeout_ms - w'.now} {n = c.timeout_ms - w.now} (suc c.failure_budget)
        (omega (arith, passed)) in
    omega (arith, less, counted, room)

poll_from-total :
    (c : PollOptions) (script : ℕ → Round) (fuel i : ℕ) (w : Wait)
    → 1 ≤ c.interval_ms
    → measure c w < fuel
    → (o : Outcome) × (poll_from c script fuel i w ≡ some o)
unfolding poll_from
poll_from-total c script zero i w some_time h = absurd (omega arith)
poll_from-total c script (suc fuel) i w some_time h = elim (Bool-cases (ltb w.now c.timeout_ms)) [
  | inr over ↦ (deadline w, rw over)
  | inl left ↦ elim (Next-cases c script (poll_round c (script i) w)) [
    | inl (o, ends) ↦ (o, rw (left, ends))
    | inr (w', goes) ↦
        let less =
          measure_lem c (script i) w w' some_time (ground (arith, left))
            (poll_round-Moves c (script i) w w' goes) in
        let (o, done) = poll_from-total c script fuel (suc i) w' some_time (omega (arith, less)) in
        (o, rw (left, goes) done)
  ]
]

-- Whatever the provider, the chain and the signal do, a poll whose interval is at least a millisecond
-- ends: fuel for one burst of failures at each millisecond of the timeout is enough.
pub poll-total :
    (c : PollOptions) (script : ℕ → Round) (fuel : ℕ)
    → 1 ≤ c.interval_ms
    → c.timeout_ms * suc c.failure_budget + c.failure_budget < fuel
    → (o : Outcome) × (poll_lease_readiness c script fuel ≡ some o)
unfolding poll_lease_readiness
poll-total c script fuel some_time h =
    poll_from-total c script fuel 0 started some_time
      (rw (whole c.timeout_ms, whole c.failure_budget) h)
  where
    whole : (n : ℕ) → n - 0 ≡ n
    whole n = omega arith
