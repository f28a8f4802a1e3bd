-- ===== src/LeaseWait/Rounds.antt =====
-- The rounds before the one in which a poll ends.
use manifest_mcp_mono.Common.{
  ℕ, zero, suc, ◌≤◌, ◌<◌, ◌≡◌, ◌⊎◌, inl, inr, refl, true, false, some, arith, Bool-cases, ltb,
}
use manifest_mcp_mono.LeaseWait.Poll.{
  PollOptions, Round, Wait, started, Outcome, deadline, Next, stop, go, poll_round, poll_from,
  poll_lease_readiness,
}

module _ (c : PollOptions) (script : ℕ → Round) where
  -- The wait stands at `w` before round `i`.
  pub data Reached : ℕ → Wait → Type 0 where
    start : Reached 0 started
    next :
        {i : ℕ} {w w' : Wait}
        → Reached i w
        → w.now < c.timeout_ms
        → poll_round c (script i) w ≡ go w'
        → Reached (suc i) w'

  -- The poll ends before round `i`, or in it.
  pub data Ends (i : ℕ) (w : Wait) (o : Outcome) : Type 0 where
    late : c.timeout_ms ≤ w.now → o ≡ deadline w → Ends i w o
    during : w.now < c.timeout_ms → poll_round c (script i) w ≡ stop o → Ends i w o

  pub Next-cases : (n : Next Wait) → ((o : Outcome) × (n ≡ stop o)) ⊎ ((w : Wait) × (n ≡ go w))
  Next-cases (stop o) = inl (o, refl)
  Next-cases (go w) = inr (w, refl)

  poll_from-Ends :
      (fuel i : ℕ) (w : Wait) (o : Outcome)
      → Reached i w
      → poll_from c script fuel i w ≡ some o
      → (j : ℕ) × (v : Wait) × Reached j v × Ends j v o
  unfolding poll_from
  poll_from-Ends zero i w o r h = cc h
  poll_from-Ends (suc fuel) i w o r h = elim (Bool-cases (ltb w.now c.timeout_ms)) [
    | inr over ↦ (i, w, r, late (ground (arith, over)) (ended over))
    | inl left ↦ elim (Next-cases (poll_round c (script i) w)) [
      | inl (o', ends) ↦ (i, w, r, during (ground (arith, left)) (stops left o' ends))
      | inr (w', goes) ↦
          poll_from-Ends fuel (suc i) w' o (next r (ground (arith, left)) goes)
            (rw (left, goes) at h)
    ]
  ]
    where
      ended : ltb w.now c.timeout_ms ≡ false → o ≡ deadline w
      ended over = cc (over, h)

      stops :
          ltb w.now c.timeout_ms ≡ true
          → (o' : Outcome) → poll_round c (script i) w ≡ stop o'
          → poll_round c (script i) w ≡ stop o
      stops left o' ends = cc (left, ends, h)

  -- Whatever a poll ends with, it ends in a round that the loop reached, or by the deadline.
  pub poll-Ends :
      (fuel : ℕ) (o : Outcome)
      → poll_lease_readiness c script fuel ≡ some o
      → (j : ℕ) × (v : Wait) × Reached j v × Ends j v o
  unfolding poll_lease_readiness
  poll-Ends fuel o h = poll_from-Ends fuel 0 started o start h
