-- ===== src/LeaseWatch/Resolution.antt =====
-- What a wait resolves with, over all its connections and polls.
use mathlib.Core.Option.{some-injective}
use mathlib.Core.Path.{subst}
use manifest_mcp_mono.Common.{
  ℕ, zero, suc, ◌+◌, ◌≡◌, ◌≢◌, ◌⊎◌, inl, inr, refl, ap, sym, ◌∙◌, true, ◌&&◌, not, List, ◌∷◌,
  Option, none, some, String, ltb, arith, str_mem, str_eq, eq_iff, Bool-cases, Option-cases,
}
use manifest_mcp_mono.LeaseWait.{
  LeaseState, active, pending, closed, rejected, expired, unspecified, unknown_state,
  FredLeaseStatus, ReadError, provision_failed,
}
use manifest_mcp_mono.LeaseWait.Poll.{Read, answered, read_throws}
use manifest_mcp_mono.LeaseWatch.{
  success, undecided, classify_terminal, classify_active, classify_at, map_ws_event_to_status,
  Progress, ConnOutcome, terminal, reconnect, deadline, aborted, permanent, SocketEvent, opened,
  snapshot_read, confirm_read, FredWsEvent,
}
use manifest_mcp_mono.LeaseWatch.Tracking.{
  Follows, ends_snapshot, ends_confirm, never, Issued, candidates,
}
use manifest_mcp_mono.LeaseWatch.Provenance.{
  Provenance, from_snapshot, from_confirm, from_frame, terminal_is_authoritative,
}
use manifest_mcp_mono.LeaseWatch.Driver.{
  WatchPolicy, WatchState, at_start, WatchOutcome, resolved, PollRound, PollStep, ended, polls_on,
  poll_failed, poll_answered, after_poll, watch_round, wait_via_poll, WsResult, waiting, gives,
  after_connection, connection, left_by, delayed, wait_via_ws, is_last, WatchEnv, fall_back,
  after_ws, watch, wait_for_lease_status,
}

-- A success is the provider's own word: the lease is active and its provision is `ready`.
classify_active-success : (ps : Option String) → classify_active ps ≡ success → ps ≡ some "ready"
classify_active-success none h = cc h
classify_active-success (some ps) h = elim (Bool-cases (str_mem ps provision_failed)) [
  | inl bad ↦ cc (rw bad at h)
  | inr other ↦ elim (Bool-cases (str_eq ps "ready")) [
    | inl same ↦ ap some ((eq_iff ps "ready").0 same)
    | inr unknown ↦ cc (rw (other, unknown) at h)
  ]
]

classify_at-success :
    (st : LeaseState) (ps : Option String)
    → classify_at st ps ≡ success
    → (st ≡ active) × (ps ≡ some "ready")
classify_at-success active ps h = (refl, classify_active-success ps h)
classify_at-success pending ps h = cc h
classify_at-success closed ps h = cc h
classify_at-success rejected ps h = cc h
classify_at-success expired ps h = cc h
classify_at-success unspecified ps h = cc h
classify_at-success unknown_state ps h = cc h

module _ (c : WatchPolicy) (env : WatchEnv) where
  -- Where the status of a resolved wait comes from.
  pub data Source (s : FredLeaseStatus) : Type 0 where
    polled : (i : ℕ) → (env.rounds i).read ≡ answered s → Source s
    streamed : (i : ℕ) (p : Progress) → Provenance c.reporting p s (env.attempts i).past → Source s

  abbrev IsFinal : FredLeaseStatus → Type 0
  IsFinal s = Source s × (classify_terminal s ≢ undecided)

  poll_answered-resolved :
      (r : PollRound) (t s : FredLeaseStatus) (w : WatchState)
      → poll_answered c r t w ≡ ended (resolved s)
      → (t ≡ s) × (classify_terminal t ≢ undecided)
  unfolding poll_answered
  poll_answered-resolved r t s w h = ground (arith, h)

  poll_failed-resolved :
      (r : PollRound) (e : ReadError) (s : FredLeaseStatus) (w : WatchState)
      → poll_failed c r e w ≢ ended (resolved s)
  unfolding poll_failed
  poll_failed-resolved r e s w h = ground (arith, h)

  watch_round-resolved :
      (i : ℕ) (s : FredLeaseStatus) (w : WatchState)
      → watch_round c (env.rounds i) w ≡ ended (resolved s)
      → IsFinal s
  unfolding watch_round
  watch_round-resolved i s w h = by_read (env.rounds i).read refl (reached h)
    where
      later : WatchState
      later = record w { now = w.now + (env.rounds i).busy_ms }

      reached :
          watch_round c (env.rounds i) w ≡ ended (resolved s)
          → after_poll c (env.rounds i) (env.rounds i).read later ≡ ended (resolved s)
      reached h = ground (arith, h)

      by_read :
          (read : Read)
          → (env.rounds i).read ≡ read
          → after_poll c (env.rounds i) read later ≡ ended (resolved s)
          → IsFinal s
      by_read (answered t) e h =
          let (same, decided) = poll_answered-resolved (env.rounds i) t s later h in
          (
            polled i (e ∙ ap answered same),
            subst (λ u. classify_terminal u ≢ undecided) same decided,
          )
      by_read (read_throws err) e h = absurd (poll_failed-resolved (env.rounds i) err s later h)

  wait_via_poll-resolved :
      (fuel i : ℕ) (s : FredLeaseStatus) (w : WatchState)
      → wait_via_poll c env.rounds fuel i w ≡ some (resolved s)
      → IsFinal s
  unfolding wait_via_poll
  wait_via_poll-resolved zero i s w h = cc h
  wait_via_poll-resolved (suc fuel) i s w h = elim (stepped (watch_round c (env.rounds i) w)) [
    | inl (o, ends) ↦
        watch_round-resolved i s w
          (ends ∙ ap ended (some-injective o (resolved s) (rw (wait_via_poll, ends) at h)))
    | inr (w', goes) ↦ wait_via_poll-resolved fuel (suc i) s w' (rw (wait_via_poll, goes) at h)
  ]
    where
      stepped :
          (n : PollStep)
          → ((o : WatchOutcome) × (n ≡ ended o)) ⊎ ((v : WatchState) × (n ≡ polls_on v))
      stepped (ended o) = inl (o, refl)
      stepped (polls_on v) = inr (v, refl)

  after_connection-resolved :
      (i left : ℕ) (o : Option ConnOutcome) (s : FredLeaseStatus) (w u v : WatchState)
      (slept again : WsResult)
      → (connection c (env.attempts i) w).settled ≡ o
      → (slept ≡ gives (resolved s) v → IsFinal s)
      → (again ≡ gives (resolved s) v → IsFinal s)
      → after_connection c (env.attempts i) left o u slept again ≡ gives (resolved s) v
      → IsFinal s
  unfolding after_connection
  after_connection-resolved i left none s w u v slept again e of_slept of_again h = cc h
  after_connection-resolved i left (some (terminal t)) s w u v slept again e of_slept of_again h =
      let same : t ≡ s = ground (arith, h) in
      let (found, decided) =
        terminal_is_authoritative c.reporting w.progress (env.attempts i).past s
          (e ∙ ap (λ x. some (terminal x)) same) in
      (streamed i w.progress found, decided)
  after_connection-resolved i left (some aborted) s w u v slept again e of_slept of_again h = cc h
  after_connection-resolved i left (some (permanent code)) s w u v slept again e of_slept of_again
        h =
      cc h
  after_connection-resolved i left (some deadline) s w u v slept again e of_slept of_again h = cc h
  after_connection-resolved i left (some reconnect) s w u v slept again e of_slept of_again h =
      elim (Bool-cases (not (is_last left) && ltb u.now c.timeout_ms)) [
        | inr at_once ↦ of_again (rw at_once at h)
        | inl sleeps ↦ elim (Bool-cases (env.attempts i).aborted_asleep) [
          | inl fired ↦ cc (rw (sleeps, fired) at h)
          | inr woke ↦ of_slept (rw (sleeps, woke) at h)
        ]
      ]

  wait_via_ws-resolved :
      (left i : ℕ) (s : FredLeaseStatus) (w v : WatchState)
      → wait_via_ws c env.attempts left i w ≡ gives (resolved s) v
      → IsFinal s
  unfolding wait_via_ws
  wait_via_ws-resolved zero i s w v h = cc h
  wait_via_ws-resolved (suc left) i s w v h =
      let a = env.attempts i in
      let w' = left_by c a w in
      after_connection-resolved i left (connection c a w).settled s w w' v
        (wait_via_ws c env.attempts left (suc i) (delayed a w'))
        (wait_via_ws c env.attempts left (suc i) w') refl
        (wait_via_ws-resolved left (suc i) s (delayed a w') v)
        (wait_via_ws-resolved left (suc i) s w' v) (ground (arith, h))

  fall_back-resolved :
      (fuel : ℕ) (s : FredLeaseStatus) (w : WatchState)
      → fall_back c env fuel w ≡ some (resolved s)
      → IsFinal s
  unfolding fall_back
  fall_back-resolved fuel s w h = wait_via_poll-resolved fuel 0 s w (ground (arith, h))

  after_ws-resolved :
      (fuel : ℕ) (s : FredLeaseStatus) (r : WsResult)
      → wait_via_ws c env.attempts 2 0 at_start ≡ r
      → after_ws c env fuel r ≡ some (resolved s)
      → IsFinal s
  after_ws-resolved fuel s waiting e h = cc h
  after_ws-resolved fuel s (gives (resolved t) w) e h =
      wait_via_ws-resolved 2 0 s at_start w
        (e ∙ ap (λ o. gives o w) (some-injective (resolved t) (resolved s) h))
  after_ws-resolved fuel s (gives _ w) e h = fall_back-resolved fuel s w h

  watch-resolved :
      (fuel : ℕ) (s : FredLeaseStatus) → watch c env fuel ≡ some (resolved s) → IsFinal s
  unfolding watch
  watch-resolved fuel s h = elim (Bool-cases env.has_events) [
    | inr polls ↦ wait_via_poll-resolved fuel 0 s at_start (rw (watch, polls) at h)
    | inl streams ↦ elim (Option-cases env.ws_url_throws) [
      | inr (error, threw) ↦ fall_back-resolved fuel s at_start (rw (watch, streams, threw) at h)
      | inl valid ↦
          after_ws-resolved fuel s (wait_via_ws c env.attempts 2 0 at_start) refl
            (rw (watch, streams, valid) at h)
    ]
  ]

  -- Whatever the provider, the socket, the signal and the clock do, a wait resolves only with a terminal
  -- status, and has it from a status read of the poll, or from a connection in the way of
  -- `terminal_is_authoritative`.
  pub resolved_is_authoritative :
      (fuel : ℕ) (s : FredLeaseStatus)
      → wait_for_lease_status c env fuel ≡ some (resolved s)
      → IsFinal s
  unfolding wait_for_lease_status
  resolved_is_authoritative fuel s h = watch-resolved fuel s (ground (arith, h))

  -- A read that answered with `s`: of a poll, or of a connection where no candidate frame overtook it.
  pub data WasRead (s : FredLeaseStatus) : Type 0 where
    by_poll : (i : ℕ) → (env.rounds i).read ≡ answered s → WasRead s
    on_open :
        (i : ℕ) (since past : List SocketEvent)
        → Follows ends_snapshot (opened ∷ past) since
        → candidates since ≡ candidates past
        → Follows never (snapshot_read (some s) ∷ since) (env.attempts i).past
        → WasRead s
    on_candidate :
        (i : ℕ) (p : Progress) (ev : FredWsEvent) (since past : List SocketEvent)
        → Issued c.reporting p ev past
        → Follows ends_confirm past since
        → candidates since ≡ candidates past
        → Follows never (confirm_read (some s) ∷ since) (env.attempts i).past
        → WasRead s

  -- A frame that reports a failure is no success.
  frame_fails :
      (ev : FredWsEvent)
      → str_mem ev.status provision_failed ≡ true
      → classify_terminal (map_ws_event_to_status ev) ≢ success
  unfolding classify_terminal map_ws_event_to_status
  frame_fails ev fails h = cc (rw fails at h)

  Source-WasRead : (s : FredLeaseStatus) → classify_terminal s ≡ success → Source s → WasRead s
  Source-WasRead s good (polled i e) = by_poll i e
  Source-WasRead s good (streamed i p (from_snapshot since past open_read fresh to)) =
      on_open i since past open_read fresh to
  Source-WasRead s good (streamed i p (from_confirm ev since past issued read fresh to)) =
      on_candidate i p ev since past issued read fresh to
  Source-WasRead s good (streamed i p (from_frame ev since past issued read fresh fails same to)) =
      absurd (frame_fails ev fails (sym (ap classify_terminal same) ∙ good))

  -- A wait that resolves with success does so on the provider's own status, never on a frame of the
  -- event stream: the lease is active and its provision `ready`, and the status answered a read that no
  -- candidate frame overtook.
  pub success_is_read :
      (fuel : ℕ) (s : FredLeaseStatus)
      → wait_for_lease_status c env fuel ≡ some (resolved s)
      → classify_terminal s ≡ success
      → (s.state ≡ active) × (s.provision_status ≡ some "ready") × WasRead s
  unfolding classify_terminal
  success_is_read fuel s h good =
      let (says_active, says_ready) = classify_at-success s.state s.provision_status good in
      (says_active, says_ready, Source-WasRead s good (resolved_is_authoritative fuel s h).0)
