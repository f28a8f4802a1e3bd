-- ===== src/LeaseWatch/Provenance.antt =====
-- Where the status comes from that a connection settles with.
use mathlib.Core.Path.{Path, subst}
use manifest_mcp_mono.Common.{
  ℕ, ◌≡◌, ◌≢◌, inl, inr, refl, sym, ◌∙◌, true, false, List, [], ◌∷◌, Option, none, some, String,
  str_mem, str_eq, ◌==◌, arith, Bool-cases, Option-cases, ==_iff, eq_iff,
}
use manifest_mcp_mono.LeaseWait.{FredLeaseStatus, provision_in_progress, provision_failed}
use manifest_mcp_mono.LeaseWatch.{
  undecided, classify_terminal, FrameText, FredWsEvent, parse_fred_ws_event, map_ws_event_to_status,
  WatchOptions, Progress, ConnOutcome, terminal, Conn, SocketEvent, opened, errored,
  liveness_elapsed, deadline_elapsed, abort_fired, message, closed_with, snapshot_read,
  confirm_read, finish, consider, claim, confirm_via_status, on_frame, on_confirm, on_snapshot,
  step, after, classify_active, reconnect, deadline, aborted,
}
use manifest_mcp_mono.LeaseWatch.Tracking.Steps.{step-settled, after-IsTracked}
use manifest_mcp_mono.LeaseWatch.Tracking.{
  candidates, ends_snapshot, ends_confirm, never, Follows, now, later, Issued, IsTracked,
  unsettled-is_settled,
}

abbrev AllUndecided : List String → Type 0
AllUndecided [] = Unit
AllUndecided (w ∷ rest) = (classify_active (some w) ≡ undecided) × AllUndecided rest

str_mem-undecided :
    (ps : String) (l : List String)
    → AllUndecided l
    → str_mem ps l ≡ true
    → classify_active (some ps) ≡ undecided
str_mem-undecided ps [] all h = cc h
str_mem-undecided ps (w ∷ rest) (here, all) h = elim (Bool-cases (str_eq ps w)) [
  | inl same ↦ rw ((eq_iff ps w).0 same) here
  | inr other ↦ str_mem-undecided ps rest all (rw other at h)
]

-- A status of known progress decides nothing.
in_progress-undecided :
    (ps : String) → str_mem ps provision_in_progress ≡ true → classify_active (some ps) ≡ undecided
in_progress-undecided ps h =
    str_mem-undecided ps provision_in_progress (refl, (refl, (refl, (refl, (refl, tt))))) h

module _ (c : WatchOptions) (p : Progress) where
  -- `s` is the answer to a read that no frame overtook, or the mapped form of the newest frame, which
  -- reported a failure and whose own read failed.
  pub data Provenance (s : FredLeaseStatus) (h : List SocketEvent) : Type 0 where
    from_snapshot :
        (since past : List SocketEvent)
        → Follows ends_snapshot (opened ∷ past) since
        → candidates since ≡ candidates past
        → Follows never (snapshot_read (some s) ∷ since) h
        → Provenance s h
    from_confirm :
        (ev : FredWsEvent) (since past : List SocketEvent)
        → Issued c p ev past
        → Follows ends_confirm past since
        → candidates since ≡ candidates past
        → Follows never (confirm_read (some s) ∷ since) h
        → Provenance s h
    from_frame :
        (ev : FredWsEvent) (since past : List SocketEvent)
        → Issued c p ev past
        → Follows ends_confirm past since
        → candidates since ≡ candidates past
        → str_mem ev.status provision_failed ≡ true
        → s ≡ map_ws_event_to_status ev
        → Follows never (confirm_read none ∷ since) h
        → Provenance s h

  -- What a status does to a connection that is not settled.
  consider-settled :
      (s t : FredLeaseStatus) (x : Conn)
      → x.settled ≡ none
      → (consider c s x).settled ≡ some (terminal t)
      → (t ≡ s) × (classify_terminal s ≢ undecided)
  unfolding consider
  consider-settled s t x fresh h = ground (arith, fresh, h)

  claim-settled : (x : Conn) → (claim x).settled ≡ x.settled
  unfolding claim
  claim-settled x = ground arith

  longer :
      (s : FredLeaseStatus) (h : List SocketEvent) (e : SocketEvent)
      → Provenance s h
      → Provenance s (e ∷ h)
  longer s h e (from_snapshot since past open_read fresh to) =
      from_snapshot since past open_read fresh (later e refl to)
  longer s h e (from_confirm ev since past issued read fresh to) =
      from_confirm ev since past issued read fresh (later e refl to)
  longer s h e (from_frame ev since past issued read fresh fails same to) =
      from_frame ev since past issued read fresh fails same (later e refl to)

  abbrev IsSound : FredLeaseStatus → List SocketEvent → Type 0
  IsSound s h = Provenance s h × (classify_terminal s ≢ undecided)

  finish_lem :
      (o : ConnOutcome) (s : FredLeaseStatus) (x : Conn)
      → x.settled ≡ none
      → (finish o x).settled ≡ some (terminal s)
      → o ≡ terminal s
  finish_lem o s x unsettled h = ground (arith, unsettled, h)

  snapshot-IsSound :
      (h : List SocketEvent) (answer : Option FredLeaseStatus) (s : FredLeaseStatus) (x : Conn)
      → x.settled ≡ none
      → IsTracked c p h x
      → (step c x (snapshot_read answer)).settled ≡ some (terminal s)
      → IsSound s (snapshot_read answer ∷ h)
  unfolding step on_snapshot
  snapshot-IsSound h answer s x unsettled t = by_read x.snapshot refl answer
    where
      stepped : Option ℕ → Option FredLeaseStatus → Conn
      stepped read a = elim read [ none ↦ x | some seq ↦ on_snapshot c seq a x ]

      judged :
          (seq : ℕ) (answered : FredLeaseStatus)
          → x.snapshot ≡ some seq
          → x.candidate_seq ≡ seq
          → (consider c answered (record x { snapshot = none })).settled ≡ some (terminal s)
          → IsSound s (snapshot_read (some answered) ∷ h)
      judged seq answered reading fresh e =
          let (same, decided) =
            consider-settled answered s (record x { snapshot = none }) unsettled e in
          let (past, open_read, counted) = t.snapshot seq reading in
          subst (λ w. IsSound w (snapshot_read (some answered) ∷ h)) (sym same)
            (from_snapshot h past open_read (sym t.counted ∙ fresh ∙ counted) now, decided)

      by_read :
          (read : Option ℕ)
          → x.snapshot ≡ read
          → (a : Option FredLeaseStatus) → (stepped read a).settled ≡ some (terminal s)
          → IsSound s (snapshot_read a ∷ h)
      by_read none idle a e = cc (unsettled, e)
      by_read (some seq) reading none e = cc (unsettled, e)
      by_read (some seq) reading (some answered) e = elim (Bool-cases (x.candidate_seq == seq)) [
        | inr stale ↦ absurd (dropped stale)
        | inl fresh ↦
            judged seq answered reading ((==_iff x.candidate_seq seq).0 fresh)
              (ground (arith, fresh, unsettled, e))
      ]
        where
          dropped : (x.candidate_seq == seq) ≢ false
          dropped stale = ground (arith, stale, unsettled, e)

  confirm-IsSound :
      (h : List SocketEvent) (answer : Option FredLeaseStatus) (s : FredLeaseStatus) (x : Conn)
      → x.settled ≡ none
      → IsTracked c p h x
      → (step c x (confirm_read answer)).settled ≡ some (terminal s)
      → IsSound s (confirm_read answer ∷ h)
  unfolding step on_confirm
  confirm-IsSound h answer s x unsettled t = by_read x.confirming refl answer
    where
      stepped : Option (FredWsEvent × ℕ) → Option FredLeaseStatus → Conn
      stepped read a = elim read [ none ↦ x | some r ↦ on_confirm c r.0 r.1 a x ]

      answered_case :
          (ev : FredWsEvent) (seq : ℕ) (answered : FredLeaseStatus)
          → x.confirming ≡ some (ev, seq)
          → x.candidate_seq ≡ seq
          → (consider c answered x).settled ≡ some (terminal s)
          → IsSound s (confirm_read (some answered) ∷ h)
      answered_case ev seq answered reading fresh e =
          let (same, decided) = consider-settled answered s x unsettled e in
          let (past, issued, read, counted) = t.confirming ev seq reading in
          subst (λ w. IsSound w (confirm_read (some answered) ∷ h)) (sym same)
            (from_confirm ev h past issued read (sym t.counted ∙ fresh ∙ counted) now, decided)

      failed_case :
          (ev : FredWsEvent) (seq : ℕ)
          → x.confirming ≡ some (ev, seq)
          → x.candidate_seq ≡ seq
          → str_mem ev.status provision_failed ≡ true
          → (consider c (map_ws_event_to_status ev) x).settled ≡ some (terminal s)
          → IsSound s (confirm_read none ∷ h)
      failed_case ev seq reading fresh fails e =
          let (same, decided) = consider-settled (map_ws_event_to_status ev) s x unsettled e in
          let (past, issued, read, counted) = t.confirming ev seq reading in
          (
            from_frame ev h past issued read (sym t.counted ∙ fresh ∙ counted) fails same now,
            subst (λ w. classify_terminal w ≢ undecided) (sym same) decided,
          )

      unclaimed : (y : Conn) → (claim y).settled ≡ some (terminal s) → y.settled ≡ some (terminal s)
      unclaimed y e = sym (claim-settled y) ∙ e

      kept : (claim x).settled ≢ some (terminal s)
      kept e = cc (unclaimed x e, unsettled)

      by_read :
          (read : Option (FredWsEvent × ℕ))
          → x.confirming ≡ read
          → (a : Option FredLeaseStatus) → (stepped read a).settled ≡ some (terminal s)
          → IsSound s (confirm_read a ∷ h)
      by_read none idle a e = cc (unsettled, e)
      by_read (some (ev, seq)) reading (some answered) e =
          elim (Bool-cases (x.candidate_seq == seq)) [
            | inr stale ↦ absurd (kept (rw stale at e))
            | inl fresh ↦
                answered_case ev seq answered reading ((==_iff x.candidate_seq seq).0 fresh)
                  (unclaimed (consider c answered x) (rw fresh at e))
          ]
      by_read (some (ev, seq)) reading none e = elim (Bool-cases (x.candidate_seq == seq)) [
        | inr stale ↦ absurd (kept (rw (unsettled-is_settled c p x unsettled, stale) at e))
        | inl fresh ↦ elim (Bool-cases (str_mem ev.status provision_failed)) [
          | inr other ↦ absurd (kept (rw (unsettled-is_settled c p x unsettled, fresh, other) at e))
          | inl fails ↦ failed_case ev seq reading ((==_iff x.candidate_seq seq).0 fresh) fails (
              unclaimed (consider c (map_ws_event_to_status ev) x)
                (rw (unsettled-is_settled c p x unsettled, fresh, fails) at e))
        ]
      ]

  message-unsettled :
      (x : Conn) (text : FrameText) (s : FredLeaseStatus)
      → x.settled ≡ none
      → (step c x (message text)).settled ≢ some (terminal s)
  unfolding step on_frame confirm_via_status claim classify_terminal map_ws_event_to_status
  message-unsettled x text s unsettled e =
      by_frame (parse_fred_ws_event text) (rw (unsettled-is_settled c p x unsettled) at e)
    where
      by_frame : (parsed : Option FredWsEvent) → (on_frame c parsed x).settled ≢ some (terminal s)
      by_frame none e = cc (unsettled, e)
      by_frame (some ev) e = elim (Bool-cases (str_mem ev.status provision_in_progress)) [
        | inl progress ↦
            (consider-settled (map_ws_event_to_status ev) s x unsettled (rw progress at e)).1
              (in_progress-undecided ev.status progress)
        | inr candidate ↦ ground (arith, candidate, unsettled, e)
      ]

  step-IsSound :
      (h : List SocketEvent) (e : SocketEvent) (s : FredLeaseStatus) (x : Conn)
      → x.settled ≡ none
      → IsTracked c p h x
      → (step c x e).settled ≡ some (terminal s)
      → IsSound s (e ∷ h)
  unfolding step
  step-IsSound h opened s x unsettled t e = cc (unsettled, e)
  step-IsSound h errored s x unsettled t e = cc (finish_lem reconnect s x unsettled e)
  step-IsSound h liveness_elapsed s x unsettled t e = cc (finish_lem reconnect s x unsettled e)
  step-IsSound h deadline_elapsed s x unsettled t e = cc (finish_lem deadline s x unsettled e)
  step-IsSound h abort_fired s x unsettled t e = cc (finish_lem aborted s x unsettled e)
  step-IsSound h (message text) s x unsettled t e = absurd (message-unsettled x text s unsettled e)
  step-IsSound h (closed_with code) s x unsettled t e = ground (arith, unsettled, e)
  step-IsSound h (snapshot_read answer) s x unsettled t e =
      snapshot-IsSound h answer s x unsettled t e
  step-IsSound h (confirm_read answer) s x unsettled t e =
      confirm-IsSound h answer s x unsettled t e

  -- A connection that settles with a status, after any events, has it from a status read that the
  -- provider answered and that no candidate frame overtook while it was in flight, or it is the newest
  -- candidate frame, which reported a failed provision and whose own read failed; and the status is
  -- terminal.
  pub terminal_is_authoritative :
      (h : List SocketEvent) (s : FredLeaseStatus)
      → (after c p h).settled ≡ some (terminal s)
      → IsSound s h
  unfolding after
  terminal_is_authoritative [] s e = cc e
  terminal_is_authoritative (e ∷ h) s done = elim (Option-cases (after c p h).settled) [
    | inl before ↦ step-IsSound h e s (after c p h) before (after-IsTracked c p h before) done
    | inr (o, settled) ↦ earlier o settled (terminal_is_authoritative h s)
  ]
    where
      earlier :
          (o : ConnOutcome)
          → (after c p h).settled ≡ some o
          → ((after c p h).settled ≡ some (terminal s) → IsSound s h)
          → IsSound s (e ∷ h)
      earlier o settled of_past =
          let same : Path (Option ConnOutcome) (some o) (some (terminal s)) =
            sym (step-settled c p (after c p h) e o settled) ∙ done in
          let (found, decided) = of_past (settled ∙ same) in (longer s h e found, decided)
