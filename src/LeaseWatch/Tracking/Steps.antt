-- ===== src/LeaseWatch/Tracking/Steps.antt =====
-- Each event keeps the variables of a connection in step with its history.
use mathlib.Core.Option.{some-injective}
use manifest_mcp_mono.Common.{
  ℕ, ◌≡◌, inl, inr, refl, ap, sym, ◌∙◌, false, ◌&&◌, not, List, [], ◌∷◌, Option, none, some,
  str_mem, ◌==◌, arith, Bool-cases, Option-cases, if◌then◌else◌,
}
use manifest_mcp_mono.LeaseWait.{FredLeaseStatus, provision_in_progress, provision_failed}
use manifest_mcp_mono.LeaseWatch.{
  FrameText, FredWsEvent, parse_fred_ws_event, map_ws_event_to_status, WatchOptions, Progress,
  ConnOutcome, Conn, SocketEvent, opened, errored, liveness_elapsed, deadline_elapsed, abort_fired,
  message, closed_with, snapshot_read, confirm_read, is_settled, finish, consider, claim,
  confirm_via_status, on_frame, on_confirm, on_snapshot, step, after, permanent_ws_close_codes,
  permanent, reconnect, deadline, aborted,
}
use manifest_mcp_mono.LeaseWatch.Tracking.{
  Alike, Alike-IsTracked, finish-Alike, consider-Alike, quiet-IsTracked, frame-IsTracked,
  loop-IsTracked, IsTracked, unsettled-is_settled, candidate_in, candidate_of, ends_confirm,
  ends_snapshot, now, later,
}

module _ (c : WatchOptions) (p : Progress) where
  on_frame-IsTracked :
      (h : List SocketEvent) (text : FrameText) (x : Conn)
      → after c p h ≡ x
      → IsTracked c p h x
      → IsTracked c p (message text ∷ h) (on_frame c (parse_fred_ws_event text) x)
  unfolding on_frame
  on_frame-IsTracked h text x here t = by_frame_of (parse_fred_ws_event text) refl
    where
      quiet :
          (y : Conn)
          → Alike c p x y
          → candidate_of (message text) ≡ none
          → IsTracked c p (message text ∷ h) y
      quiet y same none_new =
          Alike-IsTracked c p (message text ∷ h) x y same
            (quiet-IsTracked c p h (message text) x none_new refl refl t)

      by_frame_of :
          (parsed : Option FredWsEvent)
          → parse_fred_ws_event text ≡ parsed
          → IsTracked c p (message text ∷ h) (on_frame c parsed x)
      by_frame_of none e = quiet-IsTracked c p h (message text) x (ap candidate_in e) refl refl t
      by_frame_of (some ev) e = elim (Bool-cases (str_mem ev.status provision_in_progress)) [
        | inl progress ↦ rw progress (
            quiet (consider c (map_ws_event_to_status ev) x)
              (consider-Alike c p (map_ws_event_to_status ev) x) (rw (e, progress) refl))
        | inr candidate ↦
            rw candidate (frame-IsTracked c p h text ev x here (rw (e, candidate) refl) t)
      ]

  opened-IsTracked :
      (h : List SocketEvent) (x : Conn)
      → IsTracked c p h x
      → IsTracked c p (opened ∷ h) (record x { snapshot = some x.candidate_seq })
  opened-IsTracked h x t = record {
    counted = t.counted;
    waiting = t.waiting;
    snapshot = λ k e. (h, now, sym (some-injective x.candidate_seq k e) ∙ t.counted);
    confirming = λ ev k e.
        let (past, issued, follows, same) = t.confirming ev k e in
        (past, issued, later opened refl follows, same);
  }

  snapshot-IsTracked :
      (h : List SocketEvent) (answer : Option FredLeaseStatus) (x : Conn)
      → IsTracked c p h x
      → IsTracked c p (snapshot_read answer ∷ h) (step c x (snapshot_read answer))
  unfolding step on_snapshot
  snapshot-IsTracked h answer x t = by_read x.snapshot refl answer
    where
      closed :
          (a : Option FredLeaseStatus)
          → IsTracked c p (snapshot_read a ∷ h) (record x { snapshot = none })
      closed a = record {
        counted = t.counted;
        waiting = t.waiting;
        snapshot = λ k e. cc e;
        confirming = λ ev k e.
            let (past, issued, follows, same) = t.confirming ev k e in
            (past, issued, later (snapshot_read a) refl follows, same);
      }

      unread :
          (a : Option FredLeaseStatus)
          → x.snapshot ≡ none
          → Alike c p (record x { snapshot = none }) x
      unread a idle = record { seq = refl; pending = refl; snapshot = idle; confirming = refl }

      by_read :
          (read : Option ℕ)
          → x.snapshot ≡ read
          → (a : Option FredLeaseStatus)
          → IsTracked c p
              (snapshot_read a ∷ h)
              (elim read [ none ↦ x | some seq ↦ on_snapshot c seq a x ])
      by_read none idle a =
          Alike-IsTracked c p (snapshot_read a ∷ h) (record x { snapshot = none }) x (unread a idle)
            (closed a)
      by_read (some seq) busy none = closed none
      by_read (some seq) busy (some s) =
          elim (Bool-cases (not (is_settled x) && x.candidate_seq == seq)) [
            | inl fresh ↦ rw fresh (
                Alike-IsTracked c p (snapshot_read (some s) ∷ h) (record x { snapshot = none })
                  (consider c s (record x { snapshot = none }))
                  (consider-Alike c p s (record x { snapshot = none })) (closed (some s)))
            | inr stale ↦ rw stale (closed (some s))
          ]

  on_confirm-IsTracked :
      (h : List SocketEvent) (ev : FredWsEvent) (seq : ℕ) (answer : Option FredLeaseStatus)
      (x : Conn)
      → IsTracked c p h x
      → IsTracked c p (confirm_read answer ∷ h) (on_confirm c ev seq answer x)
  unfolding on_confirm
  on_confirm-IsTracked h ev seq answer x t = by_answer answer
    where
      judged :
          (a : Option FredLeaseStatus) (s : FredLeaseStatus)
          → IsTracked c p (confirm_read a ∷ h) (claim (consider c s x))
      judged a s =
          loop-IsTracked c p h a (consider c s x)
            (Alike-IsTracked c p h x (consider c s x) (consider-Alike c p s x) t)

      by_answer :
          (a : Option FredLeaseStatus)
          → IsTracked c p (confirm_read a ∷ h) (on_confirm c ev seq a x)
      by_answer none =
          elim (Bool-cases
            (not (is_settled x) && x.candidate_seq == seq && str_mem ev.status provision_failed)) [
              | inl fails ↦ rw fails (judged none (map_ws_event_to_status ev))
              | inr waits ↦ rw waits (loop-IsTracked c p h none x t)
            ]
      by_answer (some s) = elim (Bool-cases (x.candidate_seq == seq)) [
        | inl fresh ↦ rw fresh (judged (some s) s)
        | inr stale ↦ rw stale (loop-IsTracked c p h (some s) x t)
      ]

  confirm-IsTracked :
      (h : List SocketEvent) (answer : Option FredLeaseStatus) (x : Conn)
      → IsTracked c p h x
      → IsTracked c p (confirm_read answer ∷ h) (step c x (confirm_read answer))
  unfolding step
  confirm-IsTracked h answer x t = by_read x.confirming refl
    where
      idle_read : x.confirming ≡ none → IsTracked c p (confirm_read answer ∷ h) x
      idle_read idle = record {
        counted = t.counted;
        waiting = t.waiting;
        snapshot = λ k e.
            let (past, follows, same) = t.snapshot k e in
            (past, later (confirm_read answer) refl follows, same);
        confirming = λ ev k e. cc (idle, e);
      }

      by_read :
          (read : Option (FredWsEvent × ℕ))
          → x.confirming ≡ read
          → IsTracked c p
              (confirm_read answer ∷ h)
              (elim read [ none ↦ x | some r ↦ on_confirm c r.0 r.1 answer x ])
      by_read none idle = idle_read idle
      by_read (some r) busy = on_confirm-IsTracked h r.0 r.1 answer x t

  -- An end of the connection leaves the rest as it is.
  ending-IsTracked :
      (h : List SocketEvent) (e : SocketEvent) (o : ConnOutcome) (x : Conn)
      → candidate_of e ≡ none
      → ends_confirm e ≡ false
      → ends_snapshot e ≡ false
      → IsTracked c p h x
      → IsTracked c p (e ∷ h) (finish o x)
  ending-IsTracked h e o x none_new no_confirm no_snapshot t =
      Alike-IsTracked c p (e ∷ h) x (finish o x) (finish-Alike c p o x)
        (quiet-IsTracked c p h e x none_new no_confirm no_snapshot t)

  step-IsTracked :
      (h : List SocketEvent) (e : SocketEvent) (x : Conn)
      → after c p h ≡ x
      → x.settled ≡ none
      → IsTracked c p h x
      → IsTracked c p (e ∷ h) (step c x e)
  unfolding step
  step-IsTracked h opened x here unsettled t = opened-IsTracked h x t
  step-IsTracked h errored x here unsettled t =
      ending-IsTracked h errored reconnect x refl refl refl t
  step-IsTracked h liveness_elapsed x here unsettled t =
      ending-IsTracked h liveness_elapsed reconnect x refl refl refl t
  step-IsTracked h deadline_elapsed x here unsettled t =
      ending-IsTracked h deadline_elapsed deadline x refl refl refl t
  step-IsTracked h abort_fired x here unsettled t =
      ending-IsTracked h abort_fired aborted x refl refl refl t
  step-IsTracked h (message text) x here unsettled t =
      rw (unsettled-is_settled c p x unsettled) (on_frame-IsTracked h text x here t)
  step-IsTracked h (closed_with code) x here unsettled t =
      ending-IsTracked h (closed_with code)
        (if permanent_ws_close_codes code then permanent code else reconnect) x refl refl refl t
  step-IsTracked h (snapshot_read answer) x here unsettled t = snapshot-IsTracked h answer x t
  step-IsTracked h (confirm_read answer) x here unsettled t = confirm-IsTracked h answer x t

  -- Once settled, a connection stays as it settled.
  pub step-settled :
      (x : Conn) (e : SocketEvent) (o : ConnOutcome)
      → x.settled ≡ some o
      → (step c x e).settled ≡ some o
  unfolding step consider claim on_snapshot on_confirm on_frame confirm_via_status
  step-settled x opened o done = done
  step-settled x (snapshot_read none) o done = ground (arith, done)
  step-settled x (snapshot_read (some s)) o done = ground (arith, done)
  step-settled x (confirm_read none) o done = ground (arith, done)
  step-settled x (confirm_read (some s)) o done = ground (arith, done)
  step-settled x e o done = ground (arith, done)

  pub after-IsTracked :
      (h : List SocketEvent) → (after c p h).settled ≡ none → IsTracked c p h (after c p h)
  unfolding after
  after-IsTracked [] unsettled = record {
    counted = refl;
    waiting = λ ev e. cc e;
    snapshot = λ k e. cc e;
    confirming = λ ev k e. cc e;
  }
  after-IsTracked (e ∷ h) unsettled = elim (Option-cases (after c p h).settled) [
    | inl before ↦ step-IsTracked h e (after c p h) refl before (after-IsTracked h before)
    | inr (o, done) ↦ cc (step-settled (after c p h) e o done, unsettled)
  ]
