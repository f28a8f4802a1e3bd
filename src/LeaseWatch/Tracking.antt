-- ===== src/LeaseWatch/Tracking.antt =====
-- How the variables of a connection follow the frames and the reads of its history.
pub mod Steps
use mathlib.Core.Option.{some-injective}
use mathlib.Core.Path.{Path}
use manifest_mcp_mono.Common.{
  ℕ, zero, suc, ◌+◌, ◌≤◌, ◌<◌, ◌≡◌, ◌≢◌, ◌⊎◌, inl, inr, refl, ap, sym, ◌∙◌, Bool, true, false, ◌&&◌,
  ◌||◌, not, List, [], ◌∷◌, Option, none, some, String, str_mem, str_eq, ◌==◌, arith, Bool-cases,
  Option-cases, eq_iff, if◌then◌else◌,
}
use manifest_mcp_mono.LeaseWait.{FredLeaseStatus, provision_in_progress, provision_failed}
use manifest_mcp_mono.LeaseWatch.{
  Terminal, success, failure, undecided, classify_terminal, FrameText, FredWsEvent,
  parse_fred_ws_event, map_ws_event_to_status, WatchOptions, Progress, ConnOutcome, terminal, Conn,
  connected, SocketEvent, opened, errored, liveness_elapsed, deadline_elapsed, abort_fired, message,
  closed_with, snapshot_read, confirm_read, is_settled, finish, consider, claim, confirm_via_status,
  on_frame, on_confirm, on_snapshot, step, after, classify_active, permanent_ws_close_codes,
  permanent, reconnect, deadline, aborted,
}

-- The frames that may settle a wait: all but the known progress.
abbrev pub candidate_in : Option FredWsEvent → Option FredWsEvent
candidate_in none = none
candidate_in (some ev) = if str_mem ev.status provision_in_progress then none else some ev

abbrev pub candidate_of : SocketEvent → Option FredWsEvent
candidate_of (message text) = candidate_in (parse_fred_ws_event text)
candidate_of _ = none

abbrev pub add_candidate : Option FredWsEvent → ℕ → ℕ
add_candidate none n = n
add_candidate (some ev) n = suc n

abbrev pub candidates : List SocketEvent → ℕ
candidates [] = 0
candidates (e ∷ past) = add_candidate (candidate_of e) (candidates past)

abbrev pub or_newest : Option FredWsEvent → Option FredWsEvent → Option FredWsEvent
or_newest none older = older
or_newest (some ev) older = some ev

-- The newest of these frames.
abbrev pub newest : List SocketEvent → Option FredWsEvent
newest [] = none
newest (e ∷ past) = or_newest (candidate_of e) (newest past)

abbrev pub ends_confirm : SocketEvent → Bool
ends_confirm (confirm_read answer) = true
ends_confirm _ = false

abbrev pub ends_snapshot : SocketEvent → Bool
ends_snapshot opened = true
ends_snapshot (snapshot_read answer) = true
ends_snapshot _ = false

abbrev pub never : SocketEvent → Bool
never _ = false

-- The events from `past` on, none of which is one of `ends`.
pub data Follows (ends : SocketEvent → Bool) (past : List SocketEvent)
    : List SocketEvent → Type 0 where
  now : Follows ends past past
  later :
      {h : List SocketEvent} (e : SocketEvent)
      → ends e ≡ false
      → Follows ends past h
      → Follows ends past (e ∷ h)

module _ (c : WatchOptions) (p : Progress) where
  -- The last event of a history started a confirming read for `ev`.
  pub data Issued (ev : FredWsEvent) : List SocketEvent → Type 0 where
    by_frame :
        {past : List SocketEvent} (text : FrameText)
        → candidate_of (message text) ≡ some ev
        → (after c p past).confirming ≡ none
        → Issued ev (message text ∷ past)
    by_loop :
        {past : List SocketEvent} (answer : Option FredLeaseStatus)
        → newest past ≡ some ev
        → Issued ev (confirm_read answer ∷ past)

  -- What the variables of an unsettled connection say of its history.
  pub record IsTracked (h : List SocketEvent) (x : Conn) : Type 0 where
    pub counted : x.candidate_seq ≡ candidates h
    pub waiting : (ev : FredWsEvent) → x.pending_candidate ≡ some ev → newest h ≡ some ev
    pub snapshot :
        (k : ℕ)
        → x.snapshot ≡ some k
        → (past : List SocketEvent) × Follows ends_snapshot (opened ∷ past) h
          × (k ≡ candidates past)
    pub confirming :
        (ev : FredWsEvent) (k : ℕ)
        → x.confirming ≡ some (ev, k)
        → (past : List SocketEvent) × Issued ev past
          × Follows ends_confirm past h
          × (k ≡ candidates past)

  pub record Alike (x y : Conn) : Type 0 where
    pub seq : y.candidate_seq ≡ x.candidate_seq
    pub pending : y.pending_candidate ≡ x.pending_candidate
    pub snapshot : y.snapshot ≡ x.snapshot
    pub confirming : y.confirming ≡ x.confirming

  pub Alike-IsTracked :
      (h : List SocketEvent) (x y : Conn) → Alike x y → IsTracked h x → IsTracked h y
  Alike-IsTracked h x y same t = record {
    counted = same.seq ∙ t.counted;
    waiting = λ ev e. t.waiting ev (sym same.pending ∙ e);
    snapshot = λ k e. t.snapshot k (sym same.snapshot ∙ e);
    confirming = λ ev k e. t.confirming ev k (sym same.confirming ∙ e);
  }

  pub unsettled-is_settled : (x : Conn) → x.settled ≡ none → is_settled x ≡ false
  unsettled-is_settled x unsettled = rw unsettled refl

  pub finish-Alike : (o : ConnOutcome) (x : Conn) → Alike x (finish o x)
  finish-Alike o x = elim (Bool-cases (is_settled x)) [
    | inl done ↦ rw done (record { seq = refl; pending = refl; snapshot = refl; confirming = refl })
    | inr open_yet ↦
        rw open_yet (record { seq = refl; pending = refl; snapshot = refl; confirming = refl })
  ]

  pub consider-Alike : (s : FredLeaseStatus) (x : Conn) → Alike x (consider c s x)
  unfolding consider
  consider-Alike s x = record {
    seq = ground arith;
    pending = ground arith;
    snapshot = ground arith;
    confirming = ground arith;
  }

  -- The head of the loop, reached with no read in flight, at a history that may start one.
  claim-IsTracked :
      (h : List SocketEvent) (x : Conn)
      → x.candidate_seq ≡ candidates h
      → ((ev : FredWsEvent) → x.pending_candidate ≡ some ev → newest h ≡ some ev)
      → ((k : ℕ)
          → x.snapshot ≡ some k
          → (past : List SocketEvent) × Follows ends_snapshot (opened ∷ past) h
            × (k ≡ candidates past))
      → ((ev : FredWsEvent) → x.pending_candidate ≡ some ev → Issued ev h)
      → IsTracked h (claim x)
  unfolding claim
  claim-IsTracked h x counted waiting snapshot issued = record {
    counted = ground (arith, counted);
    waiting = λ ev e. waiting ev (ground (arith, e));
    snapshot = λ k e. snapshot k (ground (arith, e));
    confirming = λ ev k e. (h, issued ev (ground (arith, e)), now, ground (arith, e, counted));
  }

  -- An event that is no candidate and ends no read.
  pub quiet-IsTracked :
      (h : List SocketEvent) (e : SocketEvent) (x : Conn)
      → candidate_of e ≡ none
      → ends_confirm e ≡ false
      → ends_snapshot e ≡ false
      → IsTracked h x
      → IsTracked (e ∷ h) x
  quiet-IsTracked h e x none_new no_confirm no_snapshot t = record {
    counted = rw none_new t.counted;
    waiting = λ ev w. rw none_new (t.waiting ev w);
    snapshot = λ k w.
        let (past, follows, same) = t.snapshot k w in (past, later e no_snapshot follows, same);
    confirming = λ ev k w.
        let (past, issued, follows, same) = t.confirming ev k w in
        (past, issued, later e no_confirm follows, same);
  }

  -- A candidate frame: it is counted, and it starts a read where none is in flight.
  pub frame-IsTracked :
      (h : List SocketEvent) (text : FrameText) (ev : FredWsEvent) (x : Conn)
      → after c p h ≡ x
      → candidate_of (message text) ≡ some ev
      → IsTracked h x
      → IsTracked (message text ∷ h) (confirm_via_status ev x)
  unfolding confirm_via_status
  frame-IsTracked h text ev x here new t = by_read x.confirming refl
    where
      x' : Conn
      x' = record x { candidate_seq = suc x.candidate_seq; pending_candidate = some ev }

      counted : suc x.candidate_seq ≡ candidates (message text ∷ h)
      counted = rw new (ap suc t.counted)

      waiting :
          (w : FredWsEvent)
          → Path (Option FredWsEvent) (some ev) (some w)
          → newest (message text ∷ h) ≡ some w
      waiting w e = rw new e

      snapshot :
          (k : ℕ)
          → x.snapshot ≡ some k
          → (past : List SocketEvent) × Follows ends_snapshot (opened ∷ past) (message text ∷ h)
            × (k ≡ candidates past)
      snapshot k w =
          let (past, follows, same) = t.snapshot k w in
          (past, later (message text) refl follows, same)

      by_read :
          (read : Option (FredWsEvent × ℕ))
          → x.confirming ≡ read
          → IsTracked (message text ∷ h) (elim read [ none ↦ claim x' | some r ↦ x' ])
      by_read none idle =
          claim-IsTracked (message text ∷ h) x' counted waiting snapshot
            (λ w e. by_frame text (new ∙ e) (ap Conn.confirming here ∙ idle))
      by_read (some r) busy = record {
        counted = counted;
        waiting = waiting;
        snapshot = snapshot;
        confirming = λ w k e.
            let (past, issued, follows, same) = t.confirming w k e in
            (past, issued, later (message text) refl follows, same);
      }

  -- The end of a confirming read, whether it settles the connection or not.
  pub loop-IsTracked :
      (h : List SocketEvent) (answer : Option FredLeaseStatus) (x : Conn)
      → IsTracked h x
      → IsTracked (confirm_read answer ∷ h) (claim x)
  loop-IsTracked h answer x t =
      claim-IsTracked (confirm_read answer ∷ h) x t.counted t.waiting snapshot
        (λ ev e. by_loop answer (t.waiting ev e))
    where
      snapshot :
          (k : ℕ)
          → x.snapshot ≡ some k
          → (past : List SocketEvent) × Follows ends_snapshot
              (opened ∷ past)
              (confirm_read answer ∷ h)
            × (k ≡ candidates past)
      snapshot k w =
          let (past, follows, same) = t.snapshot k w in
          (past, later (confirm_read answer) refl follows, same)
