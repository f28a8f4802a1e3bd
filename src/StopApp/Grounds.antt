-- ===== src/StopApp/Grounds.antt =====
-- packages/core/src/tools/stopApp.ts: what each end of a teardown rests on.
use manifest_mcp_mono.Common.{
  ◌≡◌, refl, Bool, true, false, List, [], ◌∷◌, Option, none, some, Text, codes, Result, ok, err,
  if◌then◌else◌,
}
use manifest_mcp_mono.LeaseWait.{
  LeaseState, unspecified, pending, active, closed, rejected, expired, unknown_state,
}
use manifest_mcp_mono.LeaseWait.Poll.{
  TerminalChainLeaseState, chain_closed, chain_rejected, chain_expired,
}
use manifest_mcp_mono.DeployManifest.{Thrown, query_failed}
use manifest_mcp_mono.StopApp.{
  Lease, TxResult, StopAppResult, stopped, cancelled, already_inactive, Subcommand, close_lease,
  cancel_lease, StopAnswers, StopRun, query_lease, is_cancellation_error, reconciliation_from,
  race_error, after_reread, reconcile, finished, attempt, without_broadcast, by_state, stop_app,
}

-- The read found the lease in that state.
abbrev pub Saw : Result Thrown (Option Lease) → LeaseState → Type 0
Saw read s = (lease : Lease) × (read ≡ ok (some lease)) × (lease.state ≡ s)

abbrev pub lease_state : TerminalChainLeaseState → LeaseState
lease_state chain_closed = closed
lease_state chain_rejected = rejected
lease_state chain_expired = expired

-- The state that a subcommand is for.
abbrev pub target : Subcommand → LeaseState
target close_lease = active
target cancel_lease = pending

module _ (known_codes : List Text) (a : StopAnswers) where
  -- The transaction was sent and failed with that error, which is not a cancellation's.
  abbrev pub Failed : Thrown → Type 0
  Failed e = (a.transaction ≡ err e) × (is_cancellation_error e ≡ false) × (a.waits ≡ true)

  -- What each end says of the answers.
  pub data Grounds : List Subcommand → Result Thrown StopAppResult → Type 0 where
    was_closed :
        {r : TxResult}
        → Saw a.first active
        → a.transaction ≡ ok r
        → Grounds
            (close_lease ∷ [])
            (ok (stopped r.transaction_hash (if a.waits then some r.code else none)))
    was_cancelled :
        {r : TxResult}
        → Saw a.first pending
        → a.transaction ≡ ok r
        → Grounds
            (cancel_lease ∷ [])
            (ok (cancelled r.transaction_hash (if a.waits then some r.code else none)))
    was_inactive :
        {s : TerminalChainLeaseState} {reason : Option Text}
        → Saw a.first (lease_state s)
        → Grounds [] (ok (already_inactive s reason none))
    became_inactive :
        {s : TerminalChainLeaseState} {reason : Option Text} {e : Thrown} {subcommand : Subcommand}
        → Saw a.first (target subcommand)
        → Failed e
        → Saw a.fresh (lease_state s)
        → Grounds
            (subcommand ∷ [])
            (ok (already_inactive s reason (some (reconciliation_from known_codes e))))
    raced :
        {e : Thrown}
        → Saw a.first pending
        → Failed e
        → Saw a.fresh active
        → Grounds (cancel_lease ∷ []) (err (race_error known_codes e))
    failed :
        {e : Thrown} {subcommand : Subcommand}
        → Saw a.first (target subcommand)
        → a.transaction ≡ err e
        → Grounds (subcommand ∷ []) (err e)
    refused : {e : Thrown} → Grounds [] (err e)

  saw_of :
      (q : Result Thrown (Option Lease)) (l : Lease) → query_lease q ≡ ok (some l) → q ≡ ok (some l)
  saw_of (ok x) l h = h
  saw_of (err x) l h = cc h

  reread :
      (subcommand : Subcommand) (e : Thrown) (l : Lease) (s : LeaseState)
      → Saw a.first (target subcommand)
      → Failed e
      → a.fresh ≡ ok (some l)
      → l.state ≡ s
      → Grounds (subcommand ∷ []) (after_reread known_codes subcommand e l)
  reread subcommand e l closed saw f q h = rw h (became_inactive saw f (l, q, h))
  reread subcommand e l rejected saw f q h = rw h (became_inactive saw f (l, q, h))
  reread subcommand e l expired saw f q h = rw h (became_inactive saw f (l, q, h))
  reread close_lease e l active saw f q h = rw h (failed saw f.0)
  reread cancel_lease e l active saw f q h = rw h (raced saw f (l, q, h))
  reread close_lease e l pending saw f q h = rw h (failed saw f.0)
  reread cancel_lease e l pending saw f q h = rw h (failed saw f.0)
  reread close_lease e l unspecified saw f q h = rw h (failed saw f.0)
  reread cancel_lease e l unspecified saw f q h = rw h (failed saw f.0)
  reread close_lease e l unknown_state saw f q h = rw h (failed saw f.0)
  reread cancel_lease e l unknown_state saw f q h = rw h (failed saw f.0)

  reconcile-Grounds :
      (subcommand : Subcommand) (e : Thrown)
      → Saw a.first (target subcommand)
      → a.transaction ≡ err e
      → (c : Bool) → is_cancellation_error e ≡ c
      → (w : Bool) → a.waits ≡ w
      → Grounds (subcommand ∷ []) (reconcile known_codes w a.fresh subcommand e)
  unfolding reconcile
  reconcile-Grounds subcommand e saw t true c w h = rw c (failed saw t)
  reconcile-Grounds subcommand e saw t false c false h = rw c (failed saw t)
  reconcile-Grounds subcommand e saw t false c true h =
      rw c (by_read (query_lease a.fresh) refl (t, c, h))
    where
      by_read :
          (q : Result Thrown (Option Lease))
          → query_lease a.fresh ≡ q
          → Failed e
          → Grounds (subcommand ∷ []) (elim q [
            | err x ↦ err e
            | ok none ↦ err e
            | ok (some l) ↦ after_reread known_codes subcommand e l
          ])
      by_read (err x) k f = failed saw t
      by_read (ok none) k f = failed saw t
      by_read (ok (some l)) k f = reread subcommand e l l.state saw f (saw_of a.fresh l k) refl

  attempt-Grounds :
      (subcommand : Subcommand)
      → Saw a.first (target subcommand)
      → Grounds (subcommand ∷ []) (attempt known_codes a subcommand).outcome
  attempt-Grounds subcommand saw = by_answer subcommand saw a.transaction refl
    where
      by_answer :
          (s : Subcommand)
          → Saw a.first (target s)
          → (t : Result Thrown TxResult) → a.transaction ≡ t
          → Grounds (s ∷ []) (elim t [
            | ok r ↦ ok (finished known_codes a.waits s r)
            | err e ↦ reconcile known_codes a.waits a.fresh s e
          ])
      by_answer close_lease seen (ok r) h = was_closed seen h
      by_answer cancel_lease seen (ok r) h = was_cancelled seen h
      by_answer s seen (err e) h =
          reconcile-Grounds s e seen h (is_cancellation_error e) refl a.waits refl

  by_state-Grounds :
      (l : Lease) (s : LeaseState)
      → Saw a.first s
      → Grounds (by_state known_codes a l s).broadcasts (by_state known_codes a l s).outcome
  by_state-Grounds l active saw = attempt-Grounds close_lease saw
  by_state-Grounds l pending saw = attempt-Grounds cancel_lease saw
  by_state-Grounds l closed saw = was_inactive saw
  by_state-Grounds l rejected saw = was_inactive saw
  by_state-Grounds l expired saw = was_inactive saw
  by_state-Grounds l unspecified saw = refused
  by_state-Grounds l unknown_state saw = refused

  -- Whatever the chain answers, a teardown sends at most one transaction, closing only a lease that it
  -- read as active and cancelling only one that it read as pending. It says that the lease is inactive only
  -- if a read found it in the very state that it reports, the second read where the transaction failed,
  -- whose error it then keeps. An error after a transaction is the transaction's own, unless the
  -- lease that was to be cancelled has become active.
  pub stop_app-Grounds :
      Grounds (stop_app known_codes a).broadcasts (stop_app known_codes a).outcome
  unfolding stop_app
  stop_app-Grounds = by_read (query_lease a.first) refl
    where
      run : Result Thrown (Option Lease) → StopRun
      run q = elim q [
        | err e ↦ without_broadcast known_codes (err e)
        | ok none ↦
            without_broadcast known_codes
              (err (query_failed (codes "The lease is not found on chain")))
        | ok (some lease) ↦ by_state known_codes a lease lease.state
      ]

      by_read :
          (q : Result Thrown (Option Lease))
          → query_lease a.first ≡ q
          → Grounds (run q).broadcasts (run q).outcome
      by_read (err e) h = refused
      by_read (ok none) h = refused
      by_read (ok (some l)) h = by_state-Grounds l l.state (l, saw_of a.first l h, refl)
