-- ===== src/TxSequence/Cell.antt =====
-- The abstract view of the sequence cache: each signer has a cell of its own, and a history of calls
-- by many signers is, for each of them, the history of that signer's calls alone.
use manifest_mcp_mono.Common.{
  ◌≡◌, refl, ◌∙◌, inl, inr, Bool, true, false, List, [], ◌∷◌, Option, none, some, String, eq_iff,
  eq_refl, lookup, insert, lookup-insert, lookup-delete, str_eq, if◌then◌else◌, Bool-cases,
}
use manifest_mcp_mono.TxSequence.{
  CachedSequence, SequenceCache, Reply, ok, failed, Answers, Use, advance, broadcast_with,
  broadcast_cached, Call, sign_and_broadcast, sign_and_broadcast_sync, simulate, signer,
  sequenced_signing_client, run,
}

-- One signer's state, and one call on it: what was submitted with which sequence, and the new state.
unfoldable pub cell_accepted : Bool → CachedSequence → Reply String → Option CachedSequence
cell_accepted wait seq (failed e) = none
cell_accepted true seq (ok hash) = none
cell_accepted false seq (ok hash) = some (advance seq)

unfoldable pub cell_sync : Option CachedSequence → Answers → Use × Option CachedSequence
unfolding cell_accepted
cell_sync (some seq) a = (
  record { result = a.outcome; submitted = true; signed_with = some seq },
  cell_accepted false seq a.outcome,
)
cell_sync none a = elim a.committed [
  | ok seq ↦ (
    record { result = a.outcome; submitted = true; signed_with = some seq },
    cell_accepted false seq a.outcome,
  )
  | failed e ↦ (record { result = failed e; submitted = false; signed_with = none }, none)
]

-- A broadcast that waits uses the tracked sequence, if there is one, and ends the tracking.
unfoldable pub cell_step : Option CachedSequence → Call → Use × Option CachedSequence
unfolding cell_sync
cell_step cell (sign_and_broadcast sender a) =
    (record { result = a.outcome; submitted = true; signed_with = cell }, none)
cell_step cell (sign_and_broadcast_sync sender a) = cell_sync cell a
cell_step cell (simulate sender outcome) =
    (record { result = outcome; submitted = false; signed_with = cell }, cell)

unfoldable pub run_cell :
    Option CachedSequence → List Call → List (Call × Use) × Option CachedSequence
unfolding cell_step
run_cell cell [] = ([], cell)
run_cell cell (call ∷ calls) =
    let (use1, cell') = cell_step cell call in
    let (uses, final) = run_cell cell' calls in ((call, use1) ∷ uses, final)

abbrev pub calls_of : String → List Call → List Call
calls_of s [] = []
calls_of s (call ∷ calls) =
    if str_eq (signer call) s then call ∷ calls_of s calls else calls_of s calls

abbrev pub uses_of : String → List (Call × Use) → List (Call × Use)
uses_of s [] = []
uses_of s ((call, used) ∷ uses) =
    if str_eq (signer call) s then (call, used) ∷ uses_of s uses else uses_of s uses

-- A broadcast touches no other signer's entry.
broadcast_with_other :
    (cache : SequenceCache) (wait : Bool) (sender s : String) (seq : CachedSequence)
    (outcome : Reply String)
    → str_eq sender s ≡ false
    → lookup s (broadcast_with cache wait sender seq outcome).1 ≡ lookup s cache
unfolding broadcast_with
broadcast_with_other cache true sender s seq (ok r) h = rw (lookup-delete, h)
broadcast_with_other cache false sender s seq (ok r) h = rw (lookup-insert, h)
broadcast_with_other cache wait sender s seq (failed e) h = rw (lookup-delete, h)

broadcast_cached_other :
    (cache : SequenceCache) (wait : Bool) (sender s : String) (cached : Option CachedSequence)
    (committed : Reply CachedSequence) (outcome : Reply String)
    → str_eq sender s ≡ false
    → lookup s
        (broadcast_cached cache wait sender cached
          (record { committed = committed; outcome = outcome })).1
      ≡ lookup s cache
unfolding broadcast_cached
broadcast_cached_other cache wait sender s (some seq) committed outcome h =
    broadcast_with_other cache wait sender s seq outcome h
broadcast_cached_other cache true sender s none committed outcome h = refl
broadcast_cached_other cache false sender s none (failed e) outcome h = refl
broadcast_cached_other cache false sender s none (ok seq) outcome h =
    broadcast_with_other (insert sender seq cache) false sender s seq outcome h
    ∙ rw (lookup-insert, h)

step_other :
    (cache : SequenceCache) (s : String) (call : Call)
    → str_eq (signer call) s ≡ false
    → lookup s (sequenced_signing_client cache call).1 ≡ lookup s cache
unfolding sequenced_signing_client
step_other cache s (sign_and_broadcast sender a) h =
    broadcast_cached_other cache true sender s (lookup sender cache) a.committed a.outcome h
step_other cache s (sign_and_broadcast_sync sender a) h =
    broadcast_cached_other cache false sender s (lookup sender cache) a.committed a.outcome h
step_other cache s (simulate sender outcome) h = refl

-- One call refines one step of its signer's cell, if the cell is what the cache holds.
abbrev Refines : String → Use × SequenceCache → Use × Option CachedSequence → Type 0
Refines s done spec = (done.0 ≡ spec.0) × (lookup s done.1 ≡ spec.1)

broadcast_with_same :
    (cache : SequenceCache) (wait : Bool) (sender : String) (seq : CachedSequence)
    (outcome : Reply String)
    → Refines sender (broadcast_with cache wait sender seq outcome) (
      record { result = outcome; submitted = true; signed_with = some seq },
      cell_accepted wait seq outcome,
    )
unfolding broadcast_with cell_accepted
broadcast_with_same cache true sender seq (ok r) = (refl, rw (lookup-delete, eq_refl sender))
broadcast_with_same cache false sender seq (ok r) = (refl, rw (lookup-insert, eq_refl sender))
broadcast_with_same cache wait sender seq (failed e) = (refl, rw (lookup-delete, eq_refl sender))

blocking_same :
    (cache : SequenceCache) (sender : String) (cached : Option CachedSequence)
    (committed : Reply CachedSequence) (outcome : Reply String)
    → lookup sender cache ≡ cached
    → let a : Answers = record { committed = committed; outcome = outcome } in
      Refines sender
        (broadcast_cached cache true sender cached a)
        (cell_step cached (sign_and_broadcast sender a))
unfolding broadcast_cached cell_step broadcast_with
blocking_same cache sender none committed outcome e = (refl, e)
blocking_same cache sender (some seq) committed (ok r) e =
    (refl, rw (lookup-delete, eq_refl sender))
blocking_same cache sender (some seq) committed (failed r) e =
    (refl, rw (lookup-delete, eq_refl sender))

sync_same :
    (cache : SequenceCache) (sender : String) (cached : Option CachedSequence)
    (committed : Reply CachedSequence) (outcome : Reply String)
    → lookup sender cache ≡ cached
    → let a : Answers = record { committed = committed; outcome = outcome } in
      Refines sender
        (broadcast_cached cache false sender cached a)
        (cell_step cached (sign_and_broadcast_sync sender a))
unfolding broadcast_cached cell_step
sync_same cache sender none (failed r) outcome e = (refl, e)
sync_same cache sender none (ok seq) outcome e =
    broadcast_with_same (insert sender seq cache) false sender seq outcome
sync_same cache sender (some seq) committed outcome e =
    broadcast_with_same cache false sender seq outcome

pub step_same :
    (cache : SequenceCache) (call : Call)
    → Refines
        (signer call)
        (sequenced_signing_client cache call)
        (cell_step (lookup (signer call) cache) call)
unfolding sequenced_signing_client
step_same cache (sign_and_broadcast sender a) =
    blocking_same cache sender (lookup sender cache) a.committed a.outcome refl
step_same cache (sign_and_broadcast_sync sender a) =
    sync_same cache sender (lookup sender cache) a.committed a.outcome refl
step_same cache (simulate sender outcome) = unfold cell_step in (refl, refl)

step_same_at :
    (cache : SequenceCache) (s : String) (call : Call)
    → str_eq (signer call) s ≡ true
    → Refines s (sequenced_signing_client cache call) (cell_step (lookup s cache) call)
step_same_at cache s call h = rw ((eq_iff (signer call) s).0 h) at (step_same cache call)

-- Whatever the signers' calls and however they are interleaved, what the cache does for one signer,
-- sequences, results and final entry, is what that signer's own calls do to a cell of its own.
pub run-run_cell :
    (cache : SequenceCache) (calls : List Call) (s : String)
    → (uses_of s (run cache calls).0 ≡ (run_cell (lookup s cache) (calls_of s calls)).0)
      × (lookup s (run cache calls).1 ≡ (run_cell (lookup s cache) (calls_of s calls)).1)
unfolding run run_cell
run-run_cell cache [] s = (refl, refl)
run-run_cell cache (call ∷ calls) s = elim (Bool-cases (str_eq (signer call) s)) [
  | inl mine ↦
      let ih = run-run_cell (sequenced_signing_client cache call).1 calls s in
      let same = step_same_at cache s call mine in
      rw (mine, ih.0, ih.1, same.0, same.1) (refl, refl)
  | inr other ↦
      let ih = run-run_cell (sequenced_signing_client cache call).1 calls s in
      rw (other, ih.0, ih.1, step_other cache s call other) (refl, refl)
]
