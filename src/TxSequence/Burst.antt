-- ===== src/TxSequence/Burst.antt =====
-- Which sequences a signer's broadcasts sign with, whatever other signers do in between.
use manifest_mcp_mono.Common.{
  ◌≡◌, refl, ◌∙◌, ap, false, List, [], ◌∷◌, Option, none, some, String, lookup, All,
}
use manifest_mcp_mono.TxSequence.{
  CachedSequence, SequenceCache, Reply, ok, failed, Use, advance, Call, sign_and_broadcast,
  sign_and_broadcast_sync, simulate, signer, sequenced_signing_client, run,
}
use manifest_mcp_mono.TxSequence.Cell.{
  cell_accepted, cell_sync, cell_step, run_cell, calls_of, uses_of, step_same, run-run_cell,
}

abbrev pub IsOk : {A : Type 0} → Reply A → Type 0
IsOk (ok a) = Unit
IsOk (failed e) = ⊥

-- A call of a burst: an accepted broadcast that does not wait, or a simulation of the next one.
abbrev pub InBurst : Call → Type 0
InBurst (sign_and_broadcast sender a) = ⊥
InBurst (sign_and_broadcast_sync sender a) = IsOk a.outcome
InBurst (simulate sender outcome) = Unit

abbrev pub signed : List (Call × Use) → List (Option CachedSequence)
signed [] = []
signed ((call, used) ∷ uses) = used.signed_with ∷ signed uses

-- The sequences that the chain expects of a burst: one more after each broadcast, and a simulation
-- at the sequence of the broadcast that comes after it.
abbrev pub consecutive : CachedSequence → List Call → List (Option CachedSequence)
consecutive next [] = []
consecutive next (sign_and_broadcast sender a ∷ calls) = some next ∷ consecutive next calls
consecutive next (sign_and_broadcast_sync sender a ∷ calls) =
    some next ∷ consecutive (advance next) calls
consecutive next (simulate sender outcome ∷ calls) = some next ∷ consecutive next calls

cell_accepted_ok :
    (q : CachedSequence) (r : Reply String) → IsOk r → cell_accepted false q r ≡ some (advance q)
unfolding cell_accepted
cell_accepted_ok q (ok hash) h = refl
cell_accepted_ok q (failed e) h = absurd h

run_cell-consecutive :
    (q : CachedSequence) (calls : List Call)
    → All InBurst calls
    → signed (run_cell (some q) calls).0 ≡ consecutive q calls
unfolding run_cell cell_step
run_cell-consecutive q [] h = refl
run_cell-consecutive q (sign_and_broadcast sender a ∷ calls) h = absurd h.0
run_cell-consecutive q (sign_and_broadcast_sync sender a ∷ calls) h =
    rw (cell_accepted_ok q a.outcome h.0)
      (ap (λ l. some q ∷ l) (run_cell-consecutive (advance q) calls h.1))
run_cell-consecutive q (simulate sender outcome ∷ calls) h =
    ap (λ l. some q ∷ l) (run_cell-consecutive q calls h.1)

-- A burst of an untracked signer whose first call is an accepted broadcast starts at the committed
-- sequence that the client answers, and goes on from there.
pub burst_from_committed :
    (cache : SequenceCache) (calls rest : List Call) (s : String) (c : CachedSequence)
    (hash : String)
    → lookup s cache ≡ none
    → calls_of s calls
      ≡ sign_and_broadcast_sync s (record { committed = ok c; outcome = ok hash }) ∷ rest
    → All InBurst rest
    → signed (uses_of s (run cache calls).0) ≡ some c ∷ consecutive (advance c) rest
unfolding run_cell cell_step
burst_from_committed cache calls rest s c hash e first h =
    rw ((run-run_cell cache calls s).0, e, first)
      (ap (λ l. some c ∷ l) (run_cell-consecutive (advance c) rest h))

-- A broadcast that waits for its block, or that fails.
abbrev pub Resyncs : Call → Type 0
Resyncs (sign_and_broadcast sender a) = Unit
Resyncs (sign_and_broadcast_sync sender a) = (e : String) × (a.outcome ≡ failed e)
Resyncs (simulate sender outcome) = ⊥

cell_sync_failed :
    (cell : Option CachedSequence) (committed : Reply CachedSequence) (e : String)
    → (cell_sync cell (record { committed = committed; outcome = failed e })).1 ≡ none
unfolding cell_sync
cell_sync_failed (some q) committed e = refl
cell_sync_failed none (ok q) e = refl
cell_sync_failed none (failed r) e = refl

cell_step-Resyncs :
    (cell : Option CachedSequence) (call : Call) → Resyncs call → (cell_step cell call).1 ≡ none
unfolding cell_step
cell_step-Resyncs cell (sign_and_broadcast sender a) h = refl
cell_step-Resyncs cell (sign_and_broadcast_sync sender a) (e, same) =
    ap (λ o. (cell_sync cell (record a { outcome = o })).1) same
    ∙ cell_sync_failed cell a.committed e
cell_step-Resyncs cell (simulate sender outcome) h = absurd h

-- A broadcast that waits for its block, and any broadcast that fails, leaves its signer untracked:
-- the next broadcast reads the committed sequence again.
pub broadcast-Resyncs :
    (cache : SequenceCache) (call : Call)
    → Resyncs call
    → lookup (signer call) (sequenced_signing_client cache call).1 ≡ none
broadcast-Resyncs cache call h =
    (step_same cache call).1 ∙ cell_step-Resyncs (lookup (signer call) cache) call h
