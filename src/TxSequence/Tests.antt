-- ===== src/TxSequence/Tests.antt =====
-- Runs of the sequence cache, and its theorems at concrete calls.
use manifest_mcp_mono.Common.{◌≡◌, refl, List, [], ◌∷◌, none, some, lookup, insert, delete}
use manifest_mcp_mono.TxSequence.{
  SequenceCache, CachedSequence, ok, failed, Answers, Call, sign_and_broadcast,
  sign_and_broadcast_sync, simulate, run,
}
use manifest_mcp_mono.TxSequence.Cell.{run_cell, calls_of, uses_of, run-run_cell}
use manifest_mcp_mono.TxSequence.Burst.{signed}

abbrev committed_7 : CachedSequence
committed_7 = record { account_number = 4; sequence = 7 }

abbrev next_8 : CachedSequence
next_8 = record { account_number = 4; sequence = 8 }

abbrev accepted : Answers
accepted = record { committed = ok committed_7; outcome = ok "AB12" }

abbrev next_8_cached : SequenceCache
next_8_cached = record { key = "alice"; held = next_8 } ∷ []

abbrev refused : Answers
refused = record { committed = ok committed_7; outcome = failed "out of gas" }

abbrev mixed : List Call
mixed =
    sign_and_broadcast_sync "alice" accepted
    ∷ sign_and_broadcast_sync "bob" refused
    ∷ simulate "alice" (ok "81000")
    ∷ sign_and_broadcast_sync "alice" accepted
    ∷ sign_and_broadcast "bob" accepted
    ∷ []

mixed-run :
    signed (run [] mixed).0
    ≡ some committed_7 ∷ some committed_7 ∷ some next_8 ∷ some next_8 ∷ none ∷ []
unfolding run lookup insert delete
mixed-run = refl

run-run_cell_example :
    (uses_of "alice" (run [] mixed).0 ≡ (run_cell none (calls_of "alice" mixed)).0)
    × (lookup "alice" (run [] mixed).1 ≡ (run_cell none (calls_of "alice" mixed)).1)
unfolding lookup
run-run_cell_example = run-run_cell [] mixed "alice"
