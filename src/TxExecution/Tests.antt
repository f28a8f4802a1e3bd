-- ===== src/TxExecution/Tests.antt =====
-- Executions of a transaction, and the theorems at concrete events.
use manifest_mcp_mono.Common.{◌≡◌, refl, true, false, List, [], ◌∷◌, none, some}
use manifest_mcp_mono.TxExecution.{
  CancelledTxError, cancelled, Event, abort, accepted, broadcast, resolve, with_tx_execution,
  with_tx_confirmation,
}
use manifest_mcp_mono.TxExecution.Cancellation.{IsTruthful, cancellation-IsTruthful}

abbrev late_abort : List Event
late_abort = broadcast ∷ accepted "F00D" ∷ abort "timeout" ∷ resolve "included" ∷ []

abbrev late_error : CancelledTxError
late_error = record { reason = "timeout"; sent = true; transaction_hash = some "F00D" }

late_abort_run : (with_tx_execution (some none) late_abort).settled ≡ some (cancelled late_error)
unfolding with_tx_execution
late_abort_run = refl

early_abort_run :
    (with_tx_execution (some none) (abort "user" ∷ broadcast ∷ [])).settled
    ≡ some (cancelled (record { reason = "user"; sent = false; transaction_hash = none }))
unfolding with_tx_execution
early_abort_run = refl

cancellation-IsTruthful_example :
    IsTruthful late_abort (with_tx_execution (some none) late_abort) late_error
cancellation-IsTruthful_example = cancellation-IsTruthful none late_abort late_error late_abort_run

opaque_run :
    (with_tx_confirmation (some none) (abort "user" ∷ [])).settled
    ≡ some (cancelled (record { reason = "user"; sent = true; transaction_hash = none }))
unfolding with_tx_confirmation
opaque_run = refl
