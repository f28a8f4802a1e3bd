-- ===== src/TxExecution/Confirmation.antt =====
-- What a cancelled confirmation says of an opaque broadcast.
use manifest_mcp_mono.Common.{
  ◌≡◌, refl, ◌↔◌, ◌∙◌, true, List, [], ◌∷◌, Option, none, some, String, arith,
}
use manifest_mcp_mono.TxExecution.{
  CancelledTxError, cancelled, TxExecution, Event, abort, accepted, mark, broadcast, resolve,
  reject, step, run, started, with_tx_execution, with_tx_confirmation,
}
use manifest_mcp_mono.TxExecution.Cancellation.{Inv, step-Inv, run-Inv, start-Inv}

step_sent : (x : TxExecution) (e : Event) → x.sent ≡ true → (step x e).sent ≡ true
unfolding step
step_sent x (abort r) h = ground arith
step_sent x (accepted r) h = ground arith
step_sent x mark h = ground arith
step_sent x broadcast h = ground arith
step_sent x (resolve r) h = ground arith
step_sent x (reject r) h = ground arith

run_sent : (x : TxExecution) (es : List Event) → x.sent ≡ true → (run x es).sent ≡ true
unfolding run
run_sent x [] h = h
run_sent x (e ∷ es) h = run_sent (step x e) es (step_sent x e h)

reported_sent :
    (x : TxExecution) (e : CancelledTxError)
    → Inv x
    → x.settled ≡ some (cancelled e)
    → e.sent ≡ x.sent
reported_sent x e v h = ground (arith, v.reported)

marked_sent : (step (started true) mark).sent ≡ true
unfolding step
marked_sent = refl

-- The caller gave a signal. In every order of later events, a confirmation that settled as cancelled
-- reports that something may have been sent exactly where the signal had not fired before the call.
pub confirmation_sent :
    (aborted : Option String) (es : List Event) (e : CancelledTxError)
    → (with_tx_confirmation (some aborted) es).settled ≡ some (cancelled e)
    → (e.sent ≡ true) ↔ (aborted ≡ none)
unfolding with_tx_confirmation with_tx_execution run
confirmation_sent none es e h =
    let after_mark = step (started true) mark in
    let sent = run_sent after_mark es marked_sent in
    let v = run-Inv after_mark es (step-Inv (started true) mark start-Inv) in
    (λ _. refl, λ _. reported_sent (run after_mark es) e v h ∙ sent)
confirmation_sent (some reason) es e h = ground arith
