-- ===== src/TxExecution.antt =====
-- packages/core/src/internals/tx-confirmation.ts: the cancellation state of one transaction. The
-- abort signal, the operation's own steps and the native acceptance are events in any order; the
-- promise that `withTxExecution` returns is the field `settled`.
pub mod History
pub mod Cancellation
pub mod Confirmation
pub mod Tests
use manifest_mcp_mono.Common.{Bool, true, false, List, [], ◌∷◌, Option, none, some, String, or_else}

-- The `details` of the OPERATION_CANCELLED error.
pub record CancelledTxError : Type 0 where
  pub reason : String
  pub sent : Bool
  pub transaction_hash : Option String

-- How the promise settled: with the operation's value, with its error, or by the abort listener.
pub data Settlement : Type 0 where
  resolved : String → Settlement
  rejected : String → Settlement
  cancelled : CancelledTxError → Settlement

-- The variables that the closures of one execution share. `signal` is false where the caller gave
-- neither a signal nor a timeout; `aborted` is the signal's reason once it has fired. `entered` counts
-- for the specification only: the guarded client entered CosmJS's sign-and-broadcast.
pub record TxExecution : Type 0 where
  pub signal : Bool
  pub aborted : Option String
  pub sent : Bool
  pub transaction_hash : Option String
  pub settled : Option Settlement
  pub entered : Bool

abbrev pub cancelled_tx_error : String → TxExecution → CancelledTxError
cancelled_tx_error reason x = record {
  reason = reason;
  sent = x.sent;
  transaction_hash = x.transaction_hash;
}

-- `checkpoint()`: the error that it throws, if the signal has fired.
pub checkpoint : TxExecution → Option CancelledTxError
checkpoint x = elim x.aborted [ none ↦ none | some reason ↦ some (cancelled_tx_error reason x) ]

-- `markBroadcast()`: checkpoint, then the conservative marker.
pub mark_broadcast : TxExecution → Option CancelledTxError × TxExecution
unfolding checkpoint
mark_broadcast x = elim (checkpoint x) [
  | some e ↦ (some e, x)
  | none ↦ (none, record x { sent = true })
]

-- `guardTxClient`: with a signal, a broadcast method marks first and is entered only if that passes.
pub guard_tx_client : TxExecution → Option CancelledTxError × TxExecution
unfolding mark_broadcast
guard_tx_client x = elim x.signal [
  | false ↦ (none, record x { entered = true })
  | true ↦
      let (thrown, x') = mark_broadcast x in
      elim thrown [ some e ↦ (some e, x') | none ↦ (none, record x' { entered = true }) ]
]

-- `onAccepted(hash)`: ignored once settled; the first accepted hash is kept (`??=`).
pub on_accepted : String → TxExecution → TxExecution
on_accepted hash x = elim x.signal [
  | false ↦ x
  | true ↦ elim x.settled [
    | some s ↦ x
    | none ↦ record x { sent = true; transaction_hash = or_else x.transaction_hash (some hash) }
  ]
]

-- A promise settles once: later calls of `resolve` and `reject` do nothing.
pub settle : Settlement → TxExecution → TxExecution
settle s x = elim x.settled [ some old ↦ x | none ↦ record x { settled = some s } ]

-- The signal fires: the listener, which `cleanup` removes, rejects at once. A signal fires once.
pub on_abort : String → TxExecution → TxExecution
unfolding settle
on_abort reason x = elim x.signal [
  | false ↦ x
  | true ↦ elim x.aborted [
    | some old ↦ x
    | none ↦
        let x' = record x { aborted = some reason } in
        settle (cancelled (cancelled_tx_error reason x')) x'
  ]
]

-- What can happen while the execution runs. `broadcast` is a call of the guarded client, `mark` a
-- direct call of `markBroadcast`; where these throw, the operation goes on as it likes.
pub data Event : Type 0 where
  abort : String → Event
  accepted : String → Event
  mark : Event
  broadcast : Event
  resolve : String → Event
  reject : String → Event

pub step : TxExecution → Event → TxExecution
unfolding on_abort on_accepted mark_broadcast guard_tx_client settle
step x (abort reason) = on_abort reason x
step x (accepted hash) = on_accepted hash x
step x mark = (mark_broadcast x).1
step x broadcast = (guard_tx_client x).1
step x (resolve value) = settle (resolved value) x
step x (reject error) = settle (rejected error) x

pub run : TxExecution → List Event → TxExecution
unfolding step
run x [] = x
run x (e ∷ es) = run (step x e) es

abbrev pub started : Bool → TxExecution
started signal = record {
  signal = signal;
  aborted = none;
  sent = false;
  transaction_hash = none;
  settled = none;
  entered = false;
}

-- `withTxExecution`: the first checkpoint throws before the operation is called, if the signal of
-- the call (`some`) has fired already; else the execution runs.
pub with_tx_execution : Option (Option String) → List Event → TxExecution
unfolding run
with_tx_execution none es = run (started false) es
with_tx_execution (some none) es = run (started true) es
with_tx_execution (some (some reason)) es =
    let x = record (started true) { aborted = some reason } in
    record x { settled = some (cancelled (cancelled_tx_error reason x)) }

-- `withTxConfirmation`: the operation marks, then enters an opaque broadcast.
pub with_tx_confirmation : Option (Option String) → List Event → TxExecution
unfolding with_tx_execution
with_tx_confirmation signal es = with_tx_execution signal (mark ∷ es)
