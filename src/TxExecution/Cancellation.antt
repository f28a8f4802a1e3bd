-- ===== src/TxExecution/Cancellation.antt =====
-- What a caller may conclude from how a transaction settled, over every order of events.
use manifest_mcp_mono.Common.{
  ◌≡◌, refl, ◌≢◌, true, false, List, [], ◌∷◌, Option, none, some, String, arith,
}
use manifest_mcp_mono.TxExecution.{
  CancelledTxError, Settlement, resolved, rejected, cancelled, TxExecution, cancelled_tx_error,
  Event, abort, accepted, mark, broadcast, resolve, reject, step, run, started, with_tx_execution,
}
use manifest_mcp_mono.TxExecution.History.{first_accepted, has_sent, run-Agrees}

-- What the listener reported is what the shared variables hold.
abbrev pub Reports : TxExecution → Option Settlement → Type 0
Reports x none = Unit
Reports x (some (resolved v)) = Unit
Reports x (some (rejected e)) = Unit
Reports x (some (cancelled e)) =
    (x.aborted ≡ some e.reason) × (e.sent ≡ x.sent) × (e.transaction_hash ≡ x.transaction_hash)

-- The shared variables of an execution whose caller gave a signal.
pub record Inv (x : TxExecution) : Type 0 where
  pub watched : x.signal ≡ true
  pub marked : x.entered ≡ true → x.sent ≡ true
  pub submitted : x.transaction_hash ≢ none → x.sent ≡ true
  pub prompt : x.aborted ≢ none → x.settled ≢ none
  pub reported : Reports x x.settled

pub step-Inv : (x : TxExecution) (e : Event) → Inv x → Inv (step x e)
unfolding step
step-Inv x (abort r) v = ground arith
step-Inv x (accepted h) v = ground arith
step-Inv x mark v = ground arith
step-Inv x broadcast v = ground arith
step-Inv x (resolve r) v = ground arith
step-Inv x (reject e) v = ground arith

pub run-Inv : (x : TxExecution) (es : List Event) → Inv x → Inv (run x es)
unfolding run
run-Inv x [] v = v
run-Inv x (e ∷ es) v = run-Inv (step x e) es (step-Inv x e v)

pub start-Inv : Inv (started true)
start-Inv = record {
  watched = refl;
  marked = λ h. cc h;
  submitted = λ h. absurd (h refl);
  prompt = λ h. absurd (h refl);
  reported = tt;
}

-- The events that an execution can see: none where its signal had fired before it started.
abbrev pub history : Option String → List Event → List Event
history none es = es
history (some reason) es = []

-- What an OPERATION_CANCELLED error says of a submission is true, and stays true: it agrees with the
-- history up to the signal, and with the variables at the end.
pub record IsTruthful (es : List Event) (x : TxExecution) (e : CancelledTxError) : Type 0 where
  pub accepted_hash : e.transaction_hash ≡ first_accepted es
  pub sent_exactly : e.sent ≡ has_sent es
  pub entered_is_sent : x.entered ≡ true → e.sent ≡ true
  pub hash_is_sent : e.transaction_hash ≢ none → e.sent ≡ true
  pub unsent : e.sent ≡ false → (x.entered ≡ false) × (x.transaction_hash ≡ none)
  pub same_hash : e.transaction_hash ≡ x.transaction_hash

Inv-IsTruthful :
    (es : List Event) (x : TxExecution) (e : CancelledTxError)
    → Inv x
    → x.settled ≡ some (cancelled e)
    → e.transaction_hash ≡ first_accepted es
    → e.sent ≡ has_sent es
    → IsTruthful es x e
Inv-IsTruthful es x e v h same_hash same_sent =
    let (entered_sent, hash_sent, unsent, kept) = stays x e v h in
    record {
      accepted_hash = same_hash;
      sent_exactly = same_sent;
      entered_is_sent = entered_sent;
      hash_is_sent = hash_sent;
      unsent = unsent;
      same_hash = kept;
    }
  where
    stays :
        (x : TxExecution) (e : CancelledTxError)
        → Inv x
        → x.settled ≡ some (cancelled e)
        → (x.entered ≡ true → e.sent ≡ true)
          × (e.transaction_hash ≢ none → e.sent ≡ true)
          × (e.sent ≡ false → (x.entered ≡ false) × (x.transaction_hash ≡ none))
          × (e.transaction_hash ≡ x.transaction_hash)
    stays x e v h = ground (arith, v.reported)

-- The execution was given a signal (one that had fired already, or not). In every order of later
-- events, if it settled as cancelled, then the hash of the error is the first acceptance before the
-- signal fired, or none where there was none, and `sent` is true exactly where a mark, a broadcast or
-- an acceptance came before the signal. This stays true: `sent: false` means that the broadcast is
-- never entered and no hash is kept, and the hash of the error is the one that the execution keeps.
pub cancellation-IsTruthful :
    (aborted : Option String) (es : List Event) (e : CancelledTxError)
    → (with_tx_execution (some aborted) es).settled ≡ some (cancelled e)
    → IsTruthful (history aborted es) (with_tx_execution (some aborted) es) e
unfolding with_tx_execution
cancellation-IsTruthful none es e h =
    let (same_hash, same_sent) =
      run-Agrees (started true) es e (record { watched = refl; quiet = refl; idle = refl }) h in
    Inv-IsTruthful es (run (started true) es) e (run-Inv (started true) es start-Inv) h same_hash
      same_sent
cancellation-IsTruthful (some reason) es e h = ground arith

-- After the signal has fired nothing changes what was sent.
record Frozen (r : String) (x y : TxExecution) : Type 0 where
  pub signal : y.signal ≡ true
  pub aborted : y.aborted ≡ some r
  pub entered : y.entered ≡ x.entered
  pub sent : y.sent ≡ x.sent
  pub settled : y.settled ≢ none

step-Frozen : (r : String) (x y : TxExecution) (e : Event) → Frozen r x y → Frozen r x (step y e)
unfolding step
step-Frozen r x y (abort q) v = ground arith
step-Frozen r x y (accepted q) v = ground arith
step-Frozen r x y mark v = ground arith
step-Frozen r x y broadcast v = ground arith
step-Frozen r x y (resolve q) v = ground arith
step-Frozen r x y (reject q) v = ground arith

run-Frozen :
    (r : String) (x y : TxExecution) (es : List Event) → Frozen r x y → Frozen r x (run y es)
unfolding run
run-Frozen r x y [] v = v
run-Frozen r x y (e ∷ es) v = run-Frozen r x (step y e) es (step-Frozen r x y e v)

-- After the signal of an execution has fired, no later event enters the broadcast or marks it sent.
pub aborted_is_final :
    (es later : List Event) (reason : String)
    → let x = run (started true) es in
      x.aborted ≡ some reason → ((run x later).entered ≡ x.entered) × ((run x later).sent ≡ x.sent)
aborted_is_final es later reason h =
    let x = run (started true) es in
    let v = run-Inv (started true) es start-Inv in
    let fired : x.aborted ≢ none = λ e. cc (h, e) in
    let f = run-Frozen reason x x later (record {
      signal = v.watched;
      aborted = h;
      entered = refl;
      sent = refl;
      settled = v.prompt fired;
    }) in
    (f.entered, f.sent)

-- When the signal fires before the operation has settled, the promise is rejected at that moment,
-- with what has been sent and accepted so far.
pub abort_rejects_promptly :
    (es : List Event) (reason : String)
    → let x = run (started true) es in
      x.settled ≡ none
      → (step x (abort reason)).settled ≡ some (cancelled (cancelled_tx_error reason x))
unfolding step
abort_rejects_promptly es reason h =
    let v = run-Inv (started true) es start-Inv in ground (arith, v.prompt, v.watched)
