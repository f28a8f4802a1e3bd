-- ===== src/TxExecution/History.antt =====
-- What the history of an execution leaves in the error that cancels it, for tx-confirmation.ts of core.
use manifest_mcp_mono.Common.{
  ◌≡◌, refl, ap, ◌∙◌, sym, Bool, true, false, ◌||◌, List, [], ◌∷◌, Option, none, some, String,
  or_else, arith,
}
use manifest_mcp_mono.TxExecution.{
  CancelledTxError, Settlement, resolved, rejected, cancelled, TxExecution, Event, abort, accepted,
  mark, broadcast, resolve, reject, step, run,
}

-- Once settled, an execution keeps its result whatever happens later.
step_settled :
    (x : TxExecution) (e : Event) (s : Settlement)
    → x.settled ≡ some s
    → (step x e).settled ≡ some s
unfolding step
step_settled x (abort r) s h = ground arith
step_settled x (accepted r) s h = ground arith
step_settled x mark s h = ground arith
step_settled x broadcast s h = ground arith
step_settled x (resolve r) s h = ground arith
step_settled x (reject r) s h = ground arith

run_settled :
    (x : TxExecution) (es : List Event) (s : Settlement)
    → x.settled ≡ some s
    → (run x es).settled ≡ some s
unfolding run
run_settled x [] s h = h
run_settled x (e ∷ es) s h = run_settled (step x e) es s (step_settled x e s h)

-- The first native acceptance of a history before the signal fires or the operation ends.
abbrev pub first_accepted : List Event → Option String
first_accepted [] = none
first_accepted (abort r ∷ es) = none
first_accepted (accepted hash ∷ es) = some hash
first_accepted (mark ∷ es) = first_accepted es
first_accepted (broadcast ∷ es) = first_accepted es
first_accepted (resolve r ∷ es) = none
first_accepted (reject e ∷ es) = none

-- Whether a history has a mark, a broadcast or an acceptance before the signal fires or the operation
-- ends.
abbrev pub has_sent : List Event → Bool
has_sent [] = false
has_sent (abort r ∷ es) = false
has_sent (accepted hash ∷ es) = true
has_sent (mark ∷ es) = true
has_sent (broadcast ∷ es) = true
has_sent (resolve r ∷ es) = false
has_sent (reject e ∷ es) = false

-- What the error says, against the history that followed a state.
abbrev pub Agrees : TxExecution → List Event → CancelledTxError → Type 0
Agrees x es e =
    (e.transaction_hash ≡ or_else x.transaction_hash (first_accepted es))
    × (e.sent ≡ (x.sent || has_sent es))

or_else-none : (h : Option String) → or_else h none ≡ h
or_else-none none = refl
or_else-none (some v) = refl

or_else_first :
    (h k : Option String) (v : String) → or_else (or_else h (some v)) k ≡ or_else h (some v)
or_else_first none k v = refl
or_else_first (some w) k v = refl

or_true : (b : Bool) → (b || true) ≡ true
or_true true = refl
or_true false = refl

or_false : (b : Bool) → (b || false) ≡ b
or_false true = refl
or_false false = refl

step_abort :
    (x : TxExecution) (r : String)
    → x.signal ≡ true
    → x.aborted ≡ none
    → x.settled ≡ none
    → (step x (abort r)).settled
      ≡ some
          (cancelled (record { reason = r; sent = x.sent; transaction_hash = x.transaction_hash }))
unfolding step
step_abort x r watched quiet idle = ground arith

-- What an acceptance, a mark or a broadcast leaves of an execution that is still open.
pub record IsOpen (x : TxExecution) : Type 0 where
  pub watched : x.signal ≡ true
  pub quiet : x.aborted ≡ none
  pub idle : x.settled ≡ none

-- An event that leaves the execution open and marked, with a hash.
record Continues (x y : TxExecution) (hash : Option String) : Type 0 where
  open_still : IsOpen y
  marks : y.sent ≡ true
  keeps : y.transaction_hash ≡ hash

step-accepted :
    (x : TxExecution) (hash : String)
    → IsOpen x
    → Continues x (step x (accepted hash)) (or_else x.transaction_hash (some hash))
unfolding step
step-accepted x hash v = ground arith

step_mark : (x : TxExecution) → IsOpen x → Continues x (step x mark) x.transaction_hash
unfolding step
step_mark x v = ground arith

step_broadcast : (x : TxExecution) → IsOpen x → Continues x (step x broadcast) x.transaction_hash
unfolding step
step_broadcast x v = ground arith

step_resolve :
    (x : TxExecution) (r : String) → IsOpen x → (step x (resolve r)).settled ≡ some (resolved r)
unfolding step
step_resolve x r v = rw v.idle refl

step_reject :
    (x : TxExecution) (r : String) → IsOpen x → (step x (reject r)).settled ≡ some (rejected r)
unfolding step
step_reject x r v = rw v.idle refl

-- An execution that is still open settles as cancelled only with the acceptance and the marker that
-- its later history had before the signal.
pub run-Agrees :
    (x : TxExecution) (es : List Event) (e : CancelledTxError)
    → IsOpen x
    → (run x es).settled ≡ some (cancelled e)
    → Agrees x es e
unfolding run
run-Agrees x [] e v h = cc (v.idle, h)
run-Agrees x (abort r ∷ es) e v h = by_abort
  where
    settled :
        (run (step x (abort r)) es).settled
        ≡ some (
            cancelled (record { reason = r; sent = x.sent; transaction_hash = x.transaction_hash }))
    settled = run_settled (step x (abort r)) es _ (step_abort x r v.watched v.quiet v.idle)

    by_abort : Agrees x (abort r ∷ es) e
    by_abort = ground (arith, settled, h, or_else-none x.transaction_hash, or_false x.sent)
run-Agrees x (accepted hash ∷ es) e v h =
    let after = step-accepted x hash v in
    let (same_hash, same_sent) = run-Agrees (step x (accepted hash)) es e after.open_still h in
    (
      same_hash
          ∙ ap (λ k. or_else k (first_accepted es)) after.keeps
          ∙ or_else_first x.transaction_hash (first_accepted es) hash,
      same_sent ∙ ap (λ b. b || has_sent es) after.marks ∙ sym (or_true x.sent),
    )
run-Agrees x (mark ∷ es) e v h =
    let after = step_mark x v in
    let (same_hash, same_sent) = run-Agrees (step x mark) es e after.open_still h in
    (
      same_hash ∙ ap (λ k. or_else k (first_accepted es)) after.keeps,
      same_sent ∙ ap (λ b. b || has_sent es) after.marks ∙ sym (or_true x.sent),
    )
run-Agrees x (broadcast ∷ es) e v h =
    let after = step_broadcast x v in
    let (same_hash, same_sent) = run-Agrees (step x broadcast) es e after.open_still h in
    (
      same_hash ∙ ap (λ k. or_else k (first_accepted es)) after.keeps,
      same_sent ∙ ap (λ b. b || has_sent es) after.marks ∙ sym (or_true x.sent),
    )
run-Agrees x (resolve r ∷ es) e v h =
    cc (run_settled (step x (resolve r)) es (resolved r) (step_resolve x r v), h)
run-Agrees x (reject r ∷ es) e v h =
    cc (run_settled (step x (reject r)) es (rejected r) (step_reject x r v), h)
