-- ===== src/StopApp.antt =====
-- packages/core/src/tools/stopApp.ts: the end of a lease, whatever its state. The answers of the chain are
-- a record; the lease's id, which every result repeats, is left out of the results.
pub mod Grounds
pub mod Tests
use manifest_mcp_mono.Common.{
  ℕ, Bool, true, false, ◌&&◌, not, List, [], ◌∷◌, ◌++◌, Option, none, some, Text, codes, same_text,
  any, length, leb, all_digits, get_or_else, Datum, truth, number, string, other, no_members,
  member, Members, member_of, Result, ok, err, if◌then◌else◌,
}
use manifest_mcp_mono.LeaseWait.{
  LeaseState, unspecified, pending, active, closed, rejected, expired, unknown_state,
}
use manifest_mcp_mono.LeaseWait.Poll.{
  TerminalChainLeaseState, chain_closed, chain_rejected, chain_expired,
}
use manifest_mcp_mono.DeployOutcome.{is_hex, is_text, is_true, text_of}
use manifest_mcp_mono.DeployManifest.{
  Thrown, sdk_error, provider_error, chain_terminal, unconfirmed, other_error, query_failed,
  tx_failed, error_message_of,
}
use manifest_mcp_mono.DeployManifest.Failure.{details_of}

pub record Lease : Type 0 where
  pub state : LeaseState
  pub rejection_reason : Option Text

pub record TxResult : Type 0 where
  pub transaction_hash : Text
  pub code : ℕ

-- StopAppReconciliation
pub record Reconciliation : Type 0 where
  pub error : Thrown
  pub error_code : Option Text
  pub sent : Option Bool
  pub transaction_hash : Option Text
  pub transaction_code : Option ℕ
  pub transaction_height : Option Text
  pub transaction_confirmed : Option Bool

-- A `code` is there where the transaction is confirmed; the reason, for a rejected lease.
pub data StopAppResult : Type 0 where
  stopped cancelled : (transaction_hash : Text) (code : Option ℕ) → StopAppResult
  already_inactive :
      TerminalChainLeaseState
      → (rejection_reason : Option Text) → Option Reconciliation
      → StopAppResult

pub data Subcommand : Type 0 where
  close_lease cancel_lease : Subcommand

-- The lease before the transaction and after a failed one, `waits` being `waitForConfirmation`.
pub record StopAnswers : Type 0 where
  pub first : Result Thrown (Option Lease)
  pub transaction : Result Thrown TxResult
  pub fresh : Result Thrown (Option Lease)
  pub waits : Bool

pub record StopRun : Type 0 where
  pub broadcasts : List Subcommand
  pub outcome : Result Thrown StopAppResult

-- The `catch` of a query: an error of the SDK passes.
abbrev pub query_error : Thrown → Thrown
query_error (sdk_error code message details) = sdk_error code message details
query_error e = query_failed (codes "Failed to query lease: " ++ error_message_of e)

abbrev pub query_lease : Result Thrown (Option Lease) → Result Thrown (Option Lease)
query_lease (ok lease) = ok lease
query_lease (err e) = err (query_error e)

abbrev pub terminal_of_state : LeaseState → Option TerminalChainLeaseState
terminal_of_state closed = some chain_closed
terminal_of_state rejected = some chain_rejected
terminal_of_state expired = some chain_expired
terminal_of_state _ = none

abbrev pub reason_of : TerminalChainLeaseState → Lease → Option Text
reason_of chain_rejected lease = some (get_or_else lease.rejection_reason [])
reason_of _ lease = none

abbrev pub is_cancellation_error : Thrown → Bool
is_cancellation_error (sdk_error code message details) = is_text code (codes "OPERATION_CANCELLED")
is_cancellation_error _ = false

abbrev bool_of : Datum → Option Bool
bool_of (truth b) = some b
bool_of _ = none

abbrev all_hex : Text → Bool
all_hex [] = true
all_hex (c ∷ s) = is_hex c && all_hex s

abbrev if_holds : (Text → Bool) → Option Text → Option Text
if_holds p none = none
if_holds p (some t) = if p t then some t else none

-- `Number.MAX_SAFE_INTEGER` bounds a code.
abbrev code_number : Datum → Option ℕ
code_number (number n) = if leb n 9007199254740991 then some n else none
code_number _ = none

abbrev own_code : Thrown → Option Text
own_code (sdk_error code message details) = text_of code
own_code _ = none

-- A fact of the transaction, only where the error says that it was sent.
abbrev pub submitted : Datum → Bool
submitted sent = is_true sent

-- `known_codes` are the values of ManifestMCPErrorCode. Of the errors only the SDK's have details here.
module _ (known_codes : List Text) where
  unfoldable pub reconciliation_from : Thrown → Reconciliation
  reconciliation_from error =
      let sent = member_of (codes "sent") (details_of error) in
      record {
        error = error;
        error_code = if_holds (λ t. any (λ k. same_text k t) known_codes) (own_code error);
        sent = bool_of sent;
        transaction_hash =
            if_holds (λ t. leb 64 (length t) && leb (length t) 64 && all_hex t)
              (text_of (member_of (codes "transactionHash") (details_of error)));
        transaction_code =
            if submitted sent
            then code_number (member_of (codes "code") (details_of error))
            else none;
        transaction_height =
            if submitted sent
            then if_holds (λ t. leb 1 (length t) && leb (length t) 20 && all_digits t)
                (text_of (member_of (codes "height") (details_of error)))
            else none;
        transaction_confirmed =
            if submitted sent
            then bool_of (member_of (codes "confirmed") (details_of error))
            else none;
      }

  abbrev pub inactive :
      TerminalChainLeaseState → Lease → Option Reconciliation → Result Thrown StopAppResult
  inactive s lease known = ok (already_inactive s (reason_of s lease) known)

  -- The state changed under a cancellation; the reconciliation in the details is left out of them.
  abbrev pub race_error : Thrown → Thrown
  race_error e =
      sdk_error (string (codes "TX_FAILED"))
        (codes
          "The lease's state changed during teardown (now ACTIVE); re-invoke stopApp to close it.")
        (if submitted (member_of (codes "sent") (details_of e))
          then member (codes "sent") (truth true) no_members
          else no_members)

  abbrev pub after_reread : Subcommand → Thrown → Lease → Result Thrown StopAppResult
  after_reread subcommand e lease = elim (terminal_of_state lease.state) [
    | some s ↦ inactive s lease (some (reconciliation_from e))
    | none ↦ elim subcommand [
      | close_lease ↦ err e
      | cancel_lease ↦ elim lease.state [ active ↦ err (race_error e) | _ ↦ err e ]
    ]
  ]

  -- The `catch` of the transaction: at most one more read of the lease.
  unfoldable pub reconcile :
      (waits : Bool) (fresh : Result Thrown (Option Lease))
      → Subcommand
      → Thrown
      → Result Thrown StopAppResult
  unfolding reconciliation_from
  reconcile waits fresh subcommand e =
      if is_cancellation_error e
      then err e
      else if waits
      then elim (query_lease fresh) [
        | err x ↦ err e
        | ok none ↦ err e
        | ok (some lease) ↦ after_reread subcommand e lease
      ]
      else err e

  abbrev pub finished : Bool → Subcommand → TxResult → StopAppResult
  finished waits close_lease r = stopped r.transaction_hash (if waits then some r.code else none)
  finished waits cancel_lease r = cancelled r.transaction_hash (if waits then some r.code else none)

  abbrev pub attempt : StopAnswers → Subcommand → StopRun
  attempt a subcommand = record {
    broadcasts = subcommand ∷ [];
    outcome = elim a.transaction [
      | ok r ↦ ok (finished a.waits subcommand r)
      | err e ↦ reconcile a.waits a.fresh subcommand e
    ];
  }

  abbrev pub without_broadcast : Result Thrown StopAppResult → StopRun
  without_broadcast r = record { broadcasts = []; outcome = r }

  abbrev pub by_state : StopAnswers → Lease → LeaseState → StopRun
  by_state a lease active = attempt a close_lease
  by_state a lease pending = attempt a cancel_lease
  by_state a lease closed = without_broadcast (inactive chain_closed lease none)
  by_state a lease rejected = without_broadcast (inactive chain_rejected lease none)
  by_state a lease expired = without_broadcast (inactive chain_expired lease none)
  by_state a lease unspecified =
      without_broadcast (err (tx_failed (codes "The lease is in an unrecognized state")))
  by_state a lease unknown_state =
      without_broadcast (err (tx_failed (codes "The lease is in an unrecognized state")))

  unfoldable pub stop_app : StopAnswers → StopRun
  unfolding reconcile
  stop_app a = elim (query_lease a.first) [
    | err e ↦ without_broadcast (err e)
    | ok none ↦ without_broadcast (err (query_failed (codes "The lease is not found on chain")))
    | ok (some lease) ↦ by_state a lease lease.state
  ]
