-- ===== src/Retry/Verdict.antt =====
-- packages/core/src/retry.ts: which errors are permanent, and which failures may be retried.
use mathlib.Core.Option
use manifest_mcp_mono.Common.{
  Text, codes, same_text, ℕ, Bool, true, false, List, [], ◌∷◌, ◌&&◌, ◌||◌, not, Option, none, some,
  ◌==◌, leb, String, any, if◌then◌else◌, get_elem?, length, suc,
}
use manifest_mcp_mono.Retry.{
  Inspect, value, throws, ◌>>=◌, Details, MessageVerdict, ErrorObject, Heap,
}
use manifest_mcp_mono.Retry.Message.{includes, is_transient_error_message}
use manifest_mcp_mono.Retry.Chain.{error_chain}

abbrev pub maintenance_error_codes : List String
maintenance_error_codes =
    "UPDATE_INDETERMINATE" ∷ "RESTART_INDETERMINATE" ∷ "MAINTENANCE_REQUEST_FAILED"
    ∷ "MAINTENANCE_WAIT_FAILED" ∷ []

abbrev pub non_retryable_error_codes : List String
non_retryable_error_codes =
    "INVALID_CONFIG" ∷ "WALLET_NOT_CONNECTED" ∷ "WALLET_CONNECTION_FAILED" ∷ "INVALID_MNEMONIC"
    ∷ "INVALID_ADDRESS" ∷ "INVALID_ARGUMENT" ∷ "NOT_FOUND" ∷ "UNSUPPORTED_TX" ∷ "UNSUPPORTED_QUERY"
    ∷ "UNKNOWN_MODULE" ∷ "TX_FAILED" ∷ "GAS_LIMIT_EXCEEDED" ∷ "OPERATION_CANCELLED"
    ∷ "SKU_AMBIGUOUS" ∷ "RESTORE_NOT_RETAINED" ∷ "RESTORE_REJECTED" ∷ "RESTORE_RETRYABLE"
    ∷ "RESTORE_ORPHAN_COMPENSATION_FAILED" ∷ "RESTORE_COMMITTED_FAILURE"
    ∷ "DEPLOY_READINESS_UNCONFIRMED" ∷ []

-- `codes.includes(code)`
unfoldable pub code_in : List String → Text → Bool
unfolding same_text
code_in names c = any (λ n. same_text c (codes n)) names

abbrev pub retryable_grpc_code : ℕ → Bool
retryable_grpc_code c = c == 4 || c == 8 || c == 14

-- By the gRPC code, else by the HTTP status; the error's code is read for a 408 only.
abbrev pub status_retryability : Inspect Text → Option ℕ → Option ℕ → Inspect (Option Bool)
status_retryability c (some grpc) http = value (some (retryable_grpc_code grpc))
status_retryability c none (some http) =
    if http == 408
    then c >>= (λ k. value (some (same_text k (codes "QUERY_FAILED"))))
    else value (some (leb 500 http || http == 429))
status_retryability c none none = value none

-- The status that a query error carries; none where it has no say.
unfoldable pub query_status_retryability : ErrorObject → Inspect (Option Bool)
unfolding same_text
query_status_retryability e =
    if e.is_manifest
    then (do
      details ← e.details
      elim details [
        | none ↦ value none
        | some d ↦ status_retryability e.error_code d.grpc_code d.http_status
      ])
    else value none

-- `preservedMessageVerdicts`: a kept verdict holds while the public message is the redacted one.
unfoldable pub preserved_message_verdicts : ErrorObject → Inspect (Option MessageVerdict)
unfolding same_text
preserved_message_verdicts e = elim e.redacted [
  | none ↦ value none
  | some v ↦ (do m ← e.message; value (if same_text v.display_message m then some v else none))
]

-- `details` of a restart or update whose outcome the provider must be asked for.
unfoldable pub owns_recovery : Option Details → Bool
unfolding same_text
owns_recovery none = false
owns_recovery (some d) =
    (same_text d.operation (codes "restart") || same_text d.operation (codes "update"))
    && (same_text d.outcome (codes "unknown") || same_text d.outcome (codes "accepted"))
    && d.has_idempotency_key

-- The command of a lease or an operation that was submitted.
abbrev pub submitted : Option Details → Bool
submitted none = false
submitted (some d) = d.partial || d.was_sent

abbrev pub timed_out : Option Details → Bool
timed_out none = false
timed_out (some d) = same_text d.transport_code (codes "ETIMEDOUT")

-- The `catch`: an inspection that throws does not authorise a replay.
abbrev pub replay : Option (Inspect Bool) → Bool
replay (some (value b)) = b
replay (some throws) = false
replay none = false

-- `a || b` and `if (a) return true; b`, where looking may throw
unfoldable pub or_else_inspect : Inspect Bool → Inspect Bool → Inspect Bool
or_else_inspect a b = a >>= λ t. if t then value true else b

module _ (to_lower_case : Text → Text) where
  -- NXDOMAIN, by the code, the kept verdict, or the message.
  unfoldable pub is_unresolved_host : ErrorObject → Inspect Bool
  unfolding same_text includes preserved_message_verdicts
  is_unresolved_host e =
      or_else_inspect
        (e.error_code >>= λ c. value (same_text (to_lower_case c) (codes "enotfound")))
        (preserved_message_verdicts e >>= λ kept. elim kept [
          | some v ↦ value v.permanent
          | none ↦ e.message >>= λ m. value (includes (codes "enotfound") (to_lower_case m))
        ])

  -- A coded error whose code, or whose submitted operation, rules a replay out.
  unfoldable pub has_final_verdict : ErrorObject → Inspect Bool
  unfolding code_in
  has_final_verdict e =
      if e.is_manifest
      then or_else_inspect (e.error_code >>= λ c. value (code_in non_retryable_error_codes c))
          (e.details >>= λ d. value (submitted d))
      else value false

  unfoldable pub is_permanent_error : ErrorObject → Inspect Bool
  unfolding code_in owns_recovery is_unresolved_host query_status_retryability has_final_verdict
  is_permanent_error e =
      if e.inspection_failed
      then value true
      else or_else_inspect (e.error_code >>= λ c. value (code_in maintenance_error_codes c)) (
          or_else_inspect (e.details >>= λ d. value (owns_recovery d)) (
            or_else_inspect (is_unresolved_host e) (
              or_else_inspect
                (query_status_retryability e >>= λ s. elim s [
                  | none ↦ value false
                  | some ok ↦ value (not ok)
                ])
                (has_final_verdict e))))

  -- A transport deadline that a query or connection boundary vouches for.
  unfoldable pub owns_timeout : ErrorObject → Inspect Bool
  unfolding same_text
  owns_timeout e =
      if e.is_manifest
      then (e.error_code >>= λ c.
          if same_text c (codes "QUERY_FAILED") || same_text c (codes "RPC_CONNECTION_FAILED")
          then (e.details >>= λ d. value (timed_out d))
          else value false)
      else value false

  -- The first loop: an abort or a timeout decides at once (`some`), else whether a marker was seen.
  unfoldable pub transport_timeout : Bool → List ErrorObject → Inspect (Option Bool × Bool)
  unfolding owns_timeout
  transport_timeout seen [] = value (none, seen)
  transport_timeout seen (e ∷ chain) =
      let rest = λ (t : Bool). transport_timeout (seen || t) chain in
      e.name >>= λ n.
      if same_text n (codes "AbortError") || same_text n (codes "TimeoutError")
      then value (some seen, seen)
      else (owns_timeout e >>= rest)

  unfoldable pub shows_transient : ErrorObject → Inspect Bool
  unfolding query_status_retryability preserved_message_verdicts is_transient_error_message
  shows_transient e =
      or_else_inspect
        (query_status_retryability e >>= λ s. value (elim s [ none ↦ false | some ok ↦ ok ]))
        (or_else_inspect
          (preserved_message_verdicts e >>= λ kept. elim kept [
            | some v ↦ value v.transient
            | none ↦ e.message >>= λ m. value (is_transient_error_message to_lower_case m)
          ])
          (e.error_code >>= λ c. value (is_transient_error_message to_lower_case c)))

  unfoldable pub some_transient : List ErrorObject → Inspect Bool
  unfolding shows_transient
  some_transient [] = value false
  some_transient (e ∷ chain) =
      let rest = some_transient chain in or_else_inspect (shows_transient e) rest

  unfoldable pub weigh : List ErrorObject → Inspect Bool
  unfolding transport_timeout some_transient
  weigh chain = do
    verdict ← transport_timeout false chain
    elim verdict.0 [
      | some decided ↦ value decided
      | none ↦ if verdict.1 then value true else some_transient chain
    ]

  unfoldable pub weigh_chain : List ErrorObject × Bool → Inspect Bool
  unfolding weigh
  weigh_chain (chain, stopped) = if stopped then value false else weigh chain

  -- None only where the fuel of the chain runs out, which it does not.
  unfoldable pub classify_retryable : Heap → ℕ → Option (Inspect Bool)
  unfolding error_chain weigh_chain is_permanent_error
  classify_retryable heap error = elim (get_elem? heap error) [
    | none ↦ some (value false)
    | some e ↦
        Option.map (λ walked. walked >>= weigh_chain)
          (error_chain is_permanent_error (suc (length heap)) heap error [])
  ]

  unfoldable pub is_retryable_error : Heap → ℕ → Bool → Bool
  unfolding classify_retryable
  is_retryable_error heap error aborted =
      if aborted then false else replay (classify_retryable heap error)
