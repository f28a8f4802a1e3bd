-- ===== src/DeployManifest/Failure.antt =====
-- packages/fred/src/tools/deployManifest.ts: what the catch makes of an error that follows the lease.
-- The log lines are left out, and the advice in the messages is shortened.
use manifest_mcp_mono.Common.{
  Bool, true, false, ◌&&◌, ◌||◌, not, ◌++◌, Option, none, some, Text, codes, Datum, truth, string,
  Members, no_members, member, is_some, if◌then◌else◌,
}
use manifest_mcp_mono.LeaseWait.{ProviderErrorKind, poll_verdict}
use manifest_mcp_mono.LeaseWait.Poll.{TerminalChainLeaseState}
use manifest_mcp_mono.DeployOutcome.{text_of, DeployFailedStep, set_domain, upload, poll}
use manifest_mcp_mono.DeployManifest.{
  ChainContext, Unconfirmed, Thrown, sdk_error, chain_terminal, unconfirmed, error_message_of,
  is_billing_only_payload_refusal, assign, assign_text, kind_of,
}

-- The snapshot of an error. `terminal` is the error itself, taken apart.
pub record DeployFailure : Type 0 where
  pub message : Text
  pub terminal : Option (TerminalChainLeaseState × (Text × ChainContext))
  pub unconfirmed : Bool
  pub poll_verdict : Bool
  pub code : Text
  pub details : Members
  pub poll_details : Members

abbrev pub terminal_of : Thrown → Option (TerminalChainLeaseState × (Text × ChainContext))
terminal_of (chain_terminal s lease context) = some (s, (lease, context))
terminal_of _ = none

abbrev pub unconfirmed_of : Thrown → Option Unconfirmed
unconfirmed_of (unconfirmed u message) = some u
unconfirmed_of _ = none

abbrev pub is_verdict : Option ProviderErrorKind → Bool
is_verdict (some poll_verdict) = true
is_verdict _ = false

abbrev code_or : Option Text → Text
code_or none = codes "QUERY_FAILED"
code_or (some code) = code

abbrev pub code_of : Thrown → Text
code_of (sdk_error code message details) = code_or (text_of code)
code_of _ = codes "QUERY_FAILED"

-- `...undefined` adds nothing.
abbrev pub details_of : Thrown → Members
details_of (sdk_error code message details) = details
details_of _ = no_members

abbrev pub poll_details_of : Option Unconfirmed → Members
poll_details_of none = no_members
poll_details_of (some u) = assign_text (codes "last_provision_status") u.last_provision_status (
    assign_text (codes "last_state") u.last_state
      (member (codes "poll_reason") (string u.reason) no_members))

unfoldable pub deploy_failure : Thrown → DeployFailure
deploy_failure error = record {
  message = error_message_of error;
  terminal = terminal_of error;
  unconfirmed = is_some (unconfirmed_of error);
  poll_verdict = is_verdict (kind_of error);
  code = code_of error;
  details = details_of error;
  poll_details = poll_details_of (unconfirmed_of error);
}

abbrev pub step_name : DeployFailedStep → Text
step_name set_domain = codes "set_domain"
step_name upload = codes "upload"
step_name poll = codes "poll"

abbrev pub step_text : Option DeployFailedStep → Option Text
step_text none = none
step_text (some step) = some (step_name step)

abbrev pub is_step_poll : Option DeployFailedStep → Bool
is_step_poll (some poll) = true
is_step_poll _ = false

abbrev pub is_step_upload : Option DeployFailedStep → Bool
is_step_upload (some upload) = true
is_step_upload _ = false

-- `{ ...ms, ...extra }`
unfoldable pub spread : Members → Members → Members
spread ms no_members = ms
spread ms (member k v extra) = spread (assign k v ms) extra

-- The lease that was created, as every envelope names it.
pub record Created : Type 0 where
  pub lease_uuid : Text
  pub provider_uuid : Text
  pub provider_url : Text

unfoldable pub with_lease : Created → Members → Members
with_lease c ms = assign (codes "provider_url") (string c.provider_url) (
    assign (codes "provider_uuid") (string c.provider_uuid)
      (assign (codes "lease_uuid") (string c.lease_uuid) ms))

-- `withContext` with all three fields, which go before those that the error has.
abbrev pub with_context : TerminalChainLeaseState × (Text × ChainContext) → Created → Thrown
with_context (s, (lease, context)) c = chain_terminal s lease record {
  lease_uuid = some c.lease_uuid;
  provider_uuid = some c.provider_uuid;
  provider_url = some c.provider_url;
}

abbrev pub unconfirmed_message : Bool → Text → Text → Text
unconfirmed_message cancelled lease message =
    codes "Deploy partially succeeded: lease "
    ++ lease
    ++ codes " was created but "
    ++ (if cancelled
        then codes "the deploy was cancelled before readiness could be confirmed"
        else codes "its readiness could not be confirmed")
    ++ codes ". This is NOT a confirmed failure. Error: "
    ++ message

abbrev pub next_step : Text → Text
next_step lease =
    codes "Close the lease with close_lease({ lease_uuid: \""
    ++ lease
    ++ codes "\" }) to stop its billing unless you meant to buy this provider service"

abbrev pub billing_message : Text → Text
billing_message lease =
    codes "Deploy partially succeeded: lease "
    ++ lease
    ++ codes " was created, but every SKU it uses is billing-only at this provider. "
    ++ next_step lease

abbrev pub partial_message : Text → Text → Text
partial_message lease message =
    codes "Deploy partially succeeded: lease "
    ++ lease
    ++ codes
        " was created but subsequent steps failed. Close this lease with close_lease if needed. Error: "
    ++ message

abbrev pub readiness_unconfirmed : Option DeployFailedStep → DeployFailure → Bool
readiness_unconfirmed step f = f.unconfirmed || is_step_poll step && not f.poll_verdict

abbrev pub partial_key : Members → Members
partial_key = assign (codes "partial") (truth true)

abbrev pub unconfirmed_error : Bool → Created → Option DeployFailedStep → DeployFailure → Thrown
unconfirmed_error cancelled c step f =
    sdk_error
      (string
        (if cancelled then codes "OPERATION_CANCELLED" else codes "DEPLOY_READINESS_UNCONFIRMED"))
      (unconfirmed_message cancelled c.lease_uuid f.message)
      (with_lease c (
        assign_text (codes "failedStep") (step_text step) (
          spread (assign (codes "readiness_unconfirmed") (truth true) (partial_key f.details))
            f.poll_details)))

abbrev pub billing_only_error : Created → Option DeployFailedStep → DeployFailure → Thrown
billing_only_error c step f = sdk_error (string f.code) (billing_message c.lease_uuid) (
    with_lease c (
      assign (codes "next_step") (string (next_step c.lease_uuid)) (
        assign (codes "billing_only") (truth true)
          (assign_text (codes "failedStep") (step_text step) (partial_key f.details)))))

abbrev pub partial_error : Bool → Created → Option DeployFailedStep → DeployFailure → Thrown
partial_error cancelled c step f =
    sdk_error (string (if cancelled then codes "OPERATION_CANCELLED" else f.code))
      (partial_message c.lease_uuid f.message)
      (with_lease c (assign_text (codes "failedStep") (step_text step) (partial_key f.details)))

module _ (parse_json : Text → Option Datum) where
  abbrev pub live_error : Bool → Created → Option DeployFailedStep → Thrown → Thrown
  live_error cancelled c step error =
      let f = deploy_failure error in
      if readiness_unconfirmed step f
      then unconfirmed_error cancelled c step f
      else if is_step_upload step && is_billing_only_payload_refusal parse_json error
      then billing_only_error c step f
      else partial_error cancelled c step f

  -- The `catch`: `step` is the variable as the error found it.
  unfoldable pub wrap_failure :
      (cancelled : Bool) → Created → Option DeployFailedStep → Thrown → Thrown
  unfolding deploy_failure spread with_lease
  wrap_failure cancelled c step error = elim ((deploy_failure error).terminal) [
    | some t ↦ with_context t c
    | none ↦ live_error cancelled c step error
  ]
