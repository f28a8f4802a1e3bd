-- ===== src/DeployManifest/Report.antt =====
-- packages/fred/src/tools/deployManifest.ts: how an error that follows the lease is reported, as
-- packages/agent-core/src/internals/classify-deploy-error.ts classifies it.
use manifest_mcp_mono.Common.{
  ◌≡◌, refl, inl, inr, Bool, true, false, ◌&&◌, ◌||◌, not, Option, none, some, Text, codes,
  same_text, Bool-cases, Datum, truth, string, object, Members, member_of, if◌then◌else◌,
}
use manifest_mcp_mono.DeployOutcome.{
  is_true, DeployFailedStep, partially_succeeded, is_partial, named_lease, partial_with,
  classify_envelope, classify_deploy_error,
}
use manifest_mcp_mono.LeaseWait.Poll.{TerminalChainLeaseState}
use manifest_mcp_mono.DeployManifest.{
  ChainContext, Thrown, sdk_error, assign, is_billing_only_payload_refusal,
}
use manifest_mcp_mono.DeployManifest.Failure.{
  Created, deploy_failure, details_of, code_of, is_step_upload, terminal_of, with_context,
  unconfirmed_of, poll_details_of, spread, with_lease, readiness_unconfirmed, live_error,
  unconfirmed_message, billing_message, partial_message, next_step, wrap_failure,
}
use manifest_mcp_mono.DeployManifest.Envelope.{envelope, untouched_poll}
use manifest_mcp_mono.DeployManifest.Details.{
  reported_step, Holds, partial-Holds, billing-Holds, unsure-Holds, base, unsure_members,
}

-- Details that say the deployment was partial make the classification, whatever the message says.
classify_partial :
    (code : Text) (message : Text) (details : Members)
    → member_of (codes "partial") details ≡ truth true
    → classify_deploy_error (envelope (sdk_error (string code) message details)) none
      ≡ partial_with (object details) message
unfolding classify_deploy_error classify_envelope is_partial same_text
classify_partial code message details h = rw h refl

-- How the error `x` tells of a lease that exists; `cause` is what was thrown, at `step`.
pub record IsReported (c : Created) (step : Option DeployFailedStep) (cause : Thrown)
    (cancelled unsure billing : Bool) (x : Thrown) : Type 0 where
  pub outcome : (classify_deploy_error (envelope x) none).outcome ≡ partially_succeeded
  pub lease : (classify_deploy_error (envelope x) none).lease_uuid ≡ some c.lease_uuid
  pub failed_step :
      (classify_deploy_error (envelope x) none).failed_step ≡ reported_step step (details_of cause)
  pub readiness :
      (classify_deploy_error (envelope x) none).readiness_unconfirmed
      ≡ (unsure || is_true (member_of (codes "readiness_unconfirmed") (details_of cause)))
  pub billing_only :
      (classify_deploy_error (envelope x) none).billing_only
      ≡ (billing || is_true (member_of (codes "billing_only") (details_of cause)))
  pub code : code_of x ≡ (
      if cancelled && not billing
      then codes "OPERATION_CANCELLED"
      else if unsure
      then codes "DEPLOY_READINESS_UNCONFIRMED"
      else code_of cause)

abbrev code_for : Bool → Bool → Bool → Thrown → Text
code_for cancelled unsure billing cause =
    if cancelled && not billing
    then codes "OPERATION_CANCELLED"
    else if unsure
    then codes "DEPLOY_READINESS_UNCONFIRMED"
    else code_of cause

lease_in_details :
    (details : Members) (u message : Text)
    → member_of (codes "lease_uuid") details ≡ string u
    → named_lease (object details) message ≡ some u
unfolding named_lease
lease_in_details details u message h = rw (named_lease, h) refl

-- Details that hold what they should make the report.
Holds-IsReported :
    (c : Created) (step : Option DeployFailedStep) (cause : Thrown)
    (cancelled unsure billing : Bool) (code message : Text) (details : Members)
    → Holds c step (details_of cause) unsure billing details
    → code ≡ code_for cancelled unsure billing cause
    → IsReported c step cause cancelled unsure billing (sdk_error (string code) message details)
Holds-IsReported c step cause cancelled unsure billing code message details h same_code = record {
  outcome = rw classified refl;
  lease = rw classified (lease_in_details details c.lease_uuid message h.lease);
  failed_step = rw classified h.failed_step;
  readiness = rw classified h.readiness;
  billing_only = rw classified h.billing_only;
  code = same_code;
}
  where
    classified :
        classify_deploy_error (envelope (sdk_error (string code) message details)) none
        ≡ partial_with (object details) message
    classified = classify_partial code message details h.partial

module _ (parse_json : Text → Option Datum) (cancelled : Bool) (c : Created)
    (step : Option DeployFailedStep) (cause : Thrown) where
  abbrev pub unsure : Bool
  unsure = readiness_unconfirmed step (deploy_failure cause)

  abbrev pub billed : Bool
  billed = not unsure && is_step_upload step && is_billing_only_payload_refusal parse_json cause

  live_error-IsReported :
      IsReported c step cause cancelled unsure billed (live_error parse_json cancelled c step cause)
  unfolding deploy_failure
  live_error-IsReported = elim (Bool-cases unsure) [
    | inl t ↦ rw t (
        Holds-IsReported c step cause cancelled true false
          (if cancelled then codes "OPERATION_CANCELLED" else codes "DEPLOY_READINESS_UNCONFIRMED")
          (unconfirmed_message cancelled c.lease_uuid (deploy_failure cause).message)
          (with_lease c (unsure_members c step (details_of cause) polled quiet))
          (unsure-Holds c step (details_of cause) polled quiet) (unsure_code cancelled))
    | inr f ↦
        elim (Bool-cases
          (is_step_upload step && is_billing_only_payload_refusal parse_json cause)) [
            | inl paid ↦
                rw (f, paid)
                  (Holds-IsReported c step cause cancelled false true (code_of cause)
                    (billing_message c.lease_uuid)
                    (with_lease c (
                      assign (codes "next_step") (string (next_step c.lease_uuid)) (
                        assign (codes "billing_only") (truth true)
                          (base c step (details_of cause)))))
                    (billing-Holds c step (details_of cause)) (billing_code cancelled))
            | inr free ↦
                rw (f, free)
                  (Holds-IsReported c step cause cancelled false false
                    (if cancelled then codes "OPERATION_CANCELLED" else code_of cause)
                    (partial_message c.lease_uuid (deploy_failure cause).message)
                    (with_lease c (base c step (details_of cause)))
                    (partial-Holds c step (details_of cause)) (partial_code cancelled))
          ]
  ]
    where
      polled : Members → Members
      polled ms = spread ms (poll_details_of (unconfirmed_of cause))

      quiet :
          (j : Text) (ms : Members)
          → same_text (codes "poll_reason") j ≡ false
          → same_text (codes "last_state") j ≡ false
          → same_text (codes "last_provision_status") j ≡ false
          → member_of j (polled ms) ≡ member_of j ms
      quiet j ms = untouched_poll j ms (unconfirmed_of cause)

      unsure_code :
          (b : Bool)
          → (if b then codes "OPERATION_CANCELLED" else codes "DEPLOY_READINESS_UNCONFIRMED")
            ≡ code_for b true false cause
      unsure_code true = refl
      unsure_code false = refl

      billing_code : (b : Bool) → code_of cause ≡ code_for b false true cause
      billing_code true = refl
      billing_code false = refl

      partial_code :
          (b : Bool)
          → (if b then codes "OPERATION_CANCELLED" else code_of cause)
            ≡ code_for b false false cause
      partial_code true = refl
      partial_code false = refl

  wrap_live :
      terminal_of cause ≡ none
      → wrap_failure parse_json cancelled c step cause
        ≡ live_error parse_json cancelled c step cause
  unfolding deploy_failure wrap_failure with_lease is_billing_only_payload_refusal
  wrap_live h = rw (wrap_failure, h) refl

  -- An error that is none of a terminal lease is reported with all of it.
  pub wrap_failure-IsReported :
      terminal_of cause ≡ none
      → IsReported c step cause cancelled unsure billed
          (wrap_failure parse_json cancelled c step cause)
  wrap_failure-IsReported h = rw (wrap_live h) live_error-IsReported

  -- An error of a lease that the chain has cleared is thrown on, with the lease and its provider.
  pub wrap_terminal :
      (t : TerminalChainLeaseState × (Text × ChainContext))
      → terminal_of cause ≡ some t
      → wrap_failure parse_json cancelled c step cause ≡ with_context t c
  unfolding deploy_failure wrap_failure with_lease is_billing_only_payload_refusal
  wrap_terminal t h = rw (wrap_failure, h) refl
