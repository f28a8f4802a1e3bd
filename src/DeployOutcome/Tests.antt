-- ===== src/DeployOutcome/Tests.antt =====
-- Outcomes of concrete deployments, and the theorems at them.
use manifest_mcp_mono.Common.{
  ℕ, ◌≡◌, refl, true, false, ◌&&◌, ◌+◌, List, [], ◌∷◌, ◌++◌, Option, none, some, Text, codes,
  same_text, leb, Result, ok, err, Datum, number, string, array, object, element, no_elements,
  member, no_members, Members, if◌then◌else◌, String,
}
use manifest_mcp_mono.Retry.Message.{starts_with, includes}
use manifest_mcp_mono.Redaction.{is_sensitive_key, strip_denylist}
use manifest_mcp_mono.Redaction.Secrecy.{objects, secret, none_kept}
use manifest_mcp_mono.DeployOutcome.{
  classify_deploy_error, classify_envelope, is_partial, named_lease, find_uuid, match_at, is_hex,
}
use manifest_mcp_mono.DeployOutcome.Envelope.{IsEnvelope}
use manifest_mcp_mono.DeployOutcome.Lease.{Verdict, classify_deploy_error-Verdict}
use manifest_mcp_mono.DeployOutcome.Response.{
  deploy_active, needs_wait, classify_deploy_response, outcome_of, extract_running_endpoints,
  has_running_instances, summary_of,
}
use manifest_mcp_mono.DeployOutcome.Judgement.{IsJudged, classify_deploy_response-IsJudged}
use manifest_mcp_mono.DeployOutcome.Recovery.{
  lease_terminal, VerificationBranch, VerificationSpec, VerifyAndRecoverResult, ask_host, recover,
  judge_answer, verify_and_recover, validate_verifier_result,
}
use manifest_mcp_mono.DeployOutcome.Secrets.{answer_of, recovery_hides_secrets}

abbrev one : String → Datum → Members → Members
one key value rest = member (codes key) value rest

abbrev some_uuid : Text
some_uuid = codes "0a1B2c3d-0001-4abc-8def-0123456789ab"

-- An error of an older build: no flag, the id in its message only.
abbrev older_error : Datum
older_error = object (
    one "error"
      (object (
        one "message"
          (string (codes "Deploy partially succeeded: lease " ++ some_uuid ++ codes " was created"))
          no_members))
      no_members)

older_error_run : (classify_deploy_error older_error none).lease_uuid ≡ some some_uuid
unfolding classify_deploy_error classify_envelope is_partial named_lease find_uuid match_at is_hex
    starts_with same_text
older_error_run = refl

-- The id in the message of another error is not reported.
plain_error_run :
    (classify_deploy_error
      (object (one "message" (string (codes "no lease " ++ some_uuid)) no_members))
      none).lease_uuid
    ≡ none
unfolding classify_deploy_error classify_envelope is_partial named_lease find_uuid match_at is_hex
    starts_with same_text
plain_error_run = refl

classify_deploy_error-Verdict_example :
    (e : Datum) × IsEnvelope older_error e × Verdict e (classify_deploy_error older_error none)
classify_deploy_error-Verdict_example = classify_deploy_error-Verdict older_error none

abbrev no_number : Text → Option ℕ
no_number t = none

-- An instance without a name of its own, in a service: an internal deployment.
abbrev internal : ℕ → Datum
internal state = object (
    one "lease_uuid" (string some_uuid) (
      one "state" (number state) (
        one "connection"
          (object (
            one "services"
              (object (
                one "web"
                  (object (
                    one "instances"
                      (array (
                        element (object (one "status" (string (codes "running")) no_members))
                          no_elements))
                      no_members))
                  no_members))
              no_members))
          no_members)))

internal_run : (classify_deploy_response no_number (internal 2)).outcome ≡ deploy_active
unfolding classify_deploy_response outcome_of extract_running_endpoints has_running_instances
    same_text
internal_run = refl

pending_run : (classify_deploy_response no_number (internal 1)).outcome ≡ needs_wait
unfolding classify_deploy_response outcome_of extract_running_endpoints has_running_instances
    same_text
pending_run = refl

closed_run :
    (classify_deploy_response no_number (internal 3)).error_summary
    ≡ some (codes "Lease " ++ some_uuid ++ codes " reached terminal state LEASE_STATE_CLOSED")
unfolding classify_deploy_response outcome_of extract_running_endpoints has_running_instances
    summary_of same_text
closed_run = refl

classify_deploy_response-IsJudged_example :
    IsJudged no_number (internal 2) (classify_deploy_response no_number (internal 2))
classify_deploy_response-IsJudged_example = classify_deploy_response-IsJudged no_number (internal 2)

abbrev to_lower_case : Text → Text
to_lower_case [] = []
to_lower_case (c ∷ s) = (if leb 65 c && leb c 90 then c + 32 else c) ∷ to_lower_case s

-- An envelope, an option and a choice are numbers here.
abbrev branch : VerificationBranch ℕ ℕ
branch = record {
  branch_id = lease_terminal;
  journal_action_tags = [];
  build_failure_envelope = λ d. 7;
  build_recovery_options = λ d. 1 ∷ 2 ∷ [];
}

abbrev spec : VerificationSpec ℕ ℕ
spec = record {
  is_spec_object = true;
  has_verifier = true;
  has_success_values = true;
  has_branches = true;
  success_values = codes "active" ∷ [];
  branch_of = λ o. none;
  other_branch = some branch;
}

abbrev host : ℕ → List ℕ → Result ℕ ℕ
host failure [] = err 0
host failure (o ∷ options) = ok o

abbrev unrecognized : Text → ℕ
unrecognized t = 99

abbrev leaky : String → Datum
leaky token = object (one "authToken" (string (codes token)) no_members)

abbrev recovered : VerifyAndRecoverResult ℕ ℕ
recovered = record {
  succeeded = false;
  verifier_outcome = codes "closed";
  branch_id = some lease_terminal;
  journal_action_tags = [];
  diagnostic = object no_members;
  failure = some 7;
  recovery_choice = some 1;
}

recovered_run :
    verify_and_recover unrecognized to_lower_case spec
      (some host)
      (ok (answer_of (codes "closed") (leaky "t0p")))
    ≡ ok recovered
unfolding verify_and_recover judge_answer recover ask_host validate_verifier_result strip_denylist
    is_sensitive_key includes same_text
recovered_run = refl

recovery_hides_secrets_example :
    verify_and_recover unrecognized to_lower_case spec
      (some host)
      (ok (answer_of (codes "closed") (leaky "t0p")))
    ≡ verify_and_recover unrecognized to_lower_case spec
        (some host)
        (ok (answer_of (codes "closed") (leaky "x")))
unfolding is_sensitive_key includes same_text
recovery_hides_secrets_example =
    recovery_hides_secrets unrecognized to_lower_case spec (some host) (codes "closed")
      (leaky "t0p") (leaky "x") (objects (secret refl none_kept))
