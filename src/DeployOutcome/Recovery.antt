-- ===== src/DeployOutcome/Recovery.antt =====
-- packages/agent-core/src/internals/verify-recover.ts: verifyAndRecover. The verifier and the host's
-- callback are arguments, given by their outcomes; an error is a number. The types of the envelope,
-- the options and the choice are parameters, since the code only passes them on.
use manifest_mcp_mono.Common.{
  ℕ, Bool, true, false, List, [], ◌∷◌, Option, none, some, Text, same_text, any, Result, ok, err,
  ◌>>=◌, ◌>>◌, Datum, field, if◌then◌else◌, String,
}
use manifest_mcp_mono.DeployOutcome.{is_plain_object, text_of}
use manifest_mcp_mono.Redaction.{strip_denylist}

pub data BranchId : Type 0 where
  partial_success_domain lease_terminal domain_verification_mismatch domain_not_found : BranchId
  pending_drift unclassified : BranchId

pub data RecoverError : Type 0 where
  spec_not_object no_verifier no_success_values no_branches : RecoverError
  result_not_object no_outcome no_diagnostic : RecoverError
  verifier_threw : (error : ℕ) → RecoverError

pub record VerificationBranch {ℓ κ} (Envelope : Type ℓ) (Choices : Type κ) : Type (ℓ ⊔ κ) where
  pub branch_id : BranchId
  pub journal_action_tags : List String
  pub build_failure_envelope : Datum → Envelope
  pub build_recovery_options : Datum → List Choices

-- The `has_…` fields are the checks of the spec's shape.
pub record VerificationSpec {ℓ κ} (Envelope : Type ℓ) (Choices : Type κ) : Type (ℓ ⊔ κ) where
  pub is_spec_object : Bool
  pub has_verifier : Bool
  pub has_success_values : Bool
  pub has_branches : Bool
  pub success_values : List Text
  pub branch_of : Text → Option (VerificationBranch Envelope Choices)
  pub other_branch : Option (VerificationBranch Envelope Choices)

-- `failure` is none on success, `recovery_choice` also where no host was asked or its callback threw.
pub record VerifyAndRecoverResult {ℓ κ} (Envelope : Type ℓ) (Choice : Type κ) : Type (ℓ ⊔ κ) where
  pub succeeded : Bool
  pub verifier_outcome : Text
  pub branch_id : Option BranchId
  pub journal_action_tags : List String
  pub diagnostic : Datum
  pub failure : Option Envelope
  pub recovery_choice : Option Choice

abbrev pub guard : Bool → RecoverError → Result RecoverError (Unit {0})
guard holds e = if holds then ok tt else err e

-- The outcome and the diagnostic of what the verifier returned.
unfoldable pub validate_verifier_result : Datum → Result RecoverError (Text × Datum)
validate_verifier_result value = do
  guard (is_plain_object value) result_not_object
  outcome ← elim (text_of (field "outcome" value)) [ none ↦ err no_outcome | some t ↦ ok t ]
  guard (is_plain_object (field "diagnostic" value)) no_diagnostic
  ok (outcome, field "diagnostic" value)

module _ {ℓ κ} {Envelope : Type ℓ} {Choices : Type κ} (unrecognized : Text → Envelope) where
  abbrev pub validate_spec : VerificationSpec Envelope Choices → Result RecoverError (Unit {0})
  validate_spec spec = do
    guard spec.is_spec_object spec_not_object
    guard spec.has_verifier no_verifier
    guard spec.has_success_values no_success_values
    guard spec.has_branches no_branches

  abbrev pub synthesize_unclassified : Text → VerificationBranch Envelope Choices
  synthesize_unclassified outcome = record {
    branch_id = unclassified;
    journal_action_tags = "verify-unclassified" ∷ [];
    build_failure_envelope = λ d. unrecognized outcome;
    build_recovery_options = λ d. [];
  }

  abbrev pub select_branch :
      VerificationSpec Envelope Choices → Text → VerificationBranch Envelope Choices
  select_branch spec outcome = elim (spec.branch_of outcome) [
    | some named ↦ named
    | none ↦ elim spec.other_branch [
      | some fallback ↦ fallback
      | none ↦ synthesize_unclassified outcome
    ]
  ]

  module _ {ℓ'} {Choice : Type ℓ'} where
    -- The choice of the host, where it is asked and answers.
    unfoldable pub ask_host :
        Option (Envelope → List Choices → Result ℕ Choice) → Envelope → List Choices → Option Choice
    ask_host none failure options = none
    ask_host (some on_failure) failure [] = none
    ask_host (some on_failure) failure (o ∷ options) = elim (on_failure failure (o ∷ options)) [
      | ok choice ↦ some choice
      | err error ↦ none
    ]

    -- What follows a result that is well formed, its diagnostic stripped.
    unfoldable pub recover :
        VerificationSpec Envelope Choices
        → Option (Envelope → List Choices → Result ℕ Choice)
        → Text
        → Datum
        → VerifyAndRecoverResult Envelope Choice
    recover spec on_failure outcome diagnostic =
        let branch = select_branch spec outcome in
        let failure = branch.build_failure_envelope diagnostic in
        if any (λ v. same_text v outcome) spec.success_values
        then record {
          succeeded = true;
          verifier_outcome = outcome;
          branch_id = none;
          journal_action_tags = [];
          diagnostic = diagnostic;
          failure = none;
          recovery_choice = none;
        }
        else record {
          succeeded = false;
          verifier_outcome = outcome;
          branch_id = some branch.branch_id;
          journal_action_tags = branch.journal_action_tags;
          diagnostic = diagnostic;
          failure = some failure;
          recovery_choice = ask_host on_failure failure (branch.build_recovery_options diagnostic);
        }

    -- What follows the verifier's answer.
    unfoldable pub judge_answer :
        (Text → Text)
        → VerificationSpec Envelope Choices
        → Option (Envelope → List Choices → Result ℕ Choice)
        → Datum
        → Result RecoverError (VerifyAndRecoverResult Envelope Choice)
    judge_answer to_lower_case spec on_failure value = do
      result ← validate_verifier_result value
      ok (recover spec on_failure result.0 (strip_denylist to_lower_case result.1))

    unfoldable pub verify_and_recover :
        (Text → Text)
        → VerificationSpec Envelope Choices
        → Option (Envelope → List Choices → Result ℕ Choice)
        → Result ℕ Datum
        → Result RecoverError (VerifyAndRecoverResult Envelope Choice)
    verify_and_recover to_lower_case spec on_failure answer = do
      validate_spec spec
      value ← elim answer [ ok v ↦ ok v | err error ↦ err (verifier_threw error) ]
      judge_answer to_lower_case spec on_failure value
