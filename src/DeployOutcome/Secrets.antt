-- ===== src/DeployOutcome/Secrets.antt =====
-- What a recovery can show of a secret, and when it asks the host.
use mathlib.Core.Option.{some-injective}
use mathlib.Core.Path.{Path, subst}
use manifest_mcp_mono.Common.{
  ℕ, ◌≡◌, ◌≢◌, inl, inr, refl, ap, sym, ◌∙◌, false, List, [], ◌∷◌, Option, none, some, Text, codes,
  same_text, any, Result, ok, err, ◌>>=◌, >>=-ok, ok-injective, Bool-cases, Datum, string, object,
  member, no_members, if◌then◌else◌,
}
use manifest_mcp_mono.DeployOutcome.{is_plain_object}
use manifest_mcp_mono.DeployOutcome.Recovery.{
  verifier_threw, no_diagnostic, RecoverError, VerificationBranch, VerificationSpec,
  VerifyAndRecoverResult, validate_spec, validate_verifier_result, select_branch, ask_host, recover,
  judge_answer, verify_and_recover,
}
use manifest_mcp_mono.Redaction.{strip_denylist}
use manifest_mcp_mono.Redaction.Secrecy.{
  SameButSecrets, same, arrays, objects, strip-same, IsClean, strip-IsClean,
}

-- What a verifier returns.
abbrev pub answer_of : Text → Datum → Datum
answer_of outcome diagnostic =
    object (
      member (codes "outcome") (string outcome) (member (codes "diagnostic") diagnostic no_members))

SameButSecrets-shape :
    {to_lower_case : Text → Text} {v w : Datum}
    → SameButSecrets to_lower_case v w
    → is_plain_object v ≡ is_plain_object w
SameButSecrets-shape same = refl
SameButSecrets-shape (arrays all) = refl
SameButSecrets-shape (objects all) = refl

module _ {ℓ κ ℓ'} {Envelope : Type ℓ} {Choices : Type κ} {Choice : Type ℓ'}
    (unrecognized : Text → Envelope) (to_lower_case : Text → Text)
    (spec : VerificationSpec Envelope Choices)
    (on_failure : Option (Envelope → List Choices → Result ℕ Choice)) where
  judge_answer_lem :
      (outcome : Text) (d : Datum)
      → judge_answer unrecognized to_lower_case spec on_failure (answer_of outcome d) ≡ (
          if is_plain_object d
          then ok (recover unrecognized spec on_failure outcome (strip_denylist to_lower_case d))
          else err no_diagnostic)
  unfolding judge_answer validate_verifier_result same_text
  judge_answer_lem outcome d = elim (Bool-cases (is_plain_object d)) [
    | inl shape ↦ rw shape refl
    | inr no_object ↦ rw no_object refl
  ]

  -- Two diagnostics that differ only under sensitive keys, at any depth, have the same recovery: the
  -- same envelope, options and question to the host, and the same result.
  pub recovery_hides_secrets :
      (outcome : Text) (d e : Datum)
      → SameButSecrets to_lower_case d e
      → verify_and_recover unrecognized to_lower_case spec on_failure (ok (answer_of outcome d))
        ≡ verify_and_recover unrecognized to_lower_case spec on_failure (ok (answer_of outcome e))
  unfolding verify_and_recover
  recovery_hides_secrets outcome d e alike =
      ap (λ r. validate_spec unrecognized spec >>= (λ checked. r)) same_judgement
    where
      same_judgement :
          judge_answer unrecognized to_lower_case spec on_failure (answer_of outcome d)
          ≡ judge_answer unrecognized to_lower_case spec on_failure (answer_of outcome e)
      same_judgement =
          judge_answer_lem outcome d
          ∙ (rw (SameButSecrets-shape alike, strip-same to_lower_case alike) refl
              ∙ sym (judge_answer_lem outcome e))

  -- A host that chose was asked: there is a callback, the outcome is no success, and the branch gave
  -- options.
  ask_host-asked :
      (host : Option (Envelope → List Choices → Result ℕ Choice)) (f : Envelope)
      (options : List Choices) (choice : Choice)
      → ask_host unrecognized host f options ≡ some choice
      → (g : Envelope → List Choices → Result ℕ Choice) × (host ≡ some g)
        × (options ≢ [])
        × (g f options ≡ ok choice)
  unfolding ask_host
  ask_host-asked none f options choice h = cc h
  ask_host-asked (some g) f [] choice h = cc h
  ask_host-asked (some g) f (o ∷ options) choice h =
      (g, refl, λ e. cc e, by_answer (g f (o ∷ options)) refl)
    where
      answered : Result ℕ Choice → Option Choice
      answered r = elim r [ ok c ↦ some c | err error ↦ none ]

      by_answer : (r : Result ℕ Choice) → g f (o ∷ options) ≡ r → r ≡ ok choice
      by_answer (ok c) e = ap ok (some-injective c choice (sym (ap answered e) ∙ h))
      by_answer (err error) e = cc (sym (ap answered e) ∙ h)

  -- What a choice in a recovery's result stands for.
  pub record IsAnswered (r : VerifyAndRecoverResult Envelope Choice) (choice : Choice)
      : Type (ℓ ⊔ κ ⊔ ℓ') where
    pub host : Envelope → List Choices → Result ℕ Choice
    pub envelope : Envelope
    pub options : List Choices
    pub is_host : on_failure ≡ some host
    pub unsuccessful : any (λ v. same_text v r.verifier_outcome) spec.success_values ≡ false
    pub reported : r.failure ≡ some envelope
    pub of_branch :
        options
        ≡ (select_branch unrecognized spec r.verifier_outcome).build_recovery_options r.diagnostic
    pub envelope_of_branch :
        envelope
        ≡ (select_branch unrecognized spec r.verifier_outcome).build_failure_envelope r.diagnostic
    pub offered : options ≢ []
    pub answer : host envelope options ≡ ok choice
    pub clean : IsClean to_lower_case r.diagnostic

  recover-IsAnswered :
      (outcome : Text) (d : Datum) (choice : Choice)
      → (recover unrecognized spec on_failure outcome
          (strip_denylist to_lower_case d)).recovery_choice
        ≡ some choice
      → IsAnswered
          (recover unrecognized spec on_failure outcome (strip_denylist to_lower_case d))
          choice
  unfolding recover
  recover-IsAnswered outcome d choice h =
      elim (Bool-cases (any (λ v. same_text v outcome) spec.success_values)) [
        | inl succeeds ↦ cc (rw (recover, succeeds) at h)
        | inr fails ↦ answered fails
      ]
    where
      shown : Datum
      shown = strip_denylist to_lower_case d

      branch : VerificationBranch Envelope Choices
      branch = select_branch unrecognized spec outcome

      answered :
          any (λ v. same_text v outcome) spec.success_values ≡ false
          → IsAnswered (recover unrecognized spec on_failure outcome shown) choice
      answered fails =
          let (host, is_host, offered, answer) =
            ask_host-asked on_failure (branch.build_failure_envelope shown)
              (branch.build_recovery_options shown) choice (rw (recover, fails) at h) in
          rw (recover, fails)
            (record {
              host = host;
              envelope = branch.build_failure_envelope shown;
              options = branch.build_recovery_options shown;
              is_host = is_host;
              unsuccessful = fails;
              reported = refl;
              of_branch = refl;
              envelope_of_branch = refl;
              offered = offered;
              answer = answer;
              clean = strip-IsClean to_lower_case d;
            })

  judge_answer-IsAnswered :
      (v : Datum) (r : VerifyAndRecoverResult Envelope Choice) (choice : Choice)
      → judge_answer unrecognized to_lower_case spec on_failure v ≡ ok r
      → r.recovery_choice ≡ some choice
      → IsAnswered r choice
  unfolding judge_answer
  judge_answer-IsAnswered v r choice h chosen =
      let (result, _, returned) =
        >>=-ok (validate_verifier_result v)
          (λ x. ok (recover unrecognized spec on_failure x.0 (strip_denylist to_lower_case x.1))) r
          h in
      of_result result.0 result.1 returned
    where
      of_result :
          (outcome : Text) (d : Datum)
          → Path
              (Result RecoverError (VerifyAndRecoverResult Envelope Choice))
              (ok (recover unrecognized spec on_failure outcome (strip_denylist to_lower_case d)))
              (ok r)
          → IsAnswered r choice
      of_result outcome d returned =
          let made =
            recover unrecognized spec on_failure outcome (strip_denylist to_lower_case d) in
          let same : made ≡ r = ok-injective made r (ok made) refl returned in
          subst (λ x. IsAnswered x choice) same
            (recover-IsAnswered outcome d choice (ap (λ x. x.recovery_choice) same ∙ chosen))

  -- A choice in the result of a recovery is the host's answer to a question that was asked: there is a
  -- callback, the outcome is no success, the branch offered options, and the envelope and the options
  -- were made from the stripped diagnostic, which the result carries too.
  pub choice_is_answer :
      (value : Result ℕ Datum) (r : VerifyAndRecoverResult Envelope Choice) (choice : Choice)
      → verify_and_recover unrecognized to_lower_case spec on_failure value ≡ ok r
      → r.recovery_choice ≡ some choice
      → IsAnswered r choice
  unfolding verify_and_recover
  choice_is_answer value r choice h chosen =
      let (_, _, checked) =
        >>=-ok (validate_spec unrecognized spec) (λ x. verified value >>= judged) r h in
      let (v, _, returned) = >>=-ok (verified value) judged r checked in
      judge_answer-IsAnswered v r choice returned chosen
    where
      verified : Result ℕ Datum → Result RecoverError Datum
      verified answer = elim answer [ ok v ↦ ok v | err error ↦ err (verifier_threw error) ]

      judged : Datum → Result RecoverError (VerifyAndRecoverResult Envelope Choice)
      judged = judge_answer unrecognized to_lower_case spec on_failure
