-- ===== src/DeployManifest/Details.antt =====
-- packages/fred/src/tools/deployManifest.ts: what the details of its three envelopes hold under the keys
-- that packages/agent-core/src/internals/classify-deploy-error.ts reads.
use manifest_mcp_mono.Common.{
  ◌≡◌, refl, ◌∙◌, ap, Bool, true, false, ◌||◌, Option, none, some, Text, codes, same_text, truth,
  string, Members, member_of,
}
use manifest_mcp_mono.DeployOutcome.{
  is_true, DeployFailedStep, set_domain, upload, poll, failed_step_of,
}
use manifest_mcp_mono.DeployManifest.{assign, assign_text}
use manifest_mcp_mono.DeployManifest.Failure.{
  Created, step_name, step_text, with_lease, partial_key, next_step,
}
use manifest_mcp_mono.DeployManifest.Envelope.{assigned, untouched, untouched_text}

failed_step_name : (s : DeployFailedStep) → failed_step_of (string (step_name s)) ≡ some s
unfolding same_text
failed_step_name set_domain = refl
failed_step_name upload = refl
failed_step_name poll = refl

-- The step that is reported: the one reached, or what the error's own details name.
abbrev pub reported_step : Option DeployFailedStep → Members → Option DeployFailedStep
reported_step (some s) details = some s
reported_step none details = failed_step_of (member_of (codes "failedStep") details)

-- The keys that `with_lease` leaves alone.
module _ (c : Created) (ms : Members) where
  lease_named : member_of (codes "lease_uuid") (with_lease c ms) ≡ string c.lease_uuid
  unfolding with_lease same_text
  lease_named =
      untouched (codes "lease_uuid") (codes "provider_url") (string c.provider_url)
        (assign (codes "provider_uuid") (string c.provider_uuid)
          (assign (codes "lease_uuid") (string c.lease_uuid) ms))
        refl
      ∙ untouched (codes "lease_uuid") (codes "provider_uuid") (string c.provider_uuid)
          (assign (codes "lease_uuid") (string c.lease_uuid) ms) refl
      ∙ assigned (codes "lease_uuid") (codes "lease_uuid") (string c.lease_uuid) ms refl

  untouched_lease :
      (j : Text)
      → same_text (codes "lease_uuid") j ≡ false
      → same_text (codes "provider_uuid") j ≡ false
      → same_text (codes "provider_url") j ≡ false
      → member_of j (with_lease c ms) ≡ member_of j ms
  unfolding with_lease same_text
  untouched_lease j h1 h2 h3 =
      untouched j (codes "provider_url") (string c.provider_url)
        (assign (codes "provider_uuid") (string c.provider_uuid)
          (assign (codes "lease_uuid") (string c.lease_uuid) ms))
        h3
      ∙ untouched j (codes "provider_uuid") (string c.provider_uuid)
          (assign (codes "lease_uuid") (string c.lease_uuid) ms) h2
      ∙ untouched j (codes "lease_uuid") (string c.lease_uuid) ms h1

step_assigned :
    (step : Option DeployFailedStep) (ms : Members)
    → failed_step_of
        (member_of (codes "failedStep") (assign_text (codes "failedStep") (step_text step) ms))
      ≡ reported_step step ms
unfolding same_text
step_assigned none ms = refl
step_assigned (some s) ms =
    rw (assigned (codes "failedStep") (codes "failedStep") (string (step_name s)) ms refl)
      (failed_step_name s)

-- What an envelope holds under the keys that the classification reads.
pub record Holds (c : Created) (step : Option DeployFailedStep) (given : Members)
    (unsure billing : Bool) (details : Members) : Type 0 where
  pub partial : member_of (codes "partial") details ≡ truth true
  pub lease : member_of (codes "lease_uuid") details ≡ string c.lease_uuid
  pub failed_step :
      failed_step_of (member_of (codes "failedStep") details) ≡ reported_step step given
  pub readiness :
      is_true (member_of (codes "readiness_unconfirmed") details)
      ≡ (unsure || is_true (member_of (codes "readiness_unconfirmed") given))
  pub billing_only :
      is_true (member_of (codes "billing_only") details)
      ≡ (billing || is_true (member_of (codes "billing_only") given))

-- `...given, partial: true, ...(step && { failedStep: step })`
module _ (c : Created) (step : Option DeployFailedStep) (given : Members) where
  abbrev pub base : Members
  base = assign_text (codes "failedStep") (step_text step) (partial_key given)

  base_untouched :
      (j : Text)
      → same_text (codes "failedStep") j ≡ false
      → same_text (codes "partial") j ≡ false
      → member_of j base ≡ member_of j given
  base_untouched j h1 h2 =
      untouched_text j (codes "failedStep") (step_text step) (partial_key given) h1
      ∙ untouched j (codes "partial") (truth true) given h2

  base_partial : member_of (codes "partial") base ≡ truth true
  unfolding same_text
  base_partial =
      untouched_text (codes "partial") (codes "failedStep") (step_text step) (partial_key given)
        refl
      ∙ assigned (codes "partial") (codes "partial") (truth true) given refl

  named_step : failed_step_of (member_of (codes "failedStep") base) ≡ reported_step step given
  unfolding same_text
  named_step = step_assigned step (partial_key given) ∙ same step
    where
      same :
          (s : Option DeployFailedStep)
          → reported_step s (partial_key given) ≡ reported_step s given
      same none =
          ap failed_step_of
            (untouched (codes "failedStep") (codes "partial") (truth true) given refl)
      same (some s) = refl

-- With the lease's three keys added last.
with_lease-Holds :
    (c : Created) (step : Option DeployFailedStep) (given : Members) (unsure billing : Bool)
    (ms : Members)
    → member_of (codes "partial") ms ≡ truth true
    → failed_step_of (member_of (codes "failedStep") ms) ≡ reported_step step given
    → is_true (member_of (codes "readiness_unconfirmed") ms)
      ≡ (unsure || is_true (member_of (codes "readiness_unconfirmed") given))
    → is_true (member_of (codes "billing_only") ms)
      ≡ (billing || is_true (member_of (codes "billing_only") given))
    → Holds c step given unsure billing (with_lease c ms)
unfolding same_text
with_lease-Holds c step given unsure billing ms h1 h2 h3 h4 = record {
  partial = untouched_lease c ms (codes "partial") refl refl refl ∙ h1;
  lease = lease_named c ms;
  failed_step = ap failed_step_of (untouched_lease c ms (codes "failedStep") refl refl refl) ∙ h2;
  readiness = ap is_true (untouched_lease c ms (codes "readiness_unconfirmed") refl refl refl) ∙ h3;
  billing_only = ap is_true (untouched_lease c ms (codes "billing_only") refl refl refl) ∙ h4;
}

module _ (c : Created) (step : Option DeployFailedStep) (given : Members) where
  pub partial-Holds : Holds c step given false false (with_lease c (base c step given))
  unfolding same_text
  partial-Holds =
      with_lease-Holds c step given false false (base c step given) (base_partial c step given)
        (named_step c step given)
        (ap is_true (base_untouched c step given (codes "readiness_unconfirmed") refl refl))
        (ap is_true (base_untouched c step given (codes "billing_only") refl refl))

  pub billing-Holds : Holds c step given false true (
      with_lease c (
        assign
          (codes "next_step")
          (string (next_step c.lease_uuid))
          (assign (codes "billing_only") (truth true) (base c step given))))
  unfolding same_text
  billing-Holds =
      with_lease-Holds c step given false true (noted billed)
        (kept (codes "partial") refl refl ∙ base_partial c step given)
        (ap failed_step_of (kept (codes "failedStep") refl refl) ∙ named_step c step given)
        (ap is_true (
          kept (codes "readiness_unconfirmed") refl refl
          ∙ base_untouched c step given (codes "readiness_unconfirmed") refl refl))
        (ap is_true (
          untouched (codes "billing_only") (codes "next_step") (string (next_step c.lease_uuid))
            billed refl
          ∙ assigned (codes "billing_only") (codes "billing_only") (truth true) (base c step given)
              refl))
    where
      billed : Members
      billed = assign (codes "billing_only") (truth true) (base c step given)

      noted : Members → Members
      noted = assign (codes "next_step") (string (next_step c.lease_uuid))

      kept :
          (j : Text)
          → same_text (codes "next_step") j ≡ false
          → same_text (codes "billing_only") j ≡ false
          → member_of j (noted billed) ≡ member_of j (base c step given)
      kept j h1 h2 =
          untouched j (codes "next_step") (string (next_step c.lease_uuid)) billed h1
          ∙ untouched j (codes "billing_only") (truth true) (base c step given) h2

  module _ (polled : Members → Members)
      (quiet : (j : Text) (ms : Members)
        → same_text (codes "poll_reason") j ≡ false
        → same_text (codes "last_state") j ≡ false
        → same_text (codes "last_provision_status") j ≡ false
        → member_of j (polled ms) ≡ member_of j ms) where
    abbrev pub unsure_members : Members
    unsure_members =
        assign_text (codes "failedStep") (step_text step)
          (polled (assign (codes "readiness_unconfirmed") (truth true) (partial_key given)))

    pub unsure-Holds : Holds c step given true false (with_lease c unsure_members)
    unfolding same_text
    unsure-Holds =
        with_lease-Holds c step given true false unsure_members
          (away (codes "partial") refl refl refl refl refl
            ∙ assigned (codes "partial") (codes "partial") (truth true) given refl)
          (step_assigned step (polled marked) ∙ same step)
          (ap is_true (
            untouched_text (codes "readiness_unconfirmed") (codes "failedStep") (step_text step)
              (polled marked) refl
            ∙ quiet (codes "readiness_unconfirmed") marked refl refl refl
            ∙ assigned (codes "readiness_unconfirmed") (codes "readiness_unconfirmed") (truth true)
                (partial_key given) refl))
          (ap is_true (
            away (codes "billing_only") refl refl refl refl refl
            ∙ untouched (codes "billing_only") (codes "partial") (truth true) given refl))
      where
        marked : Members
        marked = assign (codes "readiness_unconfirmed") (truth true) (partial_key given)

        away :
            (j : Text)
            → same_text (codes "failedStep") j ≡ false
            → same_text (codes "poll_reason") j ≡ false
            → same_text (codes "last_state") j ≡ false
            → same_text (codes "last_provision_status") j ≡ false
            → same_text (codes "readiness_unconfirmed") j ≡ false
            → member_of j unsure_members ≡ member_of j (partial_key given)
        away j h1 h2 h3 h4 h5 =
            untouched_text j (codes "failedStep") (step_text step) (polled marked) h1
            ∙ quiet j marked h2 h3 h4
            ∙ untouched j (codes "readiness_unconfirmed") (truth true) (partial_key given) h5

        same :
            (s : Option DeployFailedStep) → reported_step s (polled marked) ≡ reported_step s given
        same (some s) = refl
        same none = ap failed_step_of (
            quiet (codes "failedStep") marked refl refl refl
            ∙ untouched (codes "failedStep") (codes "readiness_unconfirmed") (truth true)
                (partial_key given) refl
            ∙ untouched (codes "failedStep") (codes "partial") (truth true) given refl)
