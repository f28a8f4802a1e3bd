-- ===== src/DeployManifest/Outcomes.antt =====
-- packages/fred/src/tools/deployManifest.ts: how a deployment ends once its lease exists, with the wait of
-- readiness/poll-lease-readiness.ts and the classifications of packages/agent-core/src/internals.
use mathlib.Core.Path.{subst, Path}
use manifest_mcp_mono.Common.{
  ◌≡◌, refl, sym, ◌∙◌, inl, inr, Bool, true, false, ◌||◌, not, Option, none, some, Text, codes,
  arith, Option-cases, Result, ok, err, ◌>>=◌, member_of, err-injective,
}
use manifest_mcp_mono.LeaseWait.{FredLeaseStatus}
use manifest_mcp_mono.LeaseWait.Poll
use manifest_mcp_mono.LeaseWait.Poll.{Outcome, TerminalChainLeaseState}
use manifest_mcp_mono.DeployOutcome.{is_true, DeployFailedStep, poll, classify_deploy_error}
use manifest_mcp_mono.DeployManifest.{Thrown, ChainContext, kind_of}
use manifest_mcp_mono.DeployManifest.Creation.{extract_lease_uuid}
use manifest_mcp_mono.DeployManifest.Preflight.{DeploySpec, Answers, Plan, preflight}
use manifest_mcp_mono.DeployManifest.Failure.{
  deploy_failure, terminal_of, with_context, wrap_failure, readiness_unconfirmed, is_verdict,
  details_of,
}
use manifest_mcp_mono.DeployManifest.Deploy.{
  continue_with, LeaseAnswers, stopped, created_of, deploy_steps, Runtime, connect, caught,
  after_lease, create_and_deploy, deploy_manifest, thrown_by_poll,
}
use manifest_mcp_mono.DeployManifest.Envelope.{envelope}
use manifest_mcp_mono.DeployManifest.Steps.{steps-CamePast}
use manifest_mcp_mono.DeployManifest.Report.{
  IsReported, wrap_failure-IsReported, unsure, billed, wrap_terminal,
}

module _ (e : Runtime) (w : Answers) (a : LeaseAnswers) (spec : DeploySpec) (plan : Plan)
    (lease : Text) where
  abbrev pub checks : Result Thrown Plan
  checks = preflight e.trim e.parse_fqdn e.hash_hex e.sku_refused e.provider_key w spec

  -- The lease of a deployment whose checks passed, and whose transaction created it.
  pub record Exists : Type 0 where
    pub checked : checks ≡ ok plan
    pub on_time : a.aborted_before_create ≡ false
    pub created : (a.transaction >>= extract_lease_uuid) ≡ ok lease

  pub ends_after_lease :
      Exists → (deploy_manifest e w a spec).outcome ≡ (after_lease e a spec plan lease).outcome
  unfolding deploy_manifest create_and_deploy
  ends_after_lease x = rw (x.checked, x.on_time, x.created) refl

  -- What an error of a deployment says of the lease: the chain has cleared it, or it is reported whole.
  pub data Told (step : Option DeployFailedStep) (cause x : Thrown) : Type 0 where
    cleared :
        {t : TerminalChainLeaseState × (Text × ChainContext)}
        → terminal_of cause ≡ some t
        → x ≡ with_context t (created_of plan lease)
        → Told step cause x
    reported :
        terminal_of cause ≡ none
        → IsReported
            (created_of plan lease)
            step
            cause
            a.aborted_at_failure
            (unsure e.parse_json a.aborted_at_failure (created_of plan lease) step cause)
            (billed e.parse_json a.aborted_at_failure (created_of plan lease) step cause)
            x
        → Told step cause x

  wrapped-Told :
      (step : Option DeployFailedStep) (cause : Thrown)
      → Told step cause
          (wrap_failure e.parse_json a.aborted_at_failure (created_of plan lease) step cause)
  wrapped-Told step cause = elim (Option-cases (terminal_of cause)) [
    | inl live ↦ reported live (
        wrap_failure-IsReported e.parse_json a.aborted_at_failure (created_of plan lease) step cause
          live)
    | inr (t, over) ↦
        cleared over (
          wrap_terminal e.parse_json a.aborted_at_failure (created_of plan lease) step cause t over)
  ]

  -- Once the lease exists (the checks passed, the signal had not fired, the transaction gave an id), an
  -- error of the deployment comes from one of its steps. Where the chain has cleared the lease, it is the
  -- chain's error with the lease and its provider. Else the host's classification reads it as a partial
  -- success of that lease, with the step that was reached, with the readiness left open or the lease
  -- marked as billing-only where the catch found so or the cause's own details say so, and with the code
  -- of a cancellation where the signal had fired by then and the lease is not billing-only.
  pub deploy_manifest-Told :
      (x : Thrown)
      → Exists
      → (deploy_manifest e w a spec).outcome ≡ err x
      → (step : Option DeployFailedStep) × (cause : Thrown) × ((deploy_steps a spec plan
            lease).outcome
          ≡ err (step, cause))
        × Told step cause x
  unfolding after_lease
  deploy_manifest-Told x made h =
      by_outcome (deploy_steps a spec plan lease).outcome refl (sym (ends_after_lease made) ∙ h)
    where
      by_outcome :
          (r : Result (Option DeployFailedStep × Thrown) FredLeaseStatus)
          → (deploy_steps a spec plan lease).outcome ≡ r
          → (continue_with
              (deploy_steps a spec plan lease).effects
              (caught e a plan lease r)
              (connect e a spec plan lease)).outcome
            ≡ err x
          → (step : Option DeployFailedStep) × (cause : Thrown) × ((deploy_steps a spec plan
                lease).outcome
              ≡ err (step, cause))
            × Told step cause x
      by_outcome (ok status) s k = cc k
      by_outcome (err (step, cause)) s k = (
        step,
        cause,
        s,
        subst (Told step cause) (err-injective _ x (err _) refl k) (wrapped-Told step cause),
      )

  fails_as :
      (x : Thrown) (step : Option DeployFailedStep) (cause : Thrown)
      → Exists
      → (deploy_manifest e w a spec).outcome ≡ err x
      → (deploy_steps a spec plan lease).outcome ≡ err (step, cause)
      → wrap_failure e.parse_json a.aborted_at_failure (created_of plan lease) step cause ≡ x
  unfolding after_lease
  fails_as x step cause made h stop =
      err-injective _ x (err _) refl (rw stop at (sym (ends_after_lease made) ∙ h))

  -- The two ends of the wait that are words of the provider itself, and one that no client can read.
  abbrev pub is_poll_verdict : Outcome → Bool
  is_poll_verdict (Poll.provisioning_failed ps) = true
  is_poll_verdict (Poll.terminal_state s) = true
  is_poll_verdict (Poll.unexpected_state s) = true
  is_poll_verdict _ = false

  poll_ends :
      (cause : Thrown)
      → (deploy_steps a spec plan lease).outcome ≡ err (some poll, cause)
      → thrown_by_poll a.worded a.rethrown lease a.polled ≡ err cause
  poll_ends cause h =
      of_stop (thrown_by_poll a.worded a.rethrown lease a.polled)
        (steps-CamePast a spec plan lease (err (some poll, cause)) (λ x k. cc k) (λ x k. cc k)
          (λ x k. cc k) h).polled
    where
      of_stop :
          (r : Result Thrown FredLeaseStatus)
          → stopped (some poll) r ≡ err (some poll, cause)
          → r ≡ err cause
      of_stop (ok s) k = cc k
      of_stop (err x) k = cc k

  -- Whether an error of the wait is reported as one that says nothing of the app.
  abbrev unread : Thrown → Bool
  unread x =
      readiness_unconfirmed (some poll) (deploy_failure x)
      || is_true (member_of (codes "readiness_unconfirmed") (details_of x))

  no_verdict-unread : (x : Thrown) → is_verdict (kind_of x) ≡ false → unread x ≡ true
  unfolding deploy_failure
  no_verdict-unread x h = ground (arith, h)

  same :
      {cause : Thrown} (x : Thrown) (b : Bool)
      → Path (Result Thrown FredLeaseStatus) (err x) (err cause)
      → unread x ≡ b
      → unread cause ≡ b
  same {cause = cause} x b h k = subst (λ y. unread y ≡ b) (err-injective x cause (err x) refl h) k

  foreign :
      (cause : Thrown)
      → ((o : Outcome) → is_verdict (kind_of (a.rethrown o)) ≡ false)
      → (o : Outcome) → Path (Result Thrown FredLeaseStatus) (err (a.rethrown o)) (err cause)
      → unread cause ≡ true
  foreign cause quiet o h = same (a.rethrown o) true h (no_verdict-unread (a.rethrown o) (quiet o))

  unread_at_poll :
      (cause : Thrown)
      → ((o : Outcome) → is_verdict (kind_of (a.rethrown o)) ≡ false)
      → (o : Outcome) → thrown_by_poll a.worded a.rethrown lease o ≡ err cause
      → unread cause ≡ not (is_poll_verdict o)
  unfolding thrown_by_poll deploy_failure
  unread_at_poll cause quiet (Poll.ready s) h = cc h
  unread_at_poll cause quiet (Poll.provisioning_failed ps) h = same _ false h refl
  unread_at_poll cause quiet (Poll.terminal_state s) h = same _ false h refl
  unread_at_poll cause quiet (Poll.unexpected_state s) h = same _ false h refl
  unread_at_poll cause quiet (Poll.unreachable u) h = same _ true h refl
  unread_at_poll cause quiet (Poll.deadline u) h = same _ true h refl
  unread_at_poll cause quiet (Poll.terminal_on_chain s) h = same _ true h refl
  unread_at_poll cause quiet (Poll.check_failed x) h = foreign cause quiet (Poll.check_failed x) h
  unread_at_poll cause quiet (Poll.mint_failed x) h = foreign cause quiet (Poll.mint_failed x) h
  unread_at_poll cause quiet (Poll.progress_failed x) h =
      foreign cause quiet (Poll.progress_failed x) h
  unread_at_poll cause quiet (Poll.refused x) h = foreign cause quiet (Poll.refused x) h
  unread_at_poll cause quiet Poll.aborted h = foreign cause quiet Poll.aborted h

  -- Once the lease exists, when the wait for the app stops with an error that is none of a lease cleared
  -- by the chain, and the wait passes on no error that is tagged as a verdict: the report leaves the
  -- readiness open exactly where the wait got no verdict, so not for a failed provision, nor for a
  -- terminal or unreadable state.
  pub silence_is_unconfirmed :
      (x cause : Thrown)
      → Exists
      → (deploy_manifest e w a spec).outcome ≡ err x
      → (deploy_steps a spec plan lease).outcome ≡ err (some poll, cause)
      → terminal_of cause ≡ none
      → ((o : Outcome) → is_verdict (kind_of (a.rethrown o)) ≡ false)
      → (classify_deploy_error (envelope x) none).readiness_unconfirmed
        ≡ not (is_poll_verdict a.polled)
  silence_is_unconfirmed x cause made h stop live quiet =
      let report =
        wrap_failure-IsReported e.parse_json a.aborted_at_failure (created_of plan lease)
          (some poll) cause live in
      subst
        (λ y.
          (classify_deploy_error (envelope y) none).readiness_unconfirmed
          ≡ not (is_poll_verdict a.polled))
        (fails_as x (some poll) cause made h stop)
        (report.readiness ∙ unread_at_poll cause quiet a.polled (poll_ends cause stop))
