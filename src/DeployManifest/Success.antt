-- ===== src/DeployManifest/Success.antt =====
-- packages/fred/src/tools/deployManifest.ts: what a deployment that ends well has done, with the wait of
-- readiness/poll-lease-readiness.ts and the reading of the answer in
-- packages/agent-core/src/internals/classify-deploy-response.ts.
use manifest_mcp_mono.Common.{
  ℕ, ◌≡◌, ◌≢◌, refl, sym, ◌∙◌, ap, inl, inr, true, [], ◌∷◌, ◌++◌, Option, none, some, Text, codes,
  same_text, Datum, string, object, Members, no_members, member, ok, err, ◌>>=◌, ok-injective,
}
use manifest_mcp_mono.LeaseWait.{FredLeaseStatus, active}
use manifest_mcp_mono.LeaseWait.Poll
use manifest_mcp_mono.LeaseWait.Poll.{Outcome, PollOptions, Round, answered, poll_lease_readiness}
use manifest_mcp_mono.LeaseWait.Verdicts.{IsReady, ready_is_confirmed}
use manifest_mcp_mono.DeployOutcome.{poll}
use manifest_mcp_mono.DeployOutcome.Response.{deploy_failed, has_lease, classify_deploy_response}
use manifest_mcp_mono.DeployOutcome.Verdict.{classify_deploy_response-IsDecided}
use manifest_mcp_mono.DeployManifest.Creation.{create_lease_args}
use manifest_mcp_mono.DeployManifest.Preflight.{DeploySpec, Answers, Plan}
use manifest_mcp_mono.DeployManifest.Deploy.{
  create_lease, lease_created, upload_lease_data, poll_lease_until_ready, continue_with,
  LeaseAnswers, stopped, created_of, deploy_steps, Runtime, tried, connect, caught, after_lease,
  create_and_deploy, deploy_manifest, thrown_by_poll, DeployResult, connected, state_number,
}
use manifest_mcp_mono.DeployManifest.Steps.{StepsEnd, domain_effects, CamePast, steps-CamePast}
use manifest_mcp_mono.DeployManifest.Extraction.{created_is_uuid, is_uuid-has_lease}
use manifest_mcp_mono.DeployManifest.Outcomes.{Exists, ends_after_lease}

-- The answer as a value, its optional fields after the rest.
abbrev optional : Text → Option Text → Members → Members
optional key none rest = rest
optional key (some t) rest = member key (string t) rest

abbrev optional_datum : Text → Option Datum → Members → Members
optional_datum key none rest = rest
optional_datum key (some d) rest = member key d rest

unfoldable pub response_of : DeployResult → Datum
response_of r = object (
    member (codes "lease_uuid") (string r.lease_uuid) (
      member (codes "provider_uuid") (string r.provider_uuid) (
        member (codes "provider_url") (string r.provider_url) (
          member (codes "state") (state_number r.state) (
            optional (codes "url") r.url (
              optional_datum (codes "connection") r.connection (
                optional (codes "connectionError") r.connection_error (
                  optional (codes "custom_domain") r.custom_domain
                    (optional (codes "service_name") r.service_name no_members)))))))))

-- An answer with a lease that is active is not read as a failure.
alive :
    (number_of : Text → Option ℕ) (r : DeployResult)
    → has_lease (some r.lease_uuid) ≡ true
    → r.state ≡ active
    → (classify_deploy_response number_of (response_of r)).outcome ≢ deploy_failed
unfolding response_of classify_deploy_response same_text
alive number_of r named up failed =
    elim ((classify_deploy_response-IsDecided number_of (response_of r)).lost.0 failed) [
      | inl unnamed ↦ cc (named, unnamed)
      | inr over ↦ cc (rw up at over)
    ]

module _ (e : Runtime) (w : Answers) (a : LeaseAnswers) (spec : DeploySpec) (plan : Plan)
    (lease : Text) where
  -- What a success rests on.
  pub record Succeeds (r : DeployResult) : Type 0 where
    pub status : FredLeaseStatus
    pub ready : a.polled ≡ Poll.ready status
    pub past : CamePast a spec plan lease (ok status)
    pub effects :
        (deploy_manifest e w a spec).effects
        ≡ create_lease (create_lease_args plan.meta_hash_hex plan.lease_items)
          ∷ (lease_created (created_of plan lease)
                ∷ (domain_effects a spec plan lease plan.custom_domain
                    ++ (upload_lease_data (created_of plan lease) plan.manifest_bytes
                        ∷ poll_lease_until_ready (created_of plan lease)
                        ∷ []))
              ++ tried e plan lease a.provider_token)
    pub result : connected e spec plan lease status (a.provider_token >>= λ token. a.connection) ≡ r

  steps_well :
      (r : DeployResult)
      → Exists e w a spec plan lease
      → (deploy_manifest e w a spec).outcome ≡ ok r
      → (status : FredLeaseStatus) × ((deploy_steps a spec plan lease).outcome ≡ ok status)
        × (connected e spec plan lease status (a.provider_token >>= λ token. a.connection) ≡ r)
  unfolding after_lease
  steps_well r made h =
      by_outcome (deploy_steps a spec plan lease).outcome refl
        (sym (ends_after_lease e w a spec plan lease made) ∙ h)
    where
      by_outcome :
          (end : StepsEnd)
          → (deploy_steps a spec plan lease).outcome ≡ end
          → (continue_with
              (deploy_steps a spec plan lease).effects
              (caught e a plan lease end)
              (connect e a spec plan lease)).outcome
            ≡ ok r
          → (status : FredLeaseStatus) × ((deploy_steps a spec plan lease).outcome ≡ ok status)
            × (connected e spec plan lease status (a.provider_token >>= λ token. a.connection) ≡ r)
      by_outcome (ok status) s k = (status, s, ok-injective _ r (ok _) refl k)
      by_outcome (err x) s k = cc k

  ready_of :
      (status : FredLeaseStatus) (o : Outcome)
      → stopped (some poll) (thrown_by_poll a.worded a.rethrown lease o) ≡ ok status
      → o ≡ Poll.ready status
  unfolding thrown_by_poll
  ready_of status (Poll.ready s) h = ap Poll.ready (ok-injective s status (ok s) refl h)
  ready_of status (Poll.provisioning_failed ps) h = cc h
  ready_of status (Poll.terminal_state s) h = cc h
  ready_of status (Poll.unexpected_state s) h = cc h
  ready_of status (Poll.unreachable u) h = cc h
  ready_of status (Poll.deadline u) h = cc h
  ready_of status (Poll.terminal_on_chain s) h = cc h
  ready_of status (Poll.check_failed x) h = cc h
  ready_of status (Poll.mint_failed x) h = cc h
  ready_of status (Poll.progress_failed x) h = cc h
  ready_of status (Poll.refused x) h = cc h
  ready_of status Poll.aborted h = cc h

  effects_of :
      (status : FredLeaseStatus)
      → Exists e w a spec plan lease
      → (deploy_steps a spec plan lease).outcome ≡ ok status
      → (deploy_manifest e w a spec).effects
        ≡ create_lease (create_lease_args plan.meta_hash_hex plan.lease_items)
          ∷ ((deploy_steps a spec plan lease).effects ++ tried e plan lease a.provider_token)
  unfolding deploy_manifest create_and_deploy after_lease
  effects_of status x h = rw (x.checked, x.on_time, x.created, h) refl

  -- Once the lease exists, a deployment that ends well asked its environment for the transaction, the
  -- notice to its caller, the domain where one was asked for, the upload, the wait, and the connection
  -- where it got a token, in that order and each once. The notice, the domain and the upload went
  -- well, the signal had not fired after the notice, and the wait ended with a ready status.
  pub success-Succeeds :
      (r : DeployResult)
      → Exists e w a spec plan lease
      → (deploy_manifest e w a spec).outcome ≡ ok r
      → Succeeds r
  success-Succeeds r made h =
      let (status, well, result) = steps_well r made h in
      let past =
        steps-CamePast a spec plan lease (ok status) (λ x k. cc k) (λ x k. cc k) (λ x k. cc k)
          well in
      record {
        status = status;
        ready = ready_of status a.polled past.polled;
        past = past;
        effects = rw past.effects at (effects_of status made well);
        result = result;
      }

  lease_filled : Exists e w a spec plan lease → has_lease (some lease) ≡ true
  lease_filled made = is_uuid-has_lease lease (created_is_uuid a.transaction lease made.created)

  -- Once the lease exists, a deployment that ends well, and whose wait is the poll of some run of answers, is
  -- one whose wait read a status of an active lease with the provision status `ready`; its answer gives
  -- that state and the lease, and is not classified as a failed deployment.
  pub success_is_live :
      (r : DeployResult) (c : PollOptions) (script : ℕ → Round) (fuel : ℕ)
      (number_of : Text → Option ℕ)
      → Exists e w a spec plan lease
      → (deploy_manifest e w a spec).outcome ≡ ok r
      → poll_lease_readiness c script fuel ≡ some a.polled
      → ((i : ℕ) × (status : FredLeaseStatus) × ((script i).read ≡ answered status)
          × IsReady status)
        × (r.lease_uuid ≡ lease)
        × (r.state ≡ active)
        × ((classify_deploy_response number_of (response_of r)).outcome ≢ deploy_failed)
  unfolding connected
  success_is_live r c script fuel number_of made h waited =
      let s = success-Succeeds r made h in
      let (i, _, _, _, _, read, is_ready, _) =
        ready_is_confirmed c script fuel s.status (waited ∙ ap some s.ready) in
      let named = ap (λ x. x.lease_uuid) (sym s.result) in
      let up = ap (λ x. x.state) (sym s.result) ∙ is_ready.0 in
      (
        (i, s.status, read, is_ready),
        named,
        up,
        alive number_of r (rw named (lease_filled made)) up,
      )
