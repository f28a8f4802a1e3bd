-- ===== src/DeployManifest/Steps.antt =====
-- packages/fred/src/tools/deployManifest.ts: how far the steps after the lease have come by how they
-- ended.
use manifest_mcp_mono.Common.{
  ◌≡◌, ◌≢◌, refl, sym, Bool, true, false, List, [], ◌∷◌, ◌++◌, Option, none, some, Text,
  Option-cases, inl, inr, Result, ok, err,
}
use manifest_mcp_mono.LeaseWait.{FredLeaseStatus}
use manifest_mcp_mono.DeployOutcome.{DeployFailedStep, set_domain, upload, poll}
use manifest_mcp_mono.DeployManifest.{Thrown}
use manifest_mcp_mono.DeployManifest.Preflight.{DeploySpec, Plan}
use manifest_mcp_mono.DeployManifest.Failure.{Created}
use manifest_mcp_mono.DeployManifest.Deploy.{
  Effect, lease_created, set_item_custom_domain, upload_lease_data, poll_lease_until_ready, Run,
  continue_with, LeaseAnswers, stopped, throw_if_aborted, created_of, set_domain_step, deploy_steps,
  thrown_by_poll,
}

-- How the steps end, as their catch sees it.
abbrev pub StepsEnd : Type 0
StepsEnd = Result (Option DeployFailedStep × Thrown) FredLeaseStatus

-- An end that no failure of the step explains.
abbrev pub Passes : Option DeployFailedStep → StepsEnd → Type 0
Passes step end = (x : Thrown) → end ≢ err (step, x)

-- A step that the end goes past went well.
passed :
    {A : Type 0} (step : Option DeployFailedStep) (end : StepsEnd)
    → Passes step end
    → (before : List Effect) (r : Result Thrown A)
      (f : A → Run (Option DeployFailedStep × Thrown) FredLeaseStatus)
    → (continue_with before (stopped step r) f).outcome ≡ end
    → (y : A) × (r ≡ ok y) × ((f y).outcome ≡ end)
passed step end past before (ok y) f h = (y, refl, h)
passed step end past before (err x) f h = absurd (past x (sym h))

quiet_signal :
    (fired : Bool) (reason : Thrown) → throw_if_aborted fired reason ≡ ok tt → fired ≡ false
quiet_signal true reason h = cc h
quiet_signal false reason h = refl

module _ (a : LeaseAnswers) (spec : DeploySpec) (plan : Plan) (lease : Text) where
  -- The transaction for the domain, where one is asked for.
  abbrev pub domain_effects : Option Text → List Effect
  domain_effects none = []
  domain_effects (some domain) = set_item_custom_domain lease domain spec.service_name ∷ []

  -- Every step before the end of the poll went well.
  pub record CamePast (end : StepsEnd) : Type 0 where
    pub notified : a.notified ≡ ok tt
    pub on_time : a.aborted_after_notice ≡ false
    pub domain_set : (domain : Text) → plan.custom_domain ≡ some domain → a.domain_set ≡ ok tt
    pub uploaded : a.uploaded ≡ ok tt
    pub effects :
        (deploy_steps a spec plan lease).effects
        ≡ lease_created (created_of plan lease)
          ∷ (domain_effects plan.custom_domain
              ++ (upload_lease_data (created_of plan lease) plan.manifest_bytes
                  ∷ poll_lease_until_ready (created_of plan lease)
                  ∷ []))
    pub polled : stopped (some poll) (thrown_by_poll a.worded a.rethrown lease a.polled) ≡ end

  record DomainDone (end : StepsEnd)
      (f : Unit {0} → Run (Option DeployFailedStep × Thrown) FredLeaseStatus) : Type 0 where
    outcome : (set_domain_step a spec plan lease).outcome ≡ ok tt
    effects : (set_domain_step a spec plan lease).effects ≡ domain_effects plan.custom_domain
    answer : (domain : Text) → plan.custom_domain ≡ some domain → a.domain_set ≡ ok tt
    later : (f tt).outcome ≡ end

  domain_step-DomainDone :
      (end : StepsEnd) (f : Unit {0} → Run (Option DeployFailedStep × Thrown) FredLeaseStatus)
      → Passes (some set_domain) end
      → (continue_with
          (set_domain_step a spec plan lease).effects
          (set_domain_step a spec plan lease).outcome
          f).outcome
        ≡ end
      → DomainDone end f
  unfolding set_domain_step
  domain_step-DomainDone end f past h = elim (Option-cases plan.custom_domain) [
    | inl unset ↦ record {
      outcome = rw unset refl;
      effects = rw unset refl;
      answer = λ domain set. cc (unset, set);
      later = rw unset at h;
    }
    | inr (d, set) ↦
        let (_, done, more) =
          passed (some set_domain) end past (set_item_custom_domain lease d spec.service_name ∷ [])
            a.domain_set f (rw set at h) in
        record {
          outcome = rw (set, done) refl;
          effects = rw set refl;
          answer = λ domain k. done;
          later = more;
        }
  ]

  pub steps-CamePast :
      (end : StepsEnd)
      → Passes none end
      → Passes (some set_domain) end
      → Passes (some upload) end
      → (deploy_steps a spec plan lease).outcome ≡ end
      → CamePast end
  unfolding deploy_steps
  steps-CamePast end p0 p1 p2 h =
      let (_, n, h1) = passed none end p0 (lease_created c ∷ []) a.notified _ h in
      let (_, t, h2) =
        passed none end p0 [] (throw_if_aborted a.aborted_after_notice a.abort_reason) _ h1 in
      let d = domain_step-DomainDone end _ p1 h2 in
      let (token, k, h3) = passed (some upload) end p2 [] a.lease_data_token _ d.later in
      let (_, u, h4) =
        passed (some upload) end p2 (upload_lease_data c plan.manifest_bytes ∷ []) a.uploaded _
          h3 in
      record {
        notified = n;
        on_time = quiet_signal a.aborted_after_notice a.abort_reason t;
        domain_set = d.answer;
        uploaded = u;
        effects = rw (n, t, d.outcome, d.effects, k, u) refl;
        polled = h4;
      }
    where
      c : Created
      c = created_of plan lease
