-- ===== src/DeployManifest/Guards.antt =====
-- packages/fred/src/tools/deployManifest.ts: what stands before the one transaction that is paid for.
use manifest_mcp_mono.Common.{
  ◌≡◌, refl, ◌⊎◌, inl, inr, Bool, true, false, List, [], ◌∷◌, ◌++◌, any, none, some, Text, arith,
  Bool-cases, Result, ok, err, ◌>>=◌, Option-cases,
}
use manifest_mcp_mono.DeployOutcome.{upload}
use manifest_mcp_mono.DeployManifest.{Thrown}
use manifest_mcp_mono.DeployManifest.Creation.{extract_lease_uuid, create_lease_args}
use manifest_mcp_mono.DeployManifest.Preflight.{DeploySpec, Answers, Plan, preflight}
use manifest_mcp_mono.DeployManifest.Deploy.{
  Effect, create_lease, lease_created, upload_lease_data, Run, continue_with, LeaseAnswers, stopped,
  throw_if_aborted, created_of, set_domain_step, deploy_steps, Runtime, tried, connect, caught,
  after_lease, create_and_deploy, deploy_manifest, thrown_by_poll,
}
use manifest_mcp_mono.DeployManifest.Failure.{Created}
use manifest_mcp_mono.DeployManifest.Vetting.{IsVetted, preflight-IsVetted}

abbrev pub is_create_lease : Effect → Bool
is_create_lease (create_lease args) = true
is_create_lease _ = false

any-append :
    (xs ys : List Effect)
    → any is_create_lease xs ≡ false
    → any is_create_lease ys ≡ false
    → any is_create_lease (xs ++ ys) ≡ false
any-append [] ys h k = k
any-append (x ∷ xs) ys h k = ground (arith, any-append xs ys)

-- A chain of calls that do not create a lease creates none.
quiet_chain {ℓ κ ℓ'} :
    {E : Type ℓ} {A : Type κ} {B : Type ℓ'} (before : List Effect) (r : Result E A)
    (f : A → Run E B)
    → any is_create_lease before ≡ false
    → ((x : A) → any is_create_lease (f x).effects ≡ false)
    → any is_create_lease (continue_with before r f).effects ≡ false
quiet_chain before (ok x) f h k = any-append before (f x).effects h (k x)
quiet_chain before (err e) f h k = h

module _ (e : Runtime) (a : LeaseAnswers) (spec : DeploySpec) (plan : Plan) (lease : Text) where
  quiet_domain : any is_create_lease (set_domain_step a spec plan lease).effects ≡ false
  unfolding set_domain_step
  quiet_domain = elim (Option-cases plan.custom_domain) [
    | inl unset ↦ rw unset refl
    | inr (domain, set) ↦ rw set refl
  ]

  quiet_steps : any is_create_lease (deploy_steps a spec plan lease).effects ≡ false
  unfolding deploy_steps thrown_by_poll
  quiet_steps = quiet_chain (lease_created c ∷ []) (stopped none a.notified) _ refl λ x.
      quiet_chain [] (stopped none (throw_if_aborted a.aborted_after_notice a.abort_reason)) _ refl
        λ x.
          quiet_chain (set_domain_step a spec plan lease).effects
            (set_domain_step a spec plan lease).outcome _ quiet_domain
            λ x. quiet_chain [] (stopped (some upload) a.lease_data_token) _ refl λ token.
              quiet_chain (upload_lease_data c plan.manifest_bytes ∷ [])
                (stopped (some upload) a.uploaded) _ refl λ x. refl
    where
      c : Created
      c = created_of plan lease

  quiet_after : any is_create_lease (after_lease e a spec plan lease).effects ≡ false
  unfolding after_lease
  quiet_after =
      quiet_chain _ (caught e a plan lease (deploy_steps a spec plan lease).outcome)
        (connect e a spec plan lease) quiet_steps (λ status. quiet_tried a.provider_token)
    where
      quiet_tried : (r : Result Thrown Text) → any is_create_lease (tried e plan lease r) ≡ false
      quiet_tried (ok token) = refl
      quiet_tried (err x) = refl

-- The transaction, and that it is the only one that creates a lease.
pub record PaysOnce (plan : Plan) (effects : List Effect) : Type 0 where
  pub rest : List Effect
  pub first : effects ≡ create_lease (create_lease_args plan.meta_hash_hex plan.lease_items) ∷ rest
  pub once : any is_create_lease rest ≡ false

module _ (e : Runtime) (w : Answers) (a : LeaseAnswers) (spec : DeploySpec) where
  abbrev pub Vetted : Plan → Type 0
  Vetted = IsVetted e.trim e.parse_fqdn e.hash_hex e.sku_refused e.provider_key spec w

  create-PaysOnce :
      (plan : Plan)
      → a.aborted_before_create ≡ false
      → PaysOnce plan (create_and_deploy e a spec plan).effects
  unfolding create_and_deploy
  create-PaysOnce plan h = rw h (by_transaction (a.transaction >>= extract_lease_uuid))
    where
      by_transaction :
          (r : Result Thrown Text)
          → PaysOnce plan
              (continue_with
                (create_lease (create_lease_args plan.meta_hash_hex plan.lease_items) ∷ [])
                r
                (after_lease e a spec plan)).effects
      by_transaction (ok lease) = record {
        rest = (after_lease e a spec plan lease).effects;
        first = refl;
        once = quiet_after e a spec plan lease;
      }
      by_transaction (err x) = record { rest = []; first = refl; once = refl }

  -- Whatever the environment answers, a deployment either asks nothing of it after the checks, or
  -- every check passed, the signal had not fired by then, and the transaction that creates the lease is
  -- asked for first, with the arguments that were checked, and once.
  pub deploy_manifest-PaysOnce :
      ((deploy_manifest e w a spec).effects ≡ [])
      ⊎ ((plan : Plan) × Vetted plan
          × (a.aborted_before_create ≡ false)
          × PaysOnce plan (deploy_manifest e w a spec).effects)
  unfolding deploy_manifest create_and_deploy
  deploy_manifest-PaysOnce =
      by_check (preflight e.trim e.parse_fqdn e.hash_hex e.sku_refused e.provider_key w spec) refl
    where
      by_check :
          (r : Result Thrown Plan)
          → preflight e.trim e.parse_fqdn e.hash_hex e.sku_refused e.provider_key w spec ≡ r
          → ((continue_with [] r (create_and_deploy e a spec)).effects ≡ [])
            ⊎ ((plan : Plan) × Vetted plan
                × (a.aborted_before_create ≡ false)
                × PaysOnce plan (continue_with [] r (create_and_deploy e a spec)).effects)
      by_check (err x) h = inl refl
      by_check (ok plan) h = elim (Bool-cases a.aborted_before_create) [
        | inl fired ↦ inl (rw fired refl)
        | inr quiet ↦ inr (
          plan,
          preflight-IsVetted e.trim e.parse_fqdn e.hash_hex e.sku_refused e.provider_key spec w plan
              h,
          quiet,
          create-PaysOnce plan quiet,
        )
      ]
