-- ===== src/DeployManifest/Deploy.antt =====
-- packages/fred/src/tools/deployManifest.ts: deployManifest, with createLease of tools/createLease.ts. What
-- the environment is asked to do is a list of effects, in the order of the calls. The end of the
-- readiness poll is one of LeaseWait.Poll. The connection is a value as the
-- provider sent it.
use manifest_mcp_mono.Common.{
  ℕ, Bool, true, false, ◌&&◌, List, [], ◌∷◌, ◌++◌, Option, none, some, Text, codes, Datum, number,
  field, object, member, is_some, Result, ok, err, ◌>>=◌, if◌then◌else◌, String,
}
use manifest_mcp_mono.SkuResolution.{SkuError}
use manifest_mcp_mono.Denoms.{print}
use manifest_mcp_mono.LeaseWait.{
  LeaseState, unspecified, pending, active, closed, rejected, expired, unknown_state,
  FredLeaseStatus, poll_verdict,
}
use manifest_mcp_mono.LeaseWait.Poll
use manifest_mcp_mono.LeaseWait.Poll.{Outcome, Wait}
use manifest_mcp_mono.DeployOutcome.{text_of, DeployFailedStep, set_domain, upload, poll}
use manifest_mcp_mono.DeployManifest.{
  Thrown, provider_error, chain_terminal, unconfirmed, ChainContext, error_message_of,
}
use manifest_mcp_mono.DeployManifest.Creation.{Event, extract_lease_uuid, create_lease_args}
use manifest_mcp_mono.DeployManifest.Preflight.{DeploySpec, Answers, Plan, preflight, is_filled}
use manifest_mcp_mono.DeployManifest.Failure.{Created, wrap_failure}

pub data Effect : Type 0 where
  create_lease : (args : List Text) → Effect
  lease_created : Created → Effect
  set_item_custom_domain : (lease_uuid domain : Text) (service_name : Option Text) → Effect
  upload_lease_data : Created → (bytes : List ℕ) → Effect
  poll_lease_until_ready : Created → Effect
  get_lease_connection_info : Created → Effect

-- What a call did, and how it ended.
pub record Run {ℓ κ} (E : Type ℓ) (A : Type κ) : Type (ℓ ⊔ κ) where
  pub effects : List Effect
  pub outcome : Result E A

abbrev pub preceded {ℓ κ} : {E : Type ℓ} {A : Type κ} → List Effect → Run E A → Run E A
preceded before r = record { effects = before ++ r.effects; outcome = r.outcome }

abbrev pub continue_with {ℓ κ ℓ'} :
    {E : Type ℓ} {A : Type κ} {B : Type ℓ'} → List Effect → Result E A → (A → Run E B) → Run E B
continue_with before (ok a) f = preceded before (f a)
continue_with before (err e) f = record { effects = before; outcome = err e }

infixr 5 ◌>>=*◌ ◌>>*◌
abbrev pub ◌>>=*◌ {ℓ κ ℓ'} :
    {E : Type ℓ} {A : Type κ} {B : Type ℓ'} → Run E A → (A → Run E B) → Run E B
m >>=* f = continue_with m.effects m.outcome f

abbrev pub ◌>>*◌ {ℓ κ} : {E : Type ℓ} {B : Type κ} → Run E (Unit {0}) → Run E B → Run E B
m >>* next = m >>=* λ _. next

-- The answers to the calls that follow the checks. `aborted_…` says whether the signal has fired by then;
-- `polled` is how the poll ended, `rethrown` what it throws where the error is another's, and `worded` the
-- text of its own errors.
pub record LeaseAnswers : Type 0 where
  pub aborted_before_create : Bool
  pub abort_reason : Thrown
  pub transaction : Result Thrown (Option (List Event))
  pub notified : Result Thrown (Unit {0})
  pub aborted_after_notice : Bool
  pub domain_set : Result Thrown (Unit {0})
  pub lease_data_token : Result Thrown Text
  pub uploaded : Result Thrown (Unit {0})
  pub polled : Outcome
  pub rethrown : Outcome → Thrown
  pub worded : Outcome → Text
  pub aborted_at_failure : Bool
  pub provider_token : Result Thrown Text
  pub connection : Result Thrown Datum

pub record DeployResult : Type 0 where
  pub lease_uuid : Text
  pub provider_uuid : Text
  pub provider_url : Text
  pub state : LeaseState
  pub url : Option Text
  pub connection : Option Datum
  pub connection_error : Option Text
  pub custom_domain : Option Text
  pub service_name : Option Text

abbrev map_option {ℓ κ} : {A : Type ℓ} {B : Type κ} → (A → B) → Option A → Option B
map_option f none = none
map_option f (some a) = some (f a)

abbrev pub state_number : LeaseState → Datum
state_number unspecified = number 0
state_number pending = number 1
state_number active = number 2
state_number closed = number 3
state_number rejected = number 4
state_number expired = number 5
state_number unknown_state = number 6

-- `LeaseState[state] ?? String(state)`; a state that has no name is left out.
abbrev state_name : LeaseState → Text
state_name unspecified = codes "LEASE_STATE_UNSPECIFIED"
state_name pending = codes "LEASE_STATE_PENDING"
state_name active = codes "LEASE_STATE_ACTIVE"
state_name closed = codes "LEASE_STATE_CLOSED"
state_name rejected = codes "LEASE_STATE_REJECTED"
state_name expired = codes "LEASE_STATE_EXPIRED"
state_name unknown_state = []

abbrev no_context : ChainContext
no_context = record { lease_uuid = none; provider_uuid = none; provider_url = none }

abbrev filled_text : Text → Option Text
filled_text [] = none
filled_text (c ∷ s) = some (c ∷ s)

-- What pollLeaseUntilReady throws for each end of the wait that is none of success; `worded` is its text.
abbrev pub unconfirmed_after : Text → Wait → Text → Thrown
unconfirmed_after reason w message =
    unconfirmed
      record {
        reason = reason;
        last_state = map_option state_name w.last_state;
        last_provision_status = map_option codes w.last_provision_status;
      }
      message

unfoldable pub thrown_by_poll :
    (worded : Outcome → Text) (rethrown : Outcome → Thrown) (lease_uuid : Text)
    → Outcome
    → Result Thrown FredLeaseStatus
thrown_by_poll worded rethrown lease (Poll.ready s) = ok s
thrown_by_poll worded rethrown lease (Poll.terminal_on_chain s) =
    err (chain_terminal s lease no_context)
thrown_by_poll worded rethrown lease (Poll.provisioning_failed ps) =
    err (provider_error (some 0) poll_verdict (worded (Poll.provisioning_failed ps)))
thrown_by_poll worded rethrown lease (Poll.terminal_state s) =
    err (provider_error (some 0) poll_verdict (worded (Poll.terminal_state s)))
thrown_by_poll worded rethrown lease (Poll.unexpected_state s) =
    err (provider_error (some 0) poll_verdict (worded (Poll.unexpected_state s)))
thrown_by_poll worded rethrown lease (Poll.unreachable w) =
    err (unconfirmed_after (codes "provider_unreachable") w (worded (Poll.unreachable w)))
thrown_by_poll worded rethrown lease (Poll.deadline w) =
    err (unconfirmed_after (codes "deadline") w (worded (Poll.deadline w)))
thrown_by_poll worded rethrown lease o = err (rethrown o)

-- The error of a step of the `try`, with the variable `step` as it stands there.
abbrev pub stopped :
    Option DeployFailedStep
    → {A : Type 0} → Result Thrown A
    → Result (Option DeployFailedStep × Thrown) A
stopped step (ok a) = ok a
stopped step (err e) = err (step, e)

abbrev pub call :
    List Effect
    → Option DeployFailedStep
    → {A : Type 0} → Result Thrown A
    → Run (Option DeployFailedStep × Thrown) A
call effects step r = record { effects = effects; outcome = stopped step r }

abbrev pub throw_if_aborted : Bool → Thrown → Result Thrown (Unit {0})
throw_if_aborted true reason = err reason
throw_if_aborted false reason = ok tt

abbrev pub created_of : Plan → Text → Created
created_of plan lease = record {
  lease_uuid = lease;
  provider_uuid = plan.provider_uuid;
  provider_url = plan.provider_url;
}

unfoldable pub set_domain_step :
    LeaseAnswers → DeploySpec → Plan → Text → Run (Option DeployFailedStep × Thrown) (Unit {0})
set_domain_step a spec plan lease = elim plan.custom_domain [
  | none ↦ record { effects = []; outcome = ok tt }
  | some domain ↦
      call (set_item_custom_domain lease domain spec.service_name ∷ []) (some set_domain)
        a.domain_set
]

-- The `try` after the lease.
unfoldable pub deploy_steps :
    LeaseAnswers → DeploySpec → Plan → Text → Run (Option DeployFailedStep × Thrown) FredLeaseStatus
unfolding set_domain_step thrown_by_poll
deploy_steps a spec plan lease =
    let c = created_of plan lease in
    call (lease_created c ∷ []) none a.notified
    >>* call [] none (throw_if_aborted a.aborted_after_notice a.abort_reason)
    >>* set_domain_step a spec plan lease
    >>* call [] (some upload) a.lease_data_token
    >>=* λ token.
        call (upload_lease_data c plan.manifest_bytes ∷ []) (some upload) a.uploaded
        >>* call (poll_lease_until_ready c ∷ []) (some poll)
            (thrown_by_poll a.worded a.rethrown lease a.polled)

-- What is not this model's: the runtime's functions, and those that other files of the repository define.
pub record Runtime : Type 0 where
  pub trim : String → String
  pub parse_fqdn : String → Result Thrown Text
  pub hash_hex : Text → Text
  pub sku_refused : SkuError → Thrown
  pub provider_key : Text → Option Text
  pub parse_json : Text → Option Datum
  pub sanitize : Text → Text

-- A port whose number is none is left out.
module _ (e : Runtime) where
  abbrev first_port : Datum → Option Text
  first_port (object (member key port rest)) = elim (field "host_port" port) [
    | number n ↦ some (print n)
    | _ ↦ none
  ]
  first_port _ = none

  abbrev url_at : Option Text → Option Text → Option Text
  url_at (some (c ∷ host)) (some port) = some ((c ∷ host) ++ codes ":" ++ port)
  url_at _ _ = none

  abbrev pub url_of : Datum → Option Text
  url_of connection =
      url_at (text_of (field "host" connection)) (first_port (field "ports" connection))

  -- The answer, with what the last, optional read found.
  unfoldable pub connected :
      DeploySpec → Plan → Text → FredLeaseStatus → Result Thrown Datum → DeployResult
  connected spec plan lease status found = record {
    lease_uuid = lease;
    provider_uuid = plan.provider_uuid;
    provider_url = plan.provider_url;
    state = status.state;
    url = elim found [ ok c ↦ url_of c | err x ↦ none ];
    connection = elim found [ ok c ↦ some c | err x ↦ none ];
    connection_error = elim found [
      | ok c ↦ none
      | err x ↦ filled_text (e.sanitize (error_message_of x))
    ];
    custom_domain = plan.custom_domain;
    service_name =
        if is_some plan.custom_domain && is_filled spec.service_name
        then spec.service_name
        else none;
  }

  abbrev pub tried : Plan → Text → Result Thrown Text → List Effect
  tried plan lease (ok token) = get_lease_connection_info (created_of plan lease) ∷ []
  tried plan lease (err x) = []

  abbrev pub connect :
      LeaseAnswers → DeploySpec → Plan → Text → FredLeaseStatus → Run Thrown DeployResult
  connect a spec plan lease status = record {
    effects = tried plan lease a.provider_token;
    outcome = ok (connected spec plan lease status (a.provider_token >>= λ token. a.connection));
  }

  -- The `catch` around the steps.
  abbrev pub caught :
      LeaseAnswers
      → Plan
      → Text
      → Result (Option DeployFailedStep × Thrown) FredLeaseStatus
      → Result Thrown FredLeaseStatus
  caught a plan lease (ok status) = ok status
  caught a plan lease (err (step, x)) =
      err (wrap_failure e.parse_json a.aborted_at_failure (created_of plan lease) step x)

  unfoldable pub after_lease : LeaseAnswers → DeploySpec → Plan → Text → Run Thrown DeployResult
  unfolding deploy_steps connected
  after_lease a spec plan lease =
      let steps = deploy_steps a spec plan lease in
      continue_with steps.effects (caught a plan lease steps.outcome) (connect a spec plan lease)

  -- From a plan on: the last look at the signal, and the transaction.
  unfoldable pub create_and_deploy : LeaseAnswers → DeploySpec → Plan → Run Thrown DeployResult
  unfolding after_lease
  create_and_deploy a spec plan =
      record { effects = []; outcome = throw_if_aborted a.aborted_before_create a.abort_reason }
      >>* record {
        effects = create_lease (create_lease_args plan.meta_hash_hex plan.lease_items) ∷ [];
        outcome = a.transaction >>= extract_lease_uuid;
      }
      >>=* after_lease a spec plan

  unfoldable pub deploy_manifest : Answers → LeaseAnswers → DeploySpec → Run Thrown DeployResult
  unfolding create_and_deploy
  deploy_manifest w a spec =
      record {
        effects = [];
        outcome = preflight e.trim e.parse_fqdn e.hash_hex e.sku_refused e.provider_key w spec;
      }
      >>=* create_and_deploy a spec
