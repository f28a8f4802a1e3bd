-- ===== src/DeployManifest/Tests.antt =====
-- Runs of a deployment, and the theorems at them.
use manifest_mcp_mono.Common.{
  ℕ, ◌≡◌, ◌≢◌, refl, ◌∙◌, ◌⊎◌, Bool, true, false, not, any, List, [], ◌∷◌, ◌++◌, Option, none, some,
  Text, codes, String, Datum, undefined, string, no_members, Result, ok, err, ◌>>=◌, In,
}
use manifest_mcp_mono.LeaseWait.{active, FredLeaseStatus}
use manifest_mcp_mono.LeaseWait.Poll
use manifest_mcp_mono.LeaseWait.Poll.{
  Outcome, Wait, started, PollOptions, default_options, Round, live, answered, poll_lease_readiness,
}
use manifest_mcp_mono.LeaseWait.Verdicts.{IsReady}
use manifest_mcp_mono.DeployOutcome.{
  DeployFailedStep, set_domain, upload, poll, classify_deploy_error,
}
use manifest_mcp_mono.DeployOutcome.Response.{deploy_failed, classify_deploy_response}
use manifest_mcp_mono.DeployManifest.{Thrown, other_error, provider_error, invalid_config}
use manifest_mcp_mono.DeployManifest.Creation.{Event, extract_lease_uuid}
use manifest_mcp_mono.DeployManifest.Preflight.{
  SkuIntent, resolved, DeploySpec, stack, ValidatedPayload, Answers, Plan, preflight,
}
use manifest_mcp_mono.DeployManifest.Failure.{wrap_failure}
use manifest_mcp_mono.DeployManifest.Deploy.{
  LeaseAnswers, Runtime, deploy_steps, after_lease, deploy_manifest, connected, created_of,
  unconfirmed_after, DeployResult,
}
use manifest_mcp_mono.DeployManifest.Envelope.{envelope}
use manifest_mcp_mono.DeployManifest.Guards.{Vetted, PaysOnce, deploy_manifest-PaysOnce}
use manifest_mcp_mono.DeployOutcome.Uuid.{UuidForm}
use manifest_mcp_mono.DeployManifest.Extraction.{IsNoted, Quotes, extract_lease_uuid-IsNoted}
use manifest_mcp_mono.DeployManifest.Outcomes.{
  Exists, ends_after_lease, Told, deploy_manifest-Told, silence_is_unconfirmed,
}
use manifest_mcp_mono.DeployManifest.Success.{
  response_of, Succeeds, success-Succeeds, success_is_live,
}

abbrev runtime : Runtime
runtime = record {
  trim = λ s. s;
  parse_fqdn = λ s. ok (codes s);
  hash_hex = λ s. codes "00ff";
  sku_refused = λ x. invalid_config [];
  provider_key = λ s. some s;
  parse_json = λ s. none;
  sanitize = λ s. s;
}

abbrev web_stack : ValidatedPayload
web_stack = record {
  bytes = 123 ∷ 125 ∷ [];
  format = stack;
  service_names = codes "web" ∷ codes "db" ∷ [];
}

abbrev spec : DeploySpec
spec = record {
  manifest = codes "{}";
  sku = resolved "s" "p";
  custom_domain = some "app.example.com";
  service_name = some (codes "web");
  storage = none;
}

abbrev answers : Answers
answers = record {
  fred_compatibility = undefined;
  override = undefined;
  validate = λ m c. ok web_stack;
  address = ok (codes "manifest1");
  rate_limit = ok tt;
  skus = ok [];
  storage_skus = ok [];
  provider_api_url = ok (some (codes "https://p"));
  validate_provider_url = λ u. ok u;
}

abbrev lease : Text
lease = codes "01234567-89ab-4cde-8f01-23456789abcd"

abbrev created_events : List Event
created_events =
    record {
      event_type = codes "liftedinit.billing.v1.EventLeaseCreated";
      attributes = record { key = codes "lease_uuid"; value = b'"' ∷ (lease ++ (b'"' ∷ [])) } ∷ [];
    }
    ∷ []

abbrev is_up : FredLeaseStatus
is_up = record {
  state = active;
  provision_status = some "ready";
  phase = none;
  message = none;
  last_error = none;
}

abbrev lease_answers : LeaseAnswers
lease_answers = record {
  aborted_before_create = false;
  abort_reason = other_error (codes "aborted");
  transaction = ok (some created_events);
  notified = ok tt;
  aborted_after_notice = false;
  domain_set = ok tt;
  lease_data_token = ok (codes "t");
  uploaded = ok tt;
  polled = Poll.ready is_up;
  rethrown = λ o. other_error (codes "refused");
  worded = λ o. codes "the wait ended";
  aborted_at_failure = false;
  provider_token = ok (codes "t");
  connection = ok undefined;
}

abbrev plan : Plan
plan = record {
  manifest_bytes = 123 ∷ 125 ∷ [];
  custom_domain = some (codes "app.example.com");
  meta_hash_hex = codes "00ff";
  provider_uuid = codes "p";
  provider_url = codes "https://p";
  lease_items = codes "s:1:web" ∷ codes "s:1:db" ∷ [];
}

extracts : extract_lease_uuid (some created_events) ≡ ok lease
unfolding extract_lease_uuid manifest_mcp_mono.Retry.Message.includes
    manifest_mcp_mono.Common.same_text manifest_mcp_mono.DeployOutcome.match_at
    manifest_mcp_mono.DeployOutcome.is_hex
extracts = refl

planned :
    preflight runtime.trim runtime.parse_fqdn runtime.hash_hex runtime.sku_refused
      runtime.provider_key answers spec
    ≡ ok plan
unfolding preflight manifest_mcp_mono.DeployManifest.Compatibility.resolve_fred_compatibility
    manifest_mcp_mono.Common.same_text
    manifest_mcp_mono.DeployManifest.Preflight.resolve_provider_url
    manifest_mcp_mono.DeployManifest.Preflight.revalidate
    manifest_mcp_mono.DeployManifest.Preflight.app_items
planned = refl

exists : Exists runtime answers lease_answers spec plan lease
exists = record { checked = planned; on_time = refl; created = extracts }

abbrev silent : LeaseAnswers
silent = record lease_answers { polled = Poll.deadline started }

silent_exists : Exists runtime answers silent spec plan lease
silent_exists = record { checked = planned; on_time = refl; created = extracts }

abbrev silence : Thrown
silence = unconfirmed_after (codes "deadline") started (codes "the wait ended")

abbrev silent_error : Thrown
silent_error = wrap_failure runtime.parse_json false (created_of plan lease) (some poll) silence

silent_steps : (deploy_steps silent spec plan lease).outcome ≡ err (some poll, silence)
unfolding deploy_steps
silent_steps = refl

silent_run : (deploy_manifest runtime answers silent spec).outcome ≡ err silent_error
unfolding deploy_steps after_lease
silent_run = ends_after_lease runtime answers silent spec plan lease silent_exists ∙ refl

abbrev result : DeployResult
result = connected runtime spec plan lease is_up (ok undefined)

well_run : (deploy_manifest runtime answers lease_answers spec).outcome ≡ ok result
unfolding deploy_steps after_lease
well_run = ends_after_lease runtime answers lease_answers spec plan lease exists ∙ refl

deploy_manifest-PaysOnce_example :
    ((deploy_manifest runtime answers lease_answers spec).effects ≡ [])
    ⊎ ((p : Plan) × Vetted runtime answers lease_answers spec p
        × (lease_answers.aborted_before_create ≡ false)
        × PaysOnce p (deploy_manifest runtime answers lease_answers spec).effects)
deploy_manifest-PaysOnce_example = deploy_manifest-PaysOnce runtime answers lease_answers spec

extract_lease_uuid-IsNoted_example :
    UuidForm lease × ((raw : Text) × IsNoted created_events raw × Quotes raw lease)
extract_lease_uuid-IsNoted_example = extract_lease_uuid-IsNoted created_events lease extracts

deploy_manifest-Told_example :
    (step : Option DeployFailedStep) × (cause : Thrown) × ((deploy_steps silent spec plan
        lease).outcome
      ≡ err (step, cause))
    × Told runtime answers silent spec plan lease step cause silent_error
deploy_manifest-Told_example =
    deploy_manifest-Told runtime answers silent spec plan lease silent_error silent_exists
      silent_run

silence_is_unconfirmed_example :
    (classify_deploy_error (envelope silent_error) none).readiness_unconfirmed ≡ true
silence_is_unconfirmed_example =
    silence_is_unconfirmed runtime answers silent spec plan lease silent_error silence silent_exists
      silent_run silent_steps refl (λ o. refl)

success-Succeeds_example : Succeeds runtime answers lease_answers spec plan lease result
success-Succeeds_example =
    success-Succeeds runtime answers lease_answers spec plan lease result exists well_run

-- A wait whose first read finds the app ready.
abbrev at_once : ℕ → Round
at_once i = record {
  aborted_at_start = false;
  chain = live;
  aborted_after_check = false;
  mint_throws = none;
  aborted_after_mint = false;
  read = answered is_up;
  aborted_after_read = false;
  progress_throws = none;
  busy_ms = 10;
  aborted_asleep = false;
  overslept_ms = 0;
}

waited : poll_lease_readiness default_options at_once 3 ≡ some lease_answers.polled
unfolding poll_lease_readiness
waited = refl

success_is_live_example :
    ((i : ℕ) × (status : FredLeaseStatus) × ((at_once i).read ≡ answered status) × IsReady status)
    × (result.lease_uuid ≡ lease)
    × (result.state ≡ active)
    × ((classify_deploy_response (λ t. none) (response_of result)).outcome ≢ deploy_failed)
success_is_live_example =
    success_is_live runtime answers lease_answers spec plan lease result default_options at_once 3
      (λ t. none) exists well_run waited
