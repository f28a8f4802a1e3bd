-- ===== src/DeployOutcome/Verdict.antt =====
-- When the answer of a deployment counts as running, as waiting or as failed.
use mathlib.Core.Option.{some-injective}
use mathlib.Core.Path.{Path}
use manifest_mcp_mono.Common.{
  ℕ, ◌≡◌, ◌≢◌, ◌↔◌, ◌⊎◌, inl, inr, refl, ap, sym, ◌∙◌, Bool, true, false, ◌&&◌, ◌||◌, not, List, [],
  ◌∷◌, map, Option, none, some, Text, codes, same_text, same_text_iff, arith, Bool-cases, Datum,
  undefined, null, truth, number, string, other, array, object, Elements, no_elements, element,
  Members, no_members, member, field, if◌then◌else◌,
}
use manifest_mcp_mono.DeployOutcome.{is_plain_object, text_of}
use manifest_mcp_mono.DeployOutcome.Response.{
  is_terminal, is_active, is_running, is_listed, add_name, push_elements, push_from_instances,
  push_from_services, from_services, extract_running_endpoints, format_endpoint_as_url,
  normalize_fred_url, any_running, runs, any_service_runs, some_service_runs, has_running_instances,
  DeployOutcome, deploy_active, needs_wait, deploy_failed, DeployResponseClassification, add_url,
  has_lease, is_empty, outcome_of, summary_of, is_failed, decode, classify_deploy_response,
}

-- A name is listed only for a running instance.
add_name-or :
    (d : Datum) (names : List Text) (b : Bool)
    → is_empty (if b then add_name d names else names) ≡ false
    → (is_empty names ≡ false) ⊎ (b ≡ true)
add_name-or d names true h = inr refl
add_name-or d names false h = inl h

push_elements-or :
    (xs : Elements) (names : List Text)
    → is_empty (push_elements xs names) ≡ false
    → (is_empty names ≡ false) ⊎ (any_running xs ≡ true)
push_elements-or no_elements names h = inl h
push_elements-or (element inst xs) names h =
    elim (push_elements-or xs
      (if is_running inst then add_name (field "fqdn" inst) names else names) h) [
        | inr later ↦ inr (ground (arith, later))
        | inl listed ↦ elim (add_name-or (field "fqdn" inst) names (is_running inst) listed) [
          | inl before ↦ inl before
          | inr running ↦ inr (rw running refl)
        ]
      ]

push_from_instances-or :
    (d : Datum) (names : List Text)
    → is_empty (push_from_instances d names) ≡ false
    → (is_empty names ≡ false) ⊎ (runs d ≡ true)
push_from_instances-or (array xs) names h = push_elements-or xs names h
push_from_instances-or undefined names h = inl h
push_from_instances-or null names h = inl h
push_from_instances-or (truth b) names h = inl h
push_from_instances-or (number n) names h = inl h
push_from_instances-or (string t) names h = inl h
push_from_instances-or (other n) names h = inl h
push_from_instances-or (object ms) names h = inl h

push_from_services-or :
    (ms : Members) (names : List Text)
    → is_empty (push_from_services ms names) ≡ false
    → (is_empty names ≡ false) ⊎ (any_service_runs ms ≡ true)
push_from_services-or no_members names h = inl h
push_from_services-or (member k svc rest) names h =
    elim (push_from_services-or rest (push_from_instances (field "instances" svc) names) h) [
      | inr later ↦ inr (ground (arith, later))
      | inl listed ↦ elim (push_from_instances-or (field "instances" svc) names listed) [
        | inl before ↦ inl before
        | inr running ↦ inr (rw running refl)
      ]
    ]

from_services-or :
    (d : Datum) (names : List Text)
    → is_empty (from_services d names) ≡ false
    → (is_empty names ≡ false) ⊎ (some_service_runs d ≡ true)
from_services-or (object ms) names h = push_from_services-or ms names h
from_services-or undefined names h = inl h
from_services-or null names h = inl h
from_services-or (truth b) names h = inl h
from_services-or (number n) names h = inl h
from_services-or (string t) names h = inl h
from_services-or (other n) names h = inl h
from_services-or (array xs) names h = inl h

-- Where an endpoint is listed, an instance runs.
extract-running :
    (connection : Datum)
    → is_empty (extract_running_endpoints connection) ≡ false
    → has_running_instances connection ≡ true
unfolding extract_running_endpoints has_running_instances
extract-running connection h = elim (Bool-cases (is_plain_object connection)) [
  | inr no_object ↦ cc (rw no_object at h)
  | inl shape ↦
      elim (from_services-or (field "services" connection)
        (push_from_instances (field "instances" connection) []) (rw shape at h)) [
          | inr service ↦ rw (shape, service) (ground arith)
          | inl listed ↦ elim (push_from_instances-or (field "instances" connection) [] listed) [
            | inl empty ↦ cc empty
            | inr top ↦ rw (shape, top) refl
          ]
        ]
]

abbrev pub has_url : Datum → Bool
has_url (string (c ∷ s)) = true
has_url _ = false

-- There is a sign of life: an instance that runs, or an address beside the connection.
abbrev pub is_live : Datum → Bool
is_live response =
    has_running_instances (field "connection" response) || has_url (field "url" response)

listed_last :
    (u : Text) (urls : List Text) → is_empty (if is_listed u urls then urls else u ∷ urls) ≡ false
listed_last u [] = refl
listed_last u (v ∷ urls) = ground arith

add_url-is_empty :
    (d : Datum) (urls : List Text) → is_empty (add_url d urls) ≡ (not (has_url d) && is_empty urls)
add_url-is_empty (string []) urls = refl
add_url-is_empty (string (c ∷ s)) urls = listed_last (normalize_fred_url (c ∷ s)) urls
add_url-is_empty undefined urls = refl
add_url-is_empty null urls = refl
add_url-is_empty (truth b) urls = refl
add_url-is_empty (number n) urls = refl
add_url-is_empty (other n) urls = refl
add_url-is_empty (array xs) urls = refl
add_url-is_empty (object ms) urls = refl

map-is_empty : (names : List Text) → is_empty (map format_endpoint_as_url names) ≡ is_empty names
map-is_empty [] = refl
map-is_empty (n ∷ names) = refl

-- The number of addresses says no more than the running instances and the address given.
live_lem :
    (response : Datum)
    → (not (
          is_empty (
            add_url (field "url" response) (
              map format_endpoint_as_url
                (extract_running_endpoints (field "connection" response)))))
        || has_running_instances (field "connection" response))
      ≡ is_live response
live_lem response =
    rw
      (
        add_url-is_empty (field "url" response)
            (map format_endpoint_as_url (extract_running_endpoints (field "connection" response))),
        map-is_empty (extract_running_endpoints (field "connection" response)),
      )
      (by_endpoints
        (Bool-cases (is_empty (extract_running_endpoints (field "connection" response)))))
  where
    by_endpoints :
        (is_empty (extract_running_endpoints (field "connection" response)) ≡ true)
          ⊎ (is_empty (extract_running_endpoints (field "connection" response)) ≡ false)
        → (not (
              not (has_url (field "url" response))
              && is_empty (extract_running_endpoints (field "connection" response)))
            || has_running_instances (field "connection" response))
          ≡ is_live response
    by_endpoints (inl empty) = ground (arith, empty)
    by_endpoints (inr listed) =
        ground (arith, listed, extract-running (field "connection" response) listed)

pub is_active_iff :
    (state : Option Text) → (is_active state ≡ true) ↔ (state ≡ some (codes "LEASE_STATE_ACTIVE"))
is_active_iff none = (λ h. cc h, λ h. cc h)
is_active_iff (some name) = (
  λ h. ap some (sym ((same_text_iff (codes "LEASE_STATE_ACTIVE") name).0 h)),
  λ h.
      (same_text_iff (codes "LEASE_STATE_ACTIVE") name).1
        (sym (some-injective name (codes "LEASE_STATE_ACTIVE") h)),
)

-- An active lease is not terminal.
active-terminal : (state : Option Text) → is_active state ≡ true → is_terminal state ≡ false
unfolding same_text
active-terminal state h = rw ((is_active_iff state).0 h) refl

module _ (lease state : Option Text) (urls : List Text) (connection : Datum) where
  outcome_of-active : (outcome_of lease state urls connection ≡ deploy_active) ↔ (
      (has_lease lease ≡ true)
      × (is_active state ≡ true)
      × ((not (is_empty urls) || has_running_instances connection) ≡ true))
  unfolding outcome_of
  outcome_of-active = ground arith

  outcome_of-failed :
      (outcome_of lease state urls connection ≡ deploy_failed)
      ↔ ((has_lease lease ≡ false) ⊎ (is_terminal state ≡ true))
  unfolding outcome_of
  outcome_of-failed = ground (arith, active-terminal state)

is_failed_iff :
    (o : DeployOutcome) (t : Text)
    → (Path (Option Text) (if is_failed o then some t else none) none) ↔ (o ≢ deploy_failed)
is_failed_iff deploy_failed t = (λ h. cc h, λ h. absurd (h refl))
is_failed_iff deploy_active t = (λ h e. cc e, λ h. refl)
is_failed_iff needs_wait t = (λ h e. cc e, λ h. refl)

-- What the classification of an answer means.
pub record IsDecided (response : Datum) (r : DeployResponseClassification) : Type 0 where
  pub running : (r.outcome ≡ deploy_active) ↔ (
      (has_lease r.lease_uuid ≡ true)
      × (r.state_name ≡ some (codes "LEASE_STATE_ACTIVE"))
      × (is_live response ≡ true))
  pub lost :
      (r.outcome ≡ deploy_failed)
      ↔ ((has_lease r.lease_uuid ≡ false) ⊎ (is_terminal r.state_name ≡ true))
  pub unexplained : (r.error_summary ≡ none) ↔ (r.outcome ≢ deploy_failed)

pub classify_deploy_response-IsDecided :
    (number_of : Text → Option ℕ) (response : Datum)
    → IsDecided response (classify_deploy_response number_of response)
unfolding classify_deploy_response
classify_deploy_response-IsDecided number_of response = record {
  running = (
    λ h.
        let (leased, state_active, live) = (outcome_of-active lease state urls connection).0 h in
        (leased, (is_active_iff state).0 state_active, sym (live_lem response) ∙ live),
    λ (leased, state_active, live).
        (outcome_of-active lease state urls connection).1
          (leased, (is_active_iff state).1 state_active, live_lem response ∙ live),
  );
  lost = outcome_of-failed lease state urls connection;
  unexplained =
      is_failed_iff (outcome_of lease state urls connection)
        (summary_of (field "connectionError" response) lease state);
}
  where
    lease : Option Text
    lease = text_of (field "lease_uuid" response)

    state : Option Text
    state = decode number_of (field "state" response)

    connection : Datum
    connection = field "connection" response

    urls : List Text
    urls =
        add_url (field "url" response)
          (map format_endpoint_as_url (extract_running_endpoints connection))
