-- ===== src/DeployOutcome/Response.antt =====
-- packages/agent-core/src/internals/classify-deploy-response.ts, with lease-state.ts and connection.ts
-- beside it: what the answer of a deployment says. `Number` of a text is a parameter: a natural number,
-- or none for any other number. The warning on an unknown shape of a connection is left out.
use manifest_mcp_mono.Common.{
  ℕ, Bool, true, false, ◌&&◌, ◌||◌, not, List, [], ◌∷◌, ◌++◌, map, any, Option, none, some, Text,
  codes, same_text, ◌==◌, Datum, number, string, array, object, Elements, no_elements, element,
  Members, no_members, member, field, if◌then◌else◌, String,
}
use manifest_mcp_mono.Retry.Message.{starts_with}
use manifest_mcp_mono.DeployOutcome.{is_plain_object, text_of, is_text}

abbrev pub states : ℕ → Option Text
states n =
    if n == 0
    then some (codes "LEASE_STATE_UNSPECIFIED")
    else if n == 1
    then some (codes "LEASE_STATE_PENDING")
    else if n == 2
    then some (codes "LEASE_STATE_ACTIVE")
    else if n == 3
    then some (codes "LEASE_STATE_CLOSED")
    else if n == 4
    then some (codes "LEASE_STATE_REJECTED")
    else if n == 5
    then some (codes "LEASE_STATE_EXPIRED")
    else none

abbrev pub terminal_states : List String
terminal_states =
    "LEASE_STATE_CLOSED" ∷ "LEASE_STATE_REJECTED" ∷ "LEASE_STATE_EXPIRED"
    ∷ "LEASE_STATE_INSUFFICIENT_FUNDS" ∷ []

abbrev pub is_terminal : Option Text → Bool
is_terminal none = false
is_terminal (some name) = any (λ s. same_text (codes s) name) terminal_states

abbrev pub is_active : Option Text → Bool
is_active none = false
is_active (some name) = same_text (codes "LEASE_STATE_ACTIVE") name

-- `pushFromInstances`: the names of running instances that are not listed yet.
abbrev pub is_running : Datum → Bool
is_running inst = is_plain_object inst && is_text (field "status" inst) (codes "running")

abbrev pub is_listed : Text → List Text → Bool
is_listed name names = any (λ n. same_text n name) names

abbrev pub add_name : Datum → List Text → List Text
add_name (string []) names = names
add_name (string (c ∷ s)) names = if is_listed (c ∷ s) names then names else names ++ ((c ∷ s) ∷ [])
add_name _ names = names

abbrev pub push_elements : Elements → List Text → List Text
push_elements no_elements names = names
push_elements (element inst xs) names =
    push_elements xs (if is_running inst then add_name (field "fqdn" inst) names else names)

abbrev pub push_from_instances : Datum → List Text → List Text
push_from_instances (array xs) names = push_elements xs names
push_from_instances _ names = names

abbrev pub push_from_services : Members → List Text → List Text
push_from_services no_members names = names
push_from_services (member k svc rest) names =
    push_from_services rest (push_from_instances (field "instances" svc) names)

abbrev pub from_services : Datum → List Text → List Text
from_services (object ms) names = push_from_services ms names
from_services _ names = names

unfoldable pub extract_running_endpoints : Datum → List Text
extract_running_endpoints connection =
    if is_plain_object connection
    then from_services (field "services" connection)
        (push_from_instances (field "instances" connection) [])
    else []

abbrev pub format_endpoint_as_url : Text → Text
format_endpoint_as_url fqdn = codes "https://" ++ fqdn ++ codes "/"

-- `/^https?:\/\//i`
unfoldable pub starts_with_i : (lower upper : Text) → Text → Bool
starts_with_i [] upper s = true
starts_with_i (l ∷ lower) (u ∷ upper) (c ∷ s) = (c == l || c == u) && starts_with_i lower upper s
starts_with_i _ _ _ = false

abbrev pub has_scheme : Text → Bool
has_scheme s =
    starts_with_i (codes "http://") (codes "HTTP://") s
    || starts_with_i (codes "https://") (codes "HTTPS://") s

unfoldable pub normalize_fred_url : Text → Text
normalize_fred_url [] = []
normalize_fred_url (c ∷ raw) =
    if has_scheme (c ∷ raw) then c ∷ raw else format_endpoint_as_url (c ∷ raw)

abbrev pub any_running : Elements → Bool
any_running no_elements = false
any_running (element inst xs) = is_running inst || any_running xs

abbrev pub runs : Datum → Bool
runs (array xs) = any_running xs
runs _ = false

abbrev pub any_service_runs : Members → Bool
any_service_runs no_members = false
any_service_runs (member k svc rest) = runs (field "instances" svc) || any_service_runs rest

abbrev pub some_service_runs : Datum → Bool
some_service_runs (object ms) = any_service_runs ms
some_service_runs _ = false

unfoldable pub has_running_instances : Datum → Bool
has_running_instances connection =
    is_plain_object connection
    && (runs (field "instances" connection) || some_service_runs (field "services" connection))

pub data DeployOutcome : Type 0 where
  deploy_active needs_wait deploy_failed : DeployOutcome

pub record DeployResponseClassification : Type 0 where
  pub outcome : DeployOutcome
  pub lease_uuid : Option Text
  pub provider_uuid : Option Text
  pub provider_url : Option Text
  pub urls : List Text
  pub state_name : Option Text
  pub error_summary : Option Text

abbrev pub add_url : Datum → List Text → List Text
add_url (string []) urls = urls
add_url (string (c ∷ s)) urls =
    let u = normalize_fred_url (c ∷ s) in if is_listed u urls then urls else u ∷ urls
add_url _ urls = urls

-- Whether there is a lease's id, and not an empty one.
abbrev pub has_lease : Option Text → Bool
has_lease none = false
has_lease (some []) = false
has_lease (some (c ∷ s)) = true

abbrev pub is_empty : List Text → Bool
is_empty [] = true
is_empty (u ∷ urls) = false

unfoldable pub outcome_of : Option Text → Option Text → List Text → Datum → DeployOutcome
outcome_of lease state urls connection =
    if not (has_lease lease)
    then deploy_failed
    else if is_active state && (not (is_empty urls) || has_running_instances connection)
    then deploy_active
    else if is_terminal state
    then deploy_failed
    else needs_wait

abbrev pub name_or_unknown : Option Text → Text
name_or_unknown none = codes "UNKNOWN"
name_or_unknown (some []) = codes "UNKNOWN"
name_or_unknown (some (c ∷ s)) = c ∷ s

abbrev pub lease_or_empty : Option Text → Text
lease_or_empty none = []
lease_or_empty (some u) = u

unfoldable pub summary_of : Datum → Option Text → Option Text → Text
summary_of connection_error lease state = elim (text_of connection_error) [
  | some t ↦ t
  | none ↦
      if not (has_lease lease)
      then codes "deploy_app returned no lease_uuid"
      else codes "Lease "
        ++ lease_or_empty lease
        ++ codes " reached terminal state "
        ++ name_or_unknown state
]

abbrev pub is_failed : DeployOutcome → Bool
is_failed deploy_failed = true
is_failed _ = false

module _ (number_of : Text → Option ℕ) where
  -- `decode`; a state that is neither a number nor a text is undefined before.
  abbrev pub decode : Datum → Option Text
  decode (string t) =
      if starts_with (codes "LEASE_STATE_") t
      then some t
      else elim (number_of t) [ none ↦ none | some n ↦ states n ]
  decode (number n) = states n
  decode _ = none

  unfoldable pub classify_deploy_response : Datum → DeployResponseClassification
  classify_deploy_response response =
      let state = decode (field "state" response) in
      let connection = field "connection" response in
      let endpoints = map format_endpoint_as_url (extract_running_endpoints connection) in
      let urls = add_url (field "url" response) endpoints in
      let lease = text_of (field "lease_uuid" response) in
      let outcome = outcome_of lease state urls connection in
      record {
        outcome = outcome;
        lease_uuid = lease;
        provider_uuid = text_of (field "provider_uuid" response);
        provider_url = text_of (field "provider_url" response);
        urls = urls;
        state_name = state;
        error_summary =
            if is_failed outcome
            then some (summary_of (field "connectionError" response) lease state)
            else none;
      }
