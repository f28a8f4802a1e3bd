-- ===== src/LeaseWait.antt =====
-- packages/fred/src/readiness/poll-lease-readiness.ts, and isTransientProviderError of
-- packages/fred/src/http/provider.ts: what a provider's status says of a lease, and which failed reads
-- of it may be tried again. An error whose properties throw when they are read is left out.
pub mod Poll
pub mod Rounds
pub mod Verdicts
pub mod Deadline
pub mod Tests
use manifest_mcp_mono.Common.{
  ℕ, Bool, true, false, ◌&&◌, ◌||◌, not, List, [], ◌∷◌, Option, none, some, String, str_mem, ◌==◌,
  leb, if◌then◌else◌,
}

-- The chain's state of a lease; `unknown_state` is any other value.
pub data LeaseState : Type 0 where
  unspecified pending active closed rejected expired unknown_state : LeaseState

-- The rest of a status only reaches the wording and the details of an error.
pub record FredLeaseStatus : Type 0 where
  pub state : LeaseState
  pub provision_status : Option String
  pub phase : Option String
  pub message : Option String
  pub last_error : Option String

abbrev pub provision_in_progress : List String
provision_in_progress = "provisioning" ∷ "restarting" ∷ "updating" ∷ "failing" ∷ "unknown" ∷ []

abbrev pub provision_failed : List String
provision_failed = "failed" ∷ "deprovisioning" ∷ []

abbrev pub provision_success : List String
provision_success = "ready" ∷ []

-- `kind` of a ProviderApiError: `untagged` is `undefined`, `malformed` no text, `other_kind` a text
-- that is none of the others.
pub data ProviderErrorKind : Type 0 where
  http network timeout invalid_url redirect invalid_json invalid_response : ProviderErrorKind
  body_cap poll_gave_up poll_verdict other_kind untagged malformed : ProviderErrorKind

-- What a failed read threw. `status` is none where it is no finite number; `maintenance_veto` is the
-- answer of hasMaintenanceRetryVeto.
pub record ReadError : Type 0 where
  pub is_provider_api_error : Bool
  pub maintenance_veto : Bool
  pub status : Option ℕ
  pub kind : ProviderErrorKind
  pub retry_after_ms : Option ℕ

-- The `switch` on the kind; the default falls back to the status.
abbrev pub transient_kind : ProviderErrorKind → ℕ → Bool
transient_kind network n = true
transient_kind timeout n = true
transient_kind invalid_json n = true
transient_kind invalid_url n = false
transient_kind redirect n = false
transient_kind invalid_response n = false
transient_kind body_cap n = false
transient_kind poll_gave_up n = false
transient_kind poll_verdict n = false
transient_kind malformed n = false
transient_kind http n = leb 500 n || n == 429
transient_kind other_kind n = leb 500 n || n == 429
transient_kind untagged n = leb 500 n || n == 429

abbrev pub transient_status : ProviderErrorKind → Option ℕ → Bool
transient_status k none = false
transient_status k (some n) = transient_kind k n

unfoldable pub is_transient_provider_error : ReadError → Bool
is_transient_provider_error e =
    e.is_provider_api_error && not e.maintenance_veto && transient_status e.kind e.status

abbrev pub is_not_found : Option ℕ → Bool
is_not_found none = false
is_not_found (some n) = n == 404

abbrev pub is_off_contract : ProviderErrorKind → Bool
is_off_contract invalid_response = true
is_off_contract _ = false

-- A read's failure that a wait counts in place of rethrowing it.
unfoldable pub is_tolerable : ReadError → Bool
unfolding is_transient_provider_error
is_tolerable e =
    is_transient_provider_error e
    || e.is_provider_api_error && (is_not_found e.status || is_off_contract e.kind)
