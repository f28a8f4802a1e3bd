-- ===== src/DeployManifest.antt =====
-- packages/fred/src/tools/deployManifest.ts and createLease.ts, with http/provider-error-reason.ts,
-- error-diagnostics.ts, compatibility.ts and tools/resolveLeaseProvider.ts beside them: the errors that a
-- deployment throws, and how its catch reads them. A property that throws when it is read is
-- `undefined`. `JSON.parse` is a parameter, none where it throws.
pub mod Compatibility
pub mod Creation
pub mod Preflight
pub mod Failure
pub mod Deploy
pub mod Envelope
pub mod Details
pub mod Report
pub mod Vetting
pub mod Guards
pub mod Steps
pub mod Outcomes
pub mod Extraction
pub mod Success
pub mod Tests
use manifest_mcp_mono.Common.{
  ℕ, zero, suc, Bool, true, false, ◌&&◌, ◌||◌, not, List, [], ◌∷◌, ◌++◌, Option, none, some, Text,
  codes, same_text, ◌==◌, leb, is_digit, Datum, undefined, number, string, object, Members,
  no_members, member, field, is_some, if◌then◌else◌,
}
use manifest_mcp_mono.LeaseWait.{ProviderErrorKind, http, poll_verdict}
use manifest_mcp_mono.LeaseWait.Poll.{
  TerminalChainLeaseState, chain_closed, chain_rejected, chain_expired,
}
use manifest_mcp_mono.DeployOutcome.{is_plain_object, text_of, is_text}

-- TerminalChainStateContext
pub record ChainContext : Type 0 where
  pub lease_uuid : Option Text
  pub provider_uuid : Option Text
  pub provider_url : Option Text

-- What a catch reads of a LeaseReadinessUnconfirmedError.
pub record Unconfirmed : Type 0 where
  pub reason : Text
  pub last_state : Option Text
  pub last_provision_status : Option Text

-- `sdk_error` is a ManifestMCPError; the next three are a ProviderApiError and its two subclasses.
pub data Thrown : Type 0 where
  sdk_error : (code : Datum) (message : Text) (details : Members) → Thrown
  provider_error : (status : Option ℕ) (kind : ProviderErrorKind) (message : Text) → Thrown
  chain_terminal : TerminalChainLeaseState → (lease_uuid : Text) → ChainContext → Thrown
  unconfirmed : Unconfirmed → (message : Text) → Thrown
  other_error : (message : Text) → Thrown

abbrev pub invalid_config : Text → Thrown
invalid_config message = sdk_error (string (codes "INVALID_CONFIG")) message no_members

abbrev pub query_failed : Text → Thrown
query_failed message = sdk_error (string (codes "QUERY_FAILED")) message no_members

abbrev pub tx_failed : Text → Thrown
tx_failed message = sdk_error (string (codes "TX_FAILED")) message no_members

abbrev chain_state_name : TerminalChainLeaseState → Text
chain_state_name chain_closed = codes "LEASE_STATE_CLOSED"
chain_state_name chain_rejected = codes "LEASE_STATE_REJECTED"
chain_state_name chain_expired = codes "LEASE_STATE_EXPIRED"

abbrev pub terminal_message : TerminalChainLeaseState → Text → Text
terminal_message s lease_uuid =
    codes "Lease "
    ++ lease_uuid
    ++ codes " entered terminal state "
    ++ chain_state_name s
    ++ codes " on chain"

-- `errorMessageOf`
abbrev pub error_message_of : Thrown → Text
error_message_of (sdk_error code message details) = message
error_message_of (provider_error status kind message) = message
error_message_of (chain_terminal s lease_uuid context) = terminal_message s lease_uuid
error_message_of (unconfirmed u message) = message
error_message_of (other_error message) = message

abbrev pub kind_of : Thrown → Option ProviderErrorKind
kind_of (provider_error status kind message) = some kind
kind_of _ = none

-- `/^[a-z][a-z0-9_]{0,63}$/`
abbrev is_lower : ℕ → Bool
is_lower c = leb b'a' c && leb c b'z'

unfoldable reason_rest : ℕ → Text → Bool
reason_rest n [] = true
reason_rest zero (c ∷ s) = false
reason_rest (suc n) (c ∷ s) = (is_lower c || is_digit c || c == b'_') && reason_rest n s

unfoldable pub is_reason : Text → Bool
unfolding reason_rest
is_reason [] = false
is_reason (c ∷ s) = is_lower c && reason_rest 63 s

pub record FredErrorBody : Type 0 where
  pub status : ℕ
  pub error : Option Text
  pub reason : Option Text

abbrev is_number : Datum → ℕ → Bool
is_number (number m) n = m == n
is_number _ n = false

abbrev identifier : Option Text → Option Text
identifier none = none
identifier (some t) = if is_reason t then some t else none

abbrev body_of : ℕ → Datum → Option FredErrorBody
body_of status body =
    if is_plain_object body && is_number (field "code" body) status
    then some record {
      status = status;
      error = text_of (field "error" body);
      reason = identifier (text_of (field "reason" body));
    }
    else none

module _ (parse_json : Text → Option Datum) where
  abbrev answered_body : ℕ → Text → Option FredErrorBody
  answered_body status message =
      if leb 400 status && leb status 599
      then elim (parse_json message) [ none ↦ none | some body ↦ body_of status body ]
      else none

  -- `fredErrorBody`
  unfoldable pub fred_error_body : Thrown → Option FredErrorBody
  fred_error_body (provider_error (some status) http message) = answered_body status message
  fred_error_body _ = none

  abbrev is_given : Option Text → Text → Bool
  is_given none t = false
  is_given (some u) t = same_text u t

  unfoldable pub is_billing_only_payload_refusal : Thrown → Bool
  unfolding fred_error_body
  is_billing_only_payload_refusal error = elim (fred_error_body error) [
    | none ↦ false
    | some body ↦
        body.status == 400
        && (is_given body.reason (codes "billing_only")
            || is_given body.error (codes "lease is billing-only and does not accept a payload"))
  ]

-- `o[key] = v`, and the same in an object literal after a spread: a key that is there keeps its place.
abbrev pub assign : Text → Datum → Members → Members
assign key v no_members = member key v no_members
assign key v (member k u ms) =
    let rest = assign key v ms in if same_text k key then member k v ms else member k u rest

-- `...(o !== undefined && { [key]: o })`
abbrev pub assign_text : Text → Option Text → Members → Members
assign_text key none ms = ms
assign_text key (some t) ms = assign key (string t) ms
