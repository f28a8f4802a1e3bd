-- ===== src/DeployOutcome.antt =====
-- packages/agent-core/src/internals/classify-deploy-error.ts: what an error of a deployment that was
-- under way says. An accessor that throws reads as undefined there, so it is a member of that value.
pub mod Prefix
pub mod Envelope
pub mod Lease
pub mod Uuid
pub mod Response
pub mod Verdict
pub mod Running
pub mod States
pub mod Judgement
pub mod Recovery
pub mod Secrets
pub mod Tests
use manifest_mcp_mono.Common.{
  ℕ, Bool, true, false, ◌&&◌, ◌||◌, not, List, [], ◌∷◌, ◌++◌, Option, none, some, Text, codes,
  same_text, ◌==◌, leb, Datum, undefined, null, truth, number, string, other, array, object, field,
  if◌then◌else◌,
}
use manifest_mcp_mono.Retry.Message.{starts_with}

-- `value !== null && typeof value === 'object'`
abbrev pub is_object : Datum → Bool
is_object (array xs) = true
is_object (object ms) = true
is_object _ = false

-- The same, and no array.
abbrev pub is_plain_object : Datum → Bool
is_plain_object (object ms) = true
is_plain_object _ = false

abbrev pub text_of : Datum → Option Text
text_of (string t) = some t
text_of _ = none

abbrev pub is_true : Datum → Bool
is_true (truth b) = b
is_true _ = false

abbrev pub is_text : Datum → Text → Bool
is_text (string t) u = same_text t u
is_text _ u = false

abbrev pub or_text : Text → Text → Text
or_text [] other_text = other_text
or_text (c ∷ s) other_text = c ∷ s

unfoldable pub is_hex : ℕ → Bool
is_hex c = leb b'0' c && leb c b'9' || leb b'a' c && leb c b'f' || leb b'A' c && leb c b'F'

-- A class of the pattern: a hexadecimal digit, or a dash.
pub data UuidUnit : Type 0 where
  hex dash : UuidUnit

abbrev pub fits : UuidUnit → ℕ → Bool
fits hex c = is_hex c
fits dash c = c == b'-'

abbrev pub hex_4 : List UuidUnit → List UuidUnit
hex_4 rest = hex ∷ hex ∷ hex ∷ hex ∷ rest

abbrev pub uuid_pattern : List UuidUnit
uuid_pattern =
    hex_4 (hex_4 (dash ∷ hex_4 (dash ∷ hex_4 (dash ∷ hex_4 (dash ∷ hex_4 (hex_4 (hex_4 [])))))))

abbrev pub add_unit : ℕ → Option Text → Option Text
add_unit c none = none
add_unit c (some u) = some (c ∷ u)

-- The match of a pattern at the front of a text.
unfoldable pub match_at : List UuidUnit → Text → Option Text
match_at [] s = some []
match_at (k ∷ ks) [] = none
match_at (k ∷ ks) (c ∷ s) = let rest = match_at ks s in if fits k c then add_unit c rest else none

-- `message.match(UUID_PATTERN)`: the leftmost match.
unfoldable pub find_uuid : Text → Option Text
find_uuid [] = none
find_uuid (c ∷ s) = elim (match_at uuid_pattern (c ∷ s)) [ some u ↦ some u | none ↦ find_uuid s ]

pub data DeployFailedStep : Type 0 where
  set_domain upload poll : DeployFailedStep

-- `FAILED_STEPS.find`
abbrev pub failed_step_of : Datum → Option DeployFailedStep
failed_step_of d =
    if is_text d (codes "set_domain")
    then some set_domain
    else if is_text d (codes "upload")
    then some upload
    else if is_text d (codes "poll")
    then some poll
    else none

pub data DeployErrorOutcome : Type 0 where
  partially_succeeded failed : DeployErrorOutcome

-- A flag that is absent is false.
pub record DeployErrorClassification : Type 0 where
  pub outcome : DeployErrorOutcome
  pub lease_uuid : Option Text
  pub requested_custom_domain : Option Text
  pub reason : Text
  pub readiness_unconfirmed : Bool
  pub failed_step : Option DeployFailedStep
  pub billing_only : Bool

abbrev pub pick_envelope : Datum → Datum
pick_envelope raw = let inner = field "error" raw in if is_object inner then inner else raw

abbrev pub envelope_details : Datum → Datum
envelope_details envelope =
    let details = field "details" envelope in if is_plain_object details then details else undefined

abbrev pub message_of : Datum → Text
message_of envelope = elim (text_of (field "message" envelope)) [ none ↦ [] | some t ↦ t ]

abbrev pub partial_prefix : Text
partial_prefix = codes "Deploy partially succeeded:"

unfoldable pub is_partial : Datum → Bool
is_partial envelope =
    is_true (field "partial" (envelope_details envelope))
    || starts_with partial_prefix (message_of envelope)

-- The lease that an error names: its details go before its message.
unfoldable pub named_lease : Datum → Text → Option Text
named_lease details message = elim (text_of (field "lease_uuid" details)) [
  | some u ↦ some u
  | none ↦ find_uuid message
]

abbrev pub failed_with : Text → DeployErrorClassification
failed_with reason = record {
  outcome = failed;
  lease_uuid = none;
  requested_custom_domain = none;
  reason = reason;
  readiness_unconfirmed = false;
  failed_step = none;
  billing_only = false;
}

abbrev pub partial_with : Datum → Text → DeployErrorClassification
partial_with details message = record {
  outcome = partially_succeeded;
  lease_uuid = named_lease details message;
  requested_custom_domain = none;
  reason = or_text message (codes "deploy partially succeeded; lease was created");
  readiness_unconfirmed = is_true (field "readiness_unconfirmed" details);
  failed_step = failed_step_of (field "failedStep" details);
  billing_only = is_true (field "billing_only" details);
}

abbrev pub finalize : DeployErrorClassification → Option Text → DeployErrorClassification
finalize base none = base
finalize base (some d) = record base { requested_custom_domain = some d }

unfoldable pub classify_envelope : Datum → Option Text → DeployErrorClassification
classify_envelope e expected_custom_domain =
    if not (is_object e)
    then finalize (failed_with (codes "stdin envelope is not an object")) expected_custom_domain
    else if is_partial e
    then finalize (partial_with (envelope_details e) (message_of e)) expected_custom_domain
    else finalize (failed_with (or_text (message_of e) (codes "deploy_app threw an empty error")))
        expected_custom_domain

unfoldable pub classify_deploy_error : Datum → Option Text → DeployErrorClassification
classify_deploy_error err expected_custom_domain =
    classify_envelope (pick_envelope err) expected_custom_domain
