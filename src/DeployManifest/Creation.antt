-- ===== src/DeployManifest/Creation.antt =====
-- packages/fred/src/tools/createLease.ts: the lease's id out of the events of a transaction.
use manifest_mcp_mono.Common.{
  Bool, false, ◌||◌, List, [], ◌∷◌, Option, none, some, Text, codes, same_text, ◌==◌, Result, ok,
  err, if◌then◌else◌,
}
use manifest_mcp_mono.Retry.Message.{includes}
use manifest_mcp_mono.DeployOutcome.{uuid_pattern, match_at}
use manifest_mcp_mono.DeployManifest.{Thrown, tx_failed}

pub record Attribute : Type 0 where
  pub key : Text
  pub value : Text

pub record Event : Type 0 where
  pub event_type : Text
  pub attributes : List Attribute

-- `replace(/^"|"$/g, '')`: one quote at either end.
abbrev pub drop_last_quote : Text → Text
drop_last_quote [] = []
drop_last_quote (c ∷ []) = if c == b'"' then [] else c ∷ []
drop_last_quote (c ∷ d ∷ s) = c ∷ drop_last_quote (d ∷ s)

abbrev pub drop_first_quote : Text → Text
drop_first_quote [] = []
drop_first_quote (c ∷ s) = if c == b'"' then s else c ∷ s

unfoldable pub strip_quotes : Text → Text
strip_quotes s = drop_last_quote (drop_first_quote s)

abbrev is_match : Text → Option Text → Bool
is_match s none = false
is_match s (some u) = same_text u s

-- `UUID_RE`: the whole text.
unfoldable pub is_uuid : Text → Bool
is_uuid s = is_match s (match_at uuid_pattern s)

-- `requireUuid` with TX_FAILED; the value that the second message shows is left out.
abbrev pub require_uuid : Text → Result Thrown Text
require_uuid [] = err (tx_failed (codes "lease_uuid is required and must be a non-empty string"))
require_uuid (c ∷ s) =
    if is_uuid (c ∷ s)
    then ok (c ∷ s)
    else err (tx_failed (codes "lease_uuid must be a valid UUID"))

abbrev pub is_lease_event : Event → Bool
is_lease_event e = includes (codes "lease") e.event_type || includes (codes "Lease") e.event_type

abbrev pub is_lease_key : Text → Bool
is_lease_key key = same_text key (codes "lease_uuid") || same_text key (codes "uuid")

abbrev pub find_attribute : List Attribute → Option Text
find_attribute [] = none
find_attribute (a ∷ rest) = if is_lease_key a.key then some a.value else find_attribute rest

abbrev pub lease_attribute : List Event → Option Text
lease_attribute [] = none
lease_attribute (e ∷ rest) =
    let later = lease_attribute rest in
    if is_lease_event e
    then elim (find_attribute e.attributes) [ some raw ↦ some raw | none ↦ later ]
    else later

abbrev pub extract_from : List Event → Result Thrown Text
extract_from events = elim (lease_attribute events) [
  | some raw ↦ require_uuid (strip_quotes raw)
  | none ↦ err (tx_failed (codes "Could not find lease UUID in transaction events"))
]

unfoldable pub extract_lease_uuid : Option (List Event) → Result Thrown Text
unfolding strip_quotes is_uuid
extract_lease_uuid none =
    err (tx_failed (codes "No events in transaction result; cannot extract lease UUID"))
extract_lease_uuid (some events) = extract_from events

-- The arguments of `billing create-lease`.
abbrev pub create_lease_args : (meta_hash_hex : Text) (lease_items : List Text) → List Text
create_lease_args meta_hash_hex lease_items = codes "--meta-hash" ∷ meta_hash_hex ∷ lease_items
