-- ===== src/AppManifest.antt =====
-- packages/fred/src/manifest.ts: the merge of a new manifest over the one that runs, and what a stack
-- is. `JSON.parse` is a parameter, none where it throws; a section that is a text or an array adds
-- nothing to a merge here.
pub mod Merge
pub mod Payload
pub mod Literals
pub mod Tests
use manifest_mcp_mono.Common.{
  ℕ, zero, suc, Bool, true, false, ◌&&◌, ◌||◌, not, List, [], ◌∷◌, map, any, Option, none, some,
  String, Text, codes, same_text, Datum, undefined, null, truth, number, string, other, array,
  object, Members, no_members, member, member_of, field, Result, ok, err, ◌>>=◌, if◌then◌else◌,
}
use manifest_mcp_mono.DeployManifest.{Thrown, invalid_config, assign}
use manifest_mcp_mono.DeployManifest.Failure.{spread}

-- `key in o`
abbrev pub has_member : Text → Members → Bool
has_member key no_members = false
has_member key (member k v ms) = same_text k key || has_member key ms

abbrev pub is_truthy : Datum → Bool
is_truthy undefined = false
is_truthy null = false
is_truthy (truth b) = b
is_truthy (number zero) = false
is_truthy (number (suc n)) = true
is_truthy (string []) = false
is_truthy (string (c ∷ s)) = true
is_truthy (other n) = true
is_truthy (array xs) = true
is_truthy (object ms) = true

-- What `...d` adds.
abbrev pub members_of : Datum → Members
members_of (object ms) = ms
members_of _ = no_members

-- The old entries under the new ones.
unfoldable pub merge_section : Text → (old merged : Members) → Members
unfolding spread
merge_section key old merged =
    if is_truthy (member_of key old) || is_truthy (member_of key merged)
    then assign key
        (object (
          spread (spread no_members (members_of (member_of key old)))
            (members_of (member_of key merged))))
        merged
    else merged

abbrev pub carry_forward_keys : List Text
carry_forward_keys = map codes (
    "user" ∷ "tmpfs" ∷ "command" ∷ "args" ∷ "health_check" ∷ "stop_grace_period" ∷ "init" ∷ "expose"
    ∷ "depends_on" ∷ [])

abbrev pub carry_key : Text → (old merged : Members) → Members
carry_key key old merged =
    if not (has_member key merged) && has_member key old
    then assign key (member_of key old) merged
    else merged

unfoldable pub carry_forward : List Text → (old merged : Members) → Members
carry_forward [] old merged = merged
carry_forward (key ∷ keys) old merged = carry_forward keys old (carry_key key old merged)

unfoldable pub merge_members : (new old : Members) → Members
merge_members new old = carry_forward carry_forward_keys old (
    merge_section (codes "labels") old
      (merge_section (codes "ports") old (merge_section (codes "env") old (spread no_members new))))

module _ (parse_json : Text → Option Datum) where
  abbrev pub parse_old : Text → Result Thrown Members
  parse_old json = elim (parse_json json) [
    | none ↦ err (invalid_config (codes "existing_manifest contains invalid JSON"))
    | some (object ms) ↦ ok ms
    | some _ ↦ err (invalid_config (codes "existing_manifest must be a JSON object"))
  ]

  unfoldable pub merge_manifest : Members → (old_manifest_json : Text) → Result Thrown Members
  unfolding merge_members
  merge_manifest new json = parse_old json >>= λ old. ok (merge_members new old)

-- A service of a stack is an object with an image.
abbrev is_service : Datum → Bool
is_service (object ms) = has_member (codes "image") ms
is_service _ = false

unfoldable all_services : Members → Bool
all_services no_members = true
all_services (member name service rest) = is_service service && all_services rest

abbrev holds_services : Datum → Bool
holds_services (object no_members) = false
holds_services (object (member name service rest)) = all_services (member name service rest)
holds_services _ = false

unfoldable pub is_stack_manifest : Datum → Bool
unfolding all_services
is_stack_manifest manifest = holds_services (field "services" manifest)

abbrev keys_of : Members → List Text
keys_of no_members = []
keys_of (member name service rest) = name ∷ keys_of rest

unfoldable pub get_service_names : Datum → List Text
unfolding is_stack_manifest
get_service_names manifest =
    if is_stack_manifest manifest then keys_of (members_of (field "services" manifest)) else []
