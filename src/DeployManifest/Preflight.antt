-- ===== src/DeployManifest/Preflight.antt =====
-- packages/fred/src/tools/deployManifest.ts, up to the transaction, and tools/resolveLeaseProvider.ts:
-- what a deployment checks and reads before anything is paid for. The answers of the chain, of the
-- validation of the manifest and of what is not this repository's are a record.
use manifest_mcp_mono.Common.{
  ℕ, Bool, true, false, ◌||◌, not, List, [], ◌∷◌, ◌++◌, map, any, Option, none, some, Text, codes,
  same_text, String, str_eq, Datum, undefined, string, is_some, Result, ok, err, ◌>>=◌, ◌>>◌,
  if◌then◌else◌,
}
use manifest_mcp_mono.SkuResolution
use manifest_mcp_mono.SkuResolution.{ResolveSkuInput, ChainSku, SkuError, SkuCandidate, resolve_sku}
use manifest_mcp_mono.DeployManifest.{
  Thrown, sdk_error, provider_error, chain_terminal, unconfirmed, other_error, invalid_config,
  query_failed,
}
use manifest_mcp_mono.DeployManifest.Compatibility.{
  FredCompatibility, same_mode, resolve_fred_compatibility,
}

pub data SkuIntent : Type 0 where
  resolved : (sku_uuid provider_uuid : String) → SkuIntent
  by_name : ResolveSkuInput → SkuIntent

-- ManifestDeploySpec
pub record DeploySpec : Type 0 where
  pub manifest : Text
  pub sku : SkuIntent
  pub custom_domain : Option String
  pub service_name : Option Text
  pub storage : Option String

pub data ManifestFormat : Type 0 where
  single stack : ManifestFormat

-- What parseAndValidateManifestPayload returns, `service_names` being getServiceNames of `parsed`.
pub record ValidatedPayload : Type 0 where
  pub bytes : List ℕ
  pub format : ManifestFormat
  pub service_names : List Text

-- The answers before the transaction; `fred_compatibility` and `override` are the caller's.
pub record Answers : Type 0 where
  pub fred_compatibility : Datum
  pub override : Datum
  pub validate : Text → FredCompatibility → Result Thrown ValidatedPayload
  pub address : Result Thrown Text
  pub rate_limit : Result Thrown (Unit {0})
  pub skus : Result Thrown (List ChainSku)
  pub storage_skus : Result Thrown (List ChainSku)
  pub provider_api_url : Result Thrown (Option Text)
  pub validate_provider_url : Text → Result Thrown Text

-- What the transaction and all that follows it take from the checks.
pub record Plan : Type 0 where
  pub manifest_bytes : List ℕ
  pub custom_domain : Option Text
  pub meta_hash_hex : Text
  pub provider_uuid : Text
  pub provider_url : Text
  pub lease_items : List Text

abbrev pub is_stack : ValidatedPayload → Bool
is_stack p = elim p.format [ stack ↦ true | single ↦ false ]

abbrev pub services_of : ValidatedPayload → List Text
services_of p = if is_stack p then p.service_names else []

-- `if (o)` on a text that may be absent
abbrev pub is_filled : Option Text → Bool
is_filled none = false
is_filled (some []) = false
is_filled (some (c ∷ s)) = true

abbrev pub names_service : Option Text → List Text → Bool
names_service none names = false
names_service (some s) names = any (λ n. same_text n s) names

-- A custom domain on a stack names one of its services; on a single service, none.
unfoldable pub check_service : Bool → Option Text → List Text → Result Thrown (Unit {0})
check_service true service names =
    if not (is_filled service)
    then err (
        invalid_config (codes "serviceName is required when setting customDomain on a stack lease"))
    else if names_service service names
    then ok tt
    else err (invalid_config (codes "serviceName does not match any service"))
check_service false service names =
    if is_filled service
    then err (invalid_config (codes "serviceName must not be set on a single-service deployment"))
    else ok tt

abbrev pub only_manifest_wide : Datum → Datum
only_manifest_wide (string t) = string t
only_manifest_wide _ = undefined

abbrev is_blank_as : (String → String) → String → Bool
is_blank_as trim s = str_eq (trim s) ""

-- The `catch` of resolveProviderUrl.
abbrev pub provider_failure : Text → Thrown → Thrown
provider_failure provider_uuid (sdk_error code message details) = sdk_error code message details
provider_failure provider_uuid (provider_error status kind message) =
    provider_error status kind message
provider_failure provider_uuid (chain_terminal s lease context) = chain_terminal s lease context
provider_failure provider_uuid (unconfirmed u message) = unconfirmed u message
provider_failure provider_uuid (other_error message) = query_failed (
    codes "Failed to resolve provider \""
    ++ provider_uuid
    ++ codes "\" via SKU module: "
    ++ message)

abbrev rethrow_as : (Thrown → Thrown) → Result Thrown Text → Result Thrown Text
rethrow_as f (ok a) = ok a
rethrow_as f (err e) = err (f e)

abbrev api_url : Answers → Text → Option Text → Result Thrown Text
api_url w provider_uuid (some (c ∷ s)) = w.validate_provider_url (c ∷ s)
api_url w provider_uuid _ =
    err (query_failed (codes "Provider \"" ++ provider_uuid ++ codes "\" has no API URL"))

unfoldable pub resolve_provider_url : Answers → Text → Result Thrown Text
resolve_provider_url w [] =
    err (query_failed (codes "Provider UUID is empty; the lease may not have an assigned provider"))
resolve_provider_url w (c ∷ s) =
    rethrow_as (provider_failure (c ∷ s)) (w.provider_api_url >>= api_url w (c ∷ s))

-- One item, or one for each service.
unfoldable pub app_items : Text → ValidatedPayload → List Text
app_items sku p =
    if is_stack p
    then map (λ n. sku ++ codes ":1:" ++ n) (services_of p)
    else (sku ++ codes ":1") ∷ []

-- A manifest that has passed under one mode is validated again only under another.
unfoldable pub revalidate :
    Answers → Text → FredCompatibility → FredCompatibility → Result Thrown (Unit {0})
revalidate w manifest initial compatibility =
    if same_mode compatibility initial
    then ok tt
    else w.validate manifest compatibility >>= λ again. ok tt

-- `trim`, `parseFqdn`, `metaHashHex` and the wording of a refused SKU.
module _ (trim : String → String) (parse_fqdn : String → Result Thrown Text)
    (hash_hex : Text → Text) (sku_refused : SkuError → Thrown)
    (provider_key : Text → Option Text) where
  unfoldable pub check_domain : DeploySpec → ValidatedPayload → Result Thrown (Option Text)
  unfolding check_service
  check_domain spec p = elim spec.custom_domain [
    | none ↦
        if is_some spec.service_name
        then err (invalid_config (codes "serviceName is only meaningful when customDomain is set"))
        else ok none
    | some domain ↦
        if is_blank_as trim domain
        then err (invalid_config (codes "customDomain cannot be empty or whitespace-only"))
        else (parse_fqdn domain >>= λ parsed.
            check_service (is_stack p) spec.service_name (services_of p) >>= λ done.
            ok (some parsed))
  ]

  abbrev chosen : SkuResolution.Resolved → Result Thrown (String × String)
  chosen (SkuResolution.ok s) = ok (s.sku_uuid, s.provider_uuid)
  chosen (SkuResolution.err e) = err (sku_refused e)

  unfoldable pub select_sku : Answers → SkuIntent → Result Thrown (String × String)
  select_sku w (resolved sku provider) =
      if is_blank_as trim sku || is_blank_as trim provider
      then err (
          invalid_config (
            codes "sku.skuUuid and sku.providerUuid must both be non-empty for a pre-resolved SKU"))
      else ok (sku, provider)
  select_sku w (by_name input) = w.skus >>= λ skus. chosen (resolve_sku trim skus input)

  -- Storage on the provider of the app.
  unfoldable pub storage_items :
      Answers → (provider_uuid : String) → Option String → Result Thrown (List Text)
  storage_items w provider none = ok []
  storage_items w provider (some size) =
      if str_eq size ""
      then ok []
      else (w.storage_skus >>= λ skus.
          chosen (
            resolve_sku trim skus
              record { size = size; provider_uuid = some provider; sku_uuid = none })
          >>= λ picked. ok ((codes picked.0 ++ codes ":1") ∷ []))

  -- All that happens before the signal is looked at for the last time.
  unfoldable pub preflight : Answers → DeploySpec → Result Thrown Plan
  unfolding check_domain select_sku storage_items
  preflight w spec = do
    initial ←
        resolve_fred_compatibility provider_key (only_manifest_wide w.fred_compatibility) none
          w.override
    payload ← w.validate spec.manifest initial
    domain ← check_domain spec payload
    address ← w.address
    w.rate_limit
    sku ← select_sku w spec.sku
    storage ← storage_items w sku.1 spec.storage
    url ← resolve_provider_url w (codes sku.1)
    compatibility ←
        resolve_fred_compatibility provider_key w.fred_compatibility (some url) w.override
    revalidate w spec.manifest initial compatibility
    ok record {
      manifest_bytes = payload.bytes;
      custom_domain = domain;
      meta_hash_hex = hash_hex spec.manifest;
      provider_uuid = codes sku.1;
      provider_url = url;
      lease_items = app_items (codes sku.0) payload ++ storage;
    }
