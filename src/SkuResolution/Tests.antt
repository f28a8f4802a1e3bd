-- ===== src/SkuResolution/Tests.antt =====
-- A catalogue of three SKUs, and the theorems on it.
use manifest_mcp_mono.Common.{◌≡◌, refl, List, [], ◌∷◌, none, some, true, String, map, In}
use manifest_mcp_mono.SkuResolution.{
  SkuCandidate, ChainSku, unit_per_hour, unit_per_day, hour, day, to_candidate, ResolveSkuInput,
  sku_not_found, wrong_provider, tier_not_found, not_on_provider, ambiguous, ok, err, given,
  resolve_sku,
}
use manifest_mcp_mono.SkuResolution.Choice.{Names, resolved_by_name}

-- The texts of the tests hold no outer spaces.
trimmed : String → String
trimmed s = s

abbrev small : ChainSku
small = record {
  uuid = "u1";
  name = "docker-micro";
  provider_uuid = "p1";
  base_price = some (record { amount = "10"; denom = "upwr" });
  unit = unit_per_hour;
  active = some true;
}

abbrev catalogue : List ChainSku
catalogue =
    small
    ∷ record small { uuid = "u2"; provider_uuid = "p2"; unit = unit_per_day }
    ∷ record small { uuid = "u3"; name = "docker-large"; active = none }
    ∷ []

abbrev ask : String → ResolveSkuInput
ask size = record { size = size; provider_uuid = none; sku_uuid = none }

abbrev on_p2 : ResolveSkuInput
on_p2 = record (ask "docker-micro") { provider_uuid = some "p2" }

abbrev chosen : SkuCandidate
chosen = record {
  sku_uuid = "u2";
  provider_uuid = "p2";
  name = "docker-micro";
  price = some (record { amount = "10"; denom = "upwr" });
  billing_unit = some day;
  active = true;
}

resolutions :
    (resolve_sku trimmed catalogue on_p2 ≡ ok chosen)
    × (resolve_sku trimmed catalogue (record (ask "nano") { sku_uuid = some "u2" }) ≡ ok chosen)
    × (resolve_sku trimmed catalogue (record on_p2 { sku_uuid = some "u9" })
        ≡ err (sku_not_found "u9"))
    × (resolve_sku trimmed catalogue (record on_p2 { sku_uuid = some "u1" })
        ≡ err (wrong_provider "u1" "p1" "p2"))
    × (resolve_sku trimmed catalogue (ask "nano")
        ≡ err (tier_not_found "nano" ("docker-micro" ∷ "docker-large" ∷ []) 2))
    × (resolve_sku trimmed catalogue (record (ask "docker-micro") { provider_uuid = some "p7" })
        ≡ err (not_on_provider "docker-micro" "p7" ("p1" ∷ "p2" ∷ [])))
unfolding resolve_sku trimmed
resolutions = (refl, refl, refl, refl, refl, refl)

resolved_by_name_example :
    In chosen (map to_candidate catalogue)
    × Names trimmed catalogue on_p2 chosen
    × ((d : SkuCandidate)
        → In d (map to_candidate catalogue)
        → Names trimmed catalogue on_p2 d
        → d ≡ chosen)
unfolding given
resolved_by_name_example = resolved_by_name trimmed catalogue on_p2 chosen refl resolutions.0

abbrev both : List SkuCandidate
both =
    record chosen { sku_uuid = "u1"; provider_uuid = "p1"; billing_unit = some hour } ∷ chosen ∷ []

ambiguous_run :
    resolve_sku trimmed catalogue (ask "docker-micro") ≡ err (ambiguous "docker-micro" both)
unfolding resolve_sku trimmed
ambiguous_run = refl
