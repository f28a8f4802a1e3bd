-- ===== src/SkuResolution.antt =====
-- packages/core/src/sku-resolution.ts: from a tier name, a provider and a SKU id to one SKU. The list
-- that the chain answers to the query for active SKUs is an argument; the query's paging, its signal
-- and the wording of the messages are left out. The runtime's `trim` is a parameter.
pub mod Choice
pub mod Tests
use mathlib.Core.Option
use manifest_mcp_mono.Common.{
  ℕ, zero, suc, ◌-◌, Bool, true, false, List, [], ◌∷◌, ◌&&◌, not, Option, none, some, String, map,
  find, keep_if, str_eq, str_mem, length, if◌then◌else◌, get_or_else,
}

pub data BillingUnit : Type 0 where
  hour day : BillingUnit

pub record Price : Type 0 where
  pub amount : String
  pub denom : String

pub record SkuCandidate : Type 0 where
  pub sku_uuid : String
  pub provider_uuid : String
  pub name : String
  pub price : Option Price
  pub billing_unit : Option BillingUnit
  pub active : Bool

-- A SKU as the chain sends it. `UNIT_PER_HOUR` is 1 and `UNIT_PER_DAY` is 2.
pub data SkuUnit : Type 0 where
  unit_per_hour unit_per_day other_unit : SkuUnit

pub record ChainSku : Type 0 where
  pub uuid : String
  pub name : String
  pub provider_uuid : String
  pub base_price : Option Price
  pub unit : SkuUnit
  pub active : Option Bool

pub billing_unit_of : SkuUnit → Option BillingUnit
billing_unit_of unit_per_hour = some hour
billing_unit_of unit_per_day = some day
billing_unit_of other_unit = none

pub to_candidate : ChainSku → SkuCandidate
unfolding billing_unit_of
to_candidate s = record {
  sku_uuid = s.uuid;
  provider_uuid = s.provider_uuid;
  name = s.name;
  price = s.base_price;
  billing_unit = billing_unit_of s.unit;
  active = get_or_else s.active true;
}

pub record ResolveSkuInput : Type 0 where
  pub size : String
  pub provider_uuid : Option String
  pub sku_uuid : Option String

-- The errors, with what their messages and details name.
pub data SkuError : Type 0 where
  sku_not_found : (sku_uuid : String) → SkuError
  wrong_provider : (sku_uuid owner requested : String) → SkuError
  tier_not_found : (size : String) (shown : List String) (total : ℕ) → SkuError
  not_on_provider : (size provider_uuid : String) (offered_by : List String) → SkuError
  ambiguous : (size : String) → List SkuCandidate → SkuError

pub data Resolved : Type 0 where
  ok : SkuCandidate → Resolved
  err : SkuError → Resolved

-- `[...new Set(xs)]`: each text once, at its first place.
unique_from : List String → List String → List String
unique_from seen [] = []
unique_from seen (x ∷ xs) =
    if str_mem x seen then unique_from seen xs else x ∷ unique_from (x ∷ seen) xs

pub unique : List String → List String
unfolding unique_from
unique xs = unique_from [] xs

abbrev pub max_shown : ℕ
max_shown = 20

abbrev take : ℕ → List String → List String
take zero xs = []
take (suc n) [] = []
take (suc n) (x ∷ xs) = x ∷ take n xs

abbrev pub has_name : String → SkuCandidate → Bool
has_name size s = str_eq s.name size

abbrev pub on_provider : String → SkuCandidate → Bool
on_provider provider s = str_eq s.provider_uuid provider

-- `throw ambiguous` on more than one, the first otherwise; `named` is not empty at either call.
pub pick : String → List SkuCandidate → SkuError → Resolved
pick size [] missing = err missing
pick size (c ∷ []) missing = ok c
pick size (c ∷ d ∷ rest) missing = err (ambiguous size (c ∷ d ∷ rest))

pub check_provider : String → Option String → SkuCandidate → Resolved
check_provider sku none hit = ok hit
check_provider sku (some provider) hit =
    if str_eq provider hit.provider_uuid
    then ok hit
    else err (wrong_provider sku hit.provider_uuid provider)

pub by_uuid : String → Option String → List SkuCandidate → Resolved
unfolding check_provider
by_uuid sku provider all = elim (find (λ s. str_eq s.sku_uuid sku) all) [
  | none ↦ err (sku_not_found sku)
  | some hit ↦ check_provider sku provider hit
]

pub narrow : String → Option String → List SkuCandidate → Resolved
unfolding pick unique
narrow size none named = pick size named (tier_not_found size [] 0)
narrow size (some provider) named =
    pick size (keep_if (on_provider provider) named)
      (not_on_provider size provider (unique (map (λ s. s.provider_uuid) named)))

-- By name: the candidates of that name, then the provider.
pub among : String → Option String → List SkuCandidate → List SkuCandidate → Resolved
unfolding narrow
among size provider all [] =
    let names = unique (map (λ s. s.name) all) in
    err (tier_not_found size (take max_shown names) (length names))
among size provider all (c ∷ cs) = narrow size provider (c ∷ cs)

pub by_name : String → Option String → List SkuCandidate → Resolved
unfolding among
by_name size provider all = among size provider all (keep_if (has_name size) all)

module _ (trim : String → String) where
  -- `s?.trim() || undefined`
  pub given : Option String → Option String
  given none = none
  given (some s) = if str_eq (trim s) "" then none else some (trim s)

  pub list_sku_candidates : List ChainSku → String → Option String → List SkuCandidate
  unfolding given to_candidate
  list_sku_candidates skus size provider_uuid =
      let named = keep_if (has_name (trim size)) (map to_candidate skus) in
      elim (given provider_uuid) [
        | none ↦ named
        | some provider ↦ keep_if (on_provider provider) named
      ]

  pub resolve_sku : List ChainSku → ResolveSkuInput → Resolved
  unfolding given to_candidate by_uuid by_name
  resolve_sku skus input =
      let all = map to_candidate skus in
      elim (given input.sku_uuid) [
        | some sku ↦ by_uuid sku (given input.provider_uuid) all
        | none ↦ by_name (trim input.size) (given input.provider_uuid) all
      ]
