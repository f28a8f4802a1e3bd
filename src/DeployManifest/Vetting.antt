-- ===== src/DeployManifest/Vetting.antt =====
-- packages/fred/src/tools/deployManifest.ts: what the checks have established when they end well.
use mathlib.Core.Path.{subst}
use manifest_mcp_mono.Common.{
  ◌≡◌, refl, sym, inl, inr, true, false, List, [], ◌++◌, Option, none, some, String, Text, codes,
  arith, Bool-cases, Result, ok, ok-injective, Option-cases, >>=-ok, str_eq,
}
use manifest_mcp_mono.SkuResolution.{SkuError}
use manifest_mcp_mono.DeployManifest.{Thrown}
use manifest_mcp_mono.DeployManifest.Compatibility.{
  FredCompatibility, v0_13, pr240, same_mode, resolve_fred_compatibility,
}
use manifest_mcp_mono.DeployManifest.Preflight.{
  DeploySpec, ValidatedPayload, Answers, Plan, is_stack, services_of, is_filled, names_service,
  check_service, only_manifest_wide, app_items, revalidate, resolve_provider_url, check_domain,
  select_sku, storage_items, preflight,
}

-- Which custom domain goes with which service.
pub data FitsDomain (trim : String → String) (parse_fqdn : String → Result Thrown Text)
    (spec : DeploySpec) (p : ValidatedPayload) (domain : Option Text) : Type 0 where
  no_domain :
      spec.custom_domain ≡ none
      → spec.service_name ≡ none
      → domain ≡ none
      → FitsDomain trim parse_fqdn spec p domain
  of_service :
      {d : String} {f : Text}
      → spec.custom_domain ≡ some d
      → str_eq (trim d) "" ≡ false
      → parse_fqdn d ≡ ok f
      → domain ≡ some f
      → is_stack p ≡ true
      → names_service spec.service_name p.service_names ≡ true
      → FitsDomain trim parse_fqdn spec p domain
  of_single :
      {d : String} {f : Text}
      → spec.custom_domain ≡ some d
      → str_eq (trim d) "" ≡ false
      → parse_fqdn d ≡ ok f
      → domain ≡ some f
      → is_stack p ≡ false
      → is_filled spec.service_name ≡ false
      → FitsDomain trim parse_fqdn spec p domain

same_mode_sound : (a b : FredCompatibility) → same_mode a b ≡ true → a ≡ b
same_mode_sound v0_13 v0_13 h = refl
same_mode_sound pr240 pr240 h = refl
same_mode_sound v0_13 pr240 h = cc h
same_mode_sound pr240 v0_13 h = cc h

revalidate_lem :
    (w : Answers) (manifest : Text) (initial m : FredCompatibility) (p : ValidatedPayload)
    → w.validate manifest initial ≡ ok p
    → revalidate w manifest initial m ≡ ok tt
    → (q : ValidatedPayload) × (w.validate manifest m ≡ ok q)
unfolding revalidate
revalidate_lem w manifest initial m p first h = elim (Bool-cases (same_mode m initial)) [
  | inl same ↦ (p, rw (same_mode_sound m initial same) first)
  | inr new ↦ let (q, again, _) = >>=-ok (w.validate manifest m) _ tt (rw new at h) in (q, again)
]

check_service-stack :
    (service : Option Text) (names : List Text)
    → check_service true service names ≡ ok tt
    → names_service service names ≡ true
unfolding check_service
check_service-stack service names h = ground (arith, h)

check_service-single :
    (service : Option Text) (names : List Text)
    → check_service false service names ≡ ok tt
    → is_filled service ≡ false
unfolding check_service
check_service-single service names h = ground (arith, h)

services_of-stack : (p : ValidatedPayload) → is_stack p ≡ true → services_of p ≡ p.service_names
services_of-stack p h = rw h refl

module _ (trim : String → String) (parse_fqdn : String → Result Thrown Text)
    (hash_hex : Text → Text) (sku_refused : SkuError → Thrown) (provider_key : Text → Option Text)
    (spec : DeploySpec) where
  abbrev FitsThe : ValidatedPayload → Option Text → Type 0
  FitsThe = FitsDomain trim parse_fqdn spec

  fits_service :
      (p : ValidatedPayload) (d : String) (f : Text)
      → spec.custom_domain ≡ some d
      → str_eq (trim d) "" ≡ false
      → parse_fqdn d ≡ ok f
      → check_service (is_stack p) spec.service_name (services_of p) ≡ ok tt
      → FitsThe p (some f)
  fits_service p d f given filled parsed h = elim (Bool-cases (is_stack p)) [
    | inl t ↦
        of_service given filled parsed refl t
          (check_service-stack spec.service_name p.service_names (rw t at h))
    | inr n ↦
        of_single given filled parsed refl n (check_service-single spec.service_name [] (rw n at h))
  ]

  check_domain_given :
      (p : ValidatedPayload) (d : String) (domain : Option Text)
      → spec.custom_domain ≡ some d
      → check_domain trim parse_fqdn hash_hex sku_refused provider_key spec p ≡ ok domain
      → FitsThe p domain
  unfolding check_domain
  check_domain_given p d domain given h = elim (Bool-cases (str_eq (trim d) "")) [
    | inl blank ↦ cc (rw (given, blank) at h)
    | inr filled ↦
        let (f, parsed, h1) = >>=-ok (parse_fqdn d) _ domain (rw (given, filled) at h) in
        let (done, fits, h2) =
          >>=-ok (check_service (is_stack p) spec.service_name (services_of p)) _ domain h1 in
        subst (FitsThe p) (ok-injective (some f) domain (ok (some f)) refl h2)
          (fits_service p d f given filled parsed fits)
  ]

  check_domain_absent :
      (p : ValidatedPayload) (domain : Option Text)
      → spec.custom_domain ≡ none
      → check_domain trim parse_fqdn hash_hex sku_refused provider_key spec p ≡ ok domain
      → FitsThe p domain
  unfolding check_domain
  check_domain_absent p domain absent h = elim (Option-cases spec.service_name) [
    | inl unnamed ↦
        no_domain absent unnamed
          (sym (ok-injective none domain (ok none) refl (rw (absent, unnamed) at h)))
    | inr (s, named) ↦ cc (rw (absent, named) at h)
  ]

  check_domain-FitsDomain :
      (p : ValidatedPayload) (domain : Option Text)
      → check_domain trim parse_fqdn hash_hex sku_refused provider_key spec p ≡ ok domain
      → FitsThe p domain
  check_domain-FitsDomain p domain h = elim (Option-cases spec.custom_domain) [
    | inl absent ↦ check_domain_absent p domain absent h
    | inr (d, given) ↦ check_domain_given p d domain given h
  ]

  -- All that a plan rests on; `mode` is the contract of the provider that the deployment goes to.
  pub record IsVetted (w : Answers) (plan : Plan) : Type 0 where
    pub payload : ValidatedPayload
    pub initial : FredCompatibility
    pub mode : FredCompatibility
    pub sku : String × String
    pub storage : List Text
    pub first_valid : w.validate spec.manifest initial ≡ ok payload
    pub mode_is :
        resolve_fred_compatibility provider_key w.fred_compatibility
          (some plan.provider_url)
          w.override
        ≡ ok mode
    pub last_valid : (q : ValidatedPayload) × (w.validate spec.manifest mode ≡ ok q)
    pub domain_fits : FitsThe payload plan.custom_domain
    pub sku_is : select_sku trim parse_fqdn hash_hex sku_refused provider_key w spec.sku ≡ ok sku
    pub storage_is :
        storage_items trim parse_fqdn hash_hex sku_refused provider_key w sku.1 spec.storage
        ≡ ok storage
    pub url_is : resolve_provider_url w (codes sku.1) ≡ ok plan.provider_url
    pub provider_is : plan.provider_uuid ≡ codes sku.1
    pub items_are : plan.lease_items ≡ app_items (codes sku.0) payload ++ storage
    pub bytes_are : plan.manifest_bytes ≡ payload.bytes
    pub hash_is : plan.meta_hash_hex ≡ hash_hex spec.manifest

  pub preflight-IsVetted :
      (w : Answers) (plan : Plan)
      → preflight trim parse_fqdn hash_hex sku_refused provider_key w spec ≡ ok plan
      → IsVetted w plan
  unfolding preflight
  preflight-IsVetted w plan h =
      let (initial, i, h1) =
        >>=-ok
          (resolve_fred_compatibility provider_key (only_manifest_wide w.fred_compatibility) none
            w.override)
          _ plan h in
      let (payload, v, h2) = >>=-ok (w.validate spec.manifest initial) _ plan h1 in
      let (domain, d, h3) =
        >>=-ok (check_domain trim parse_fqdn hash_hex sku_refused provider_key spec payload) _ plan
          h2 in
      let (address, _, h4) = >>=-ok w.address _ plan h3 in
      let (_, _, h5) = >>=-ok w.rate_limit _ plan h4 in
      let (sku, s, h6) =
        >>=-ok (select_sku trim parse_fqdn hash_hex sku_refused provider_key w spec.sku) _ plan
          h5 in
      let (storage, t, h7) =
        >>=-ok
          (storage_items trim parse_fqdn hash_hex sku_refused provider_key w sku.1 spec.storage) _
          plan h6 in
      let (url, u, h8) = >>=-ok (resolve_provider_url w (codes sku.1)) _ plan h7 in
      let (mode, m, h9) =
        >>=-ok (resolve_fred_compatibility provider_key w.fred_compatibility (some url) w.override)
          _ plan h8 in
      let (_, r, h10) = >>=-ok (revalidate w spec.manifest initial mode) _ plan h9 in
      subst (IsVetted w) (ok-injective _ plan (ok _) refl h10) record {
        payload = payload;
        initial = initial;
        mode = mode;
        sku = sku;
        storage = storage;
        first_valid = v;
        mode_is = m;
        last_valid = revalidate_lem w spec.manifest initial mode payload v r;
        domain_fits = check_domain-FitsDomain payload domain d;
        sku_is = s;
        storage_is = t;
        url_is = u;
        provider_is = refl;
        items_are = refl;
        bytes_are = refl;
        hash_is = refl;
      }
