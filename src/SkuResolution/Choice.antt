-- ===== src/SkuResolution/Choice.antt =====
-- What a resolved SKU is, and when there is one.
use manifest_mcp_mono.Common.{
  ◌≡◌, ◌≢◌, inl, inr, refl, ◌∙◌, sym, List, [], ◌∷◌, Option, none, some, String, map, find,
  find-eq-some, keep_if, In, In-keep_if, In-keep_if_of, str_eq, arith, eq_iff, Option-cases, length,
  ◌<◌,
}
use manifest_mcp_mono.SkuResolution.{
  SkuCandidate, ChainSku, to_candidate, ResolveSkuInput, SkuError, ambiguous, ok, err, has_name,
  on_provider, pick, check_provider, by_uuid, among, by_name, given, resolve_sku,
}

-- The candidate is on the provider, if one is asked for.
abbrev pub OnProvider : Option String → SkuCandidate → Type 0
OnProvider none c = Unit
OnProvider (some provider) c = c.provider_uuid ≡ provider

abbrev pub NamedOn : String → Option String → SkuCandidate → Type 0
NamedOn size provider c = (c.name ≡ size) × OnProvider provider c

pick-eq-ok :
    (size : String) (cs : List SkuCandidate) (e : SkuError) (c : SkuCandidate)
    → pick size cs e ≡ ok c
    → cs ≡ c ∷ []
unfolding pick
pick-eq-ok size [] e c h = cc
pick-eq-ok size (d ∷ []) e c h = ground arith
pick-eq-ok size (d ∷ f ∷ cs) e c h = cc

pick-eq-ambiguous :
    (size : String) (cs ds : List SkuCandidate) (e : SkuError) (s : String)
    → e ≢ ambiguous s ds
    → pick size cs e ≡ err (ambiguous s ds)
    → (ds ≡ cs) × (1 < length ds)
unfolding pick
pick-eq-ambiguous size [] ds e s n h = absurd (n (ground arith))
pick-eq-ambiguous size (d ∷ []) ds e s n h = cc
pick-eq-ambiguous size (d ∷ f ∷ cs) ds e s n h = ground arith

-- The candidates with the name and, if one is asked for, on the provider.
abbrev pub narrowed : Option String → List SkuCandidate → List SkuCandidate
narrowed none named = named
narrowed (some provider) named = keep_if (on_provider provider) named

abbrev pub matching : String → Option String → List SkuCandidate → List SkuCandidate
matching size provider all = narrowed provider (keep_if (has_name size) all)

In-matching :
    (size : String) (provider : Option String) (all : List SkuCandidate) (c : SkuCandidate)
    → In c (matching size provider all)
    → In c all × NamedOn size provider c
In-matching size none all c m =
    let k = In-keep_if (has_name size) all m in (k.0, ((eq_iff c.name size).0 k.1, tt))
In-matching size (some provider) all c m =
    let j = In-keep_if (on_provider provider) (keep_if (has_name size) all) m in
    let k = In-keep_if (has_name size) all j.0 in
    (k.0, ((eq_iff c.name size).0 k.1, (eq_iff c.provider_uuid provider).0 j.1))

In-matching_of :
    (size : String) (provider : Option String) (all : List SkuCandidate) (c : SkuCandidate)
    → In c all
    → NamedOn size provider c
    → In c (matching size provider all)
In-matching_of size none all c m n =
    In-keep_if_of (has_name size) all m ((eq_iff c.name size).1 n.0)
In-matching_of size (some provider) all c m n =
    In-keep_if_of (on_provider provider) (keep_if (has_name size) all)
      (In-keep_if_of (has_name size) all m ((eq_iff c.name size).1 n.0))
      ((eq_iff c.provider_uuid provider).1 n.1)

-- By name the result is that of picking from the matching candidates; only the error on none differs.
among-pick :
    (size : String) (provider : Option String) (all named : List SkuCandidate)
    → (e : SkuError) × (among size provider all named ≡ pick size (narrowed provider named) e)
      × ((s : String) (ds : List SkuCandidate) → e ≢ ambiguous s ds)
unfolding among pick
among-pick size none all [] = (_, refl, λ s ds q. cc q)
among-pick size (some p) all [] = (_, refl, λ s ds q. cc q)
among-pick size none all (c ∷ cs) = (_, refl, λ s ds q. cc q)
among-pick size (some p) all (c ∷ cs) = (_, refl, λ s ds q. cc q)

by_name-pick :
    (size : String) (provider : Option String) (all : List SkuCandidate)
    → (e : SkuError) × (by_name size provider all ≡ pick size (matching size provider all) e)
      × ((s : String) (ds : List SkuCandidate) → e ≢ ambiguous s ds)
unfolding by_name
by_name-pick size provider all = among-pick size provider all (keep_if (has_name size) all)

-- What a by-name resolution returns is active, has the name, is on the provider if one is asked for,
-- and is the only such candidate.
by_name-eq-ok :
    (size : String) (provider : Option String) (all : List SkuCandidate) (c : SkuCandidate)
    → by_name size provider all ≡ ok c
    → In c all
      × NamedOn size provider c
      × ((d : SkuCandidate) → In d all → NamedOn size provider d → d ≡ c)
by_name-eq-ok size provider all c h =
    let (e, same, _) = by_name-pick size provider all in
    let only = pick-eq-ok size (matching size provider all) e c (sym same ∙ h) in
    let found = In-matching size provider all c (rw only (inl refl)) in
    (found.0, found.1, λ d m n. sole d c (rw only at (In-matching_of size provider all d m n)))
  where
    sole : (d c : SkuCandidate) → In d (c ∷ []) → d ≡ c
    sole d c (inl same) = same
    sole d c (inr none_left) = absurd none_left

check_provider-eq-ok :
    (sku : String) (provider : Option String) (hit c : SkuCandidate)
    → check_provider sku provider hit ≡ ok c
    → (hit ≡ c) × OnProvider provider hit
unfolding check_provider
check_provider-eq-ok sku none hit c h = (ground arith, tt)
check_provider-eq-ok sku (some provider) hit c h =
    (ground arith, ground (arith, eq_iff provider hit.provider_uuid))

by_uuid-eq-ok :
    (sku : String) (provider : Option String) (all : List SkuCandidate) (c : SkuCandidate)
    → by_uuid sku provider all ≡ ok c
    → In c all × (c.sku_uuid ≡ sku) × OnProvider provider c
unfolding by_uuid
by_uuid-eq-ok sku provider all c h = elim (Option-cases (find (λ s. str_eq s.sku_uuid sku) all)) [
  | inl gone ↦ cc (rw (gone, by_uuid) at h)
  | inr (hit, found) ↦
      let (same, on) = check_provider-eq-ok sku provider hit c (rw (found, by_uuid) at h) in
      let f = find-eq-some (λ s. str_eq s.sku_uuid sku) all found in
      rw (← same) (f.0, (eq_iff hit.sku_uuid sku).0 f.1, on)
]

module _ (trim : String → String) (skus : List ChainSku) (input : ResolveSkuInput) where
  abbrev pub Names : SkuCandidate → Type 0
  Names c = NamedOn (trim input.size) (given trim input.provider_uuid) c

  resolve-by_name :
      given trim input.sku_uuid ≡ none
      → resolve_sku trim skus input
        ≡ by_name (trim input.size) (given trim input.provider_uuid) (map to_candidate skus)
  unfolding resolve_sku
  resolve-by_name h = rw (h, resolve_sku)

  resolve-by_uuid :
      (sku : String)
      → given trim input.sku_uuid ≡ some sku
      → resolve_sku trim skus input
        ≡ by_uuid sku (given trim input.provider_uuid) (map to_candidate skus)
  unfolding resolve_sku
  resolve-by_uuid sku h = rw (h, resolve_sku)

  -- Without a SKU id, the SKU that a resolution returns is one of the chain's, has the requested name
  -- and provider, and no other active SKU has both.
  pub resolved_by_name :
      (c : SkuCandidate)
      → given trim input.sku_uuid ≡ none
      → resolve_sku trim skus input ≡ ok c
      → In c (map to_candidate skus)
        × Names c
        × ((d : SkuCandidate) → In d (map to_candidate skus) → Names d → d ≡ c)
  resolved_by_name c no_id h =
      by_name-eq-ok (trim input.size) (given trim input.provider_uuid) (map to_candidate skus) c
        (sym (resolve-by_name no_id) ∙ h)

  -- An ambiguity lists exactly the SKUs that match the request, and there is more than one.
  pub ambiguous_lists_matching :
      (s : String) (ds : List SkuCandidate)
      → given trim input.sku_uuid ≡ none
      → resolve_sku trim skus input ≡ err (ambiguous s ds)
      → (1 < length ds)
        × ((d : SkuCandidate) → In d ds → In d (map to_candidate skus) × Names d)
        × ((d : SkuCandidate) → In d (map to_candidate skus) → Names d → In d ds)
  ambiguous_lists_matching s ds no_id h =
      let size = trim input.size in
      let provider = given trim input.provider_uuid in
      let all = map to_candidate skus in
      let (e, same, plain) = by_name-pick size provider all in
      let (listed, many) =
        pick-eq-ambiguous size (matching size provider all) ds e s (plain s ds)
          (sym same ∙ (sym (resolve-by_name no_id) ∙ h)) in
      (
        many,
        λ d m. In-matching size provider all d (rw listed at m),
        λ d m n. rw listed (In-matching_of size provider all d m n),
      )

  -- With a SKU id, the SKU that a resolution returns is one of the chain's with that id, whatever the
  -- name; a requested provider is its own.
  pub resolved_by_uuid :
      (sku : String) (c : SkuCandidate)
      → given trim input.sku_uuid ≡ some sku
      → resolve_sku trim skus input ≡ ok c
      → In c (map to_candidate skus)
        × (c.sku_uuid ≡ sku)
        × OnProvider (given trim input.provider_uuid) c
  resolved_by_uuid sku c id h =
      by_uuid-eq-ok sku (given trim input.provider_uuid) (map to_candidate skus) c
        (sym (resolve-by_uuid sku id) ∙ h)
