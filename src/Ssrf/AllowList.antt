-- ===== src/Ssrf/AllowList.antt =====
-- The policy is an allow-list: only what ipaddr.js calls unicast passes.
use manifest_mcp_mono.Common.{
  ◌≡◌, ◌≢◌, inl, inr, ◌⊎◌, ◌↔◌, refl, ◌∙◌, sym, ap, true, false, none, some, String, find,
  find-eq-some, str_eq, is_some, arith, eq_iff, Option-cases, Bool-cases, if_cases,
}
use manifest_mcp_mono.Ssrf.{
  Kind, ipv4, ipv6, IpAddr, BlockedRange, ranges_of, allowed, blocked, unparseable, describe,
  normalize, classify, is_blocked, is_ip_literal,
}

describe-range : (k : Kind) (label : String) → (describe k label).range ≡ label
describe-range k label = elim (Option-cases (find (λ r. str_eq r.range label) (ranges_of k))) [
  | inl missing ↦ rw (missing, describe) refl
  | inr (named, found) ↦
      let ok = (find-eq-some (λ r. str_eq r.range label) (ranges_of k) found).1 in
      rw (found, describe) ((eq_iff named.range label).0 ok)
]

module _ (ip : IpAddr) where
  open ip use {Address, parse, kind, is_ipv4_mapped_address, to_ipv4_address, range}

  parsed :
      (s : String) (a : Address) → parse s ≡ some a → is_blocked ip s ≡ classify ip (normalize ip a)
  unfolding is_blocked
  parsed s a found = rw (found, is_blocked)

  garbage : (s : String) → parse s ≡ none → is_blocked ip s ≡ unparseable
  unfolding is_blocked
  garbage s gone = rw (gone, is_blocked)

  classify-eq-allowed : (a : Address) → (classify ip a ≡ allowed) ↔ (range a ≡ "unicast")
  unfolding classify
  classify-eq-allowed a = (
    λ h. ground (arith, eq_iff (range a) "unicast"),
    λ h. ground (arith, eq_iff (range a) "unicast"),
  )

  -- The address that an address is judged by: an IPv4-mapped one by the IPv4 address in it, any other
  -- by itself.
  abbrev pub JudgedBy : Address → Address → Type 0
  JudgedBy a b =
      ((kind a ≡ ipv4) × (b ≡ a))
      ⊎ (((kind a ≡ ipv6) × (is_ipv4_mapped_address a ≡ false) × (b ≡ a))
          ⊎ ((kind a ≡ ipv6) × (is_ipv4_mapped_address a ≡ true) × (b ≡ to_ipv4_address a)))

  normalize_mapped :
      (a : Address)
      → kind a ≡ ipv6
      → is_ipv4_mapped_address a ≡ true
      → normalize ip a ≡ to_ipv4_address a
  unfolding normalize
  normalize_mapped a six mapped = rw (six, normalize, mapped)

  normalize_ipv4 : (a : Address) → kind a ≡ ipv4 → normalize ip a ≡ a
  unfolding normalize
  normalize_ipv4 a four = rw (four, normalize)

  normalize_unmapped :
      (a : Address) → kind a ≡ ipv6 → is_ipv4_mapped_address a ≡ false → normalize ip a ≡ a
  unfolding normalize
  normalize_unmapped a six plain = rw (six, normalize, plain)

  Kind-cases : (k : Kind) → (k ≡ ipv4) ⊎ (k ≡ ipv6)
  Kind-cases ipv4 = inl refl
  Kind-cases ipv6 = inr refl

  normalize-JudgedBy : (a : Address) → JudgedBy a (normalize ip a)
  normalize-JudgedBy a = elim (Kind-cases (kind a)) [
    | inl four ↦ inl (four, normalize_ipv4 a four)
    | inr six ↦ elim (Bool-cases (is_ipv4_mapped_address a)) [
      | inl mapped ↦ inr (inr (six, mapped, normalize_mapped a six mapped))
      | inr plain ↦ inr (inl (six, plain, normalize_unmapped a six plain))
    ]
  ]

  judged_normalize : (a b : Address) → JudgedBy a b → normalize ip a ≡ b
  judged_normalize a b (inl (four, e)) = normalize_ipv4 a four ∙ sym e
  judged_normalize a b (inr (inl (six, plain, e))) = normalize_unmapped a six plain ∙ sym e
  judged_normalize a b (inr (inr (six, mapped, e))) = normalize_mapped a six mapped ∙ sym e

  -- A literal passes exactly when it parses and the address that it is judged by, the IPv4 address in
  -- it where it is IPv4-mapped and else itself, has the range `unicast`.
  pub allowed_iff :
      (s : String)
      → (is_blocked ip s ≡ allowed) ↔ (
          (a : Address) × (b : Address) × (parse s ≡ some a) × JudgedBy a b × (range b ≡ "unicast"))
  allowed_iff s = (to, from)
    where
      to :
          is_blocked ip s ≡ allowed
          → (a : Address) × (b : Address) × (parse s ≡ some a)
            × JudgedBy a b
            × (range b ≡ "unicast")
      to h = elim (Option-cases (parse s)) [
        | inl gone ↦ cc (h, garbage s gone)
        | inr (a, found) ↦ (
          a,
          normalize ip a,
          found,
          normalize-JudgedBy a,
          (classify-eq-allowed (normalize ip a)).0 (sym (parsed s a found) ∙ h),
        )
      ]

      from :
          ((a : Address) × (b : Address) × (parse s ≡ some a)
            × JudgedBy a b
            × (range b ≡ "unicast"))
          → is_blocked ip s ≡ allowed
      from (a, b, found, judged, unicast) =
          parsed s a found
          ∙ (classify-eq-allowed (normalize ip a)).1
              (ap range (judged_normalize a b judged) ∙ unicast)

  -- An IPv4-mapped IPv6 literal gets the verdict, allowed or blocked and with the same description, of
  -- every literal of the IPv4 address in it.
  pub mapped_as_ipv4 :
      (s t : String) (a : Address)
      → parse s ≡ some a
      → kind a ≡ ipv6
      → is_ipv4_mapped_address a ≡ true
      → parse t ≡ some (to_ipv4_address a)
      → is_blocked ip s ≡ is_blocked ip t
  mapped_as_ipv4 s t a found six mapped found' =
      parsed s a found
      ∙ ap (classify ip) (
          normalize_mapped a six mapped
          ∙ sym (normalize_ipv4 (to_ipv4_address a) (ip.to_ipv4_address-kind a)))
      ∙ sym (parsed t (to_ipv4_address a) found')

  classify-range : (a : Address) (d : BlockedRange) → classify ip a ≡ blocked d → d.range ≡ range a
  unfolding classify
  classify-range a d h = ground (arith, describe-range (kind a) (range a))

  -- A blocked literal is described by the range that ipaddr.js gives the address it is judged by, the
  -- IPv4 address in it where it is IPv4-mapped, also where the range is in no list of the policy.
  pub blocked-range :
      (s : String) (d : BlockedRange)
      → is_blocked ip s ≡ blocked d
      → (a : Address) × (b : Address) × (parse s ≡ some a)
        × JudgedBy a b
        × (d.range ≡ range b)
        × (d.range ≢ "unicast")
  blocked-range s d h = elim (Option-cases (parse s)) [
    | inl gone ↦ cc (h, garbage s gone)
    | inr (a, found) ↦
        let e = classify-range (normalize ip a) d (sym (parsed s a found) ∙ h) in
        let judged = normalize-JudgedBy a in
        (
          a,
          normalize ip a,
          found,
          judged,
          e,
          λ u. cc (h, (allowed_iff s).1 (a, normalize ip a, found, judged, sym e ∙ u)),
        )
  ]

  -- The check of a literal throws exactly where `isIpLiteral` says that it is none.
  pub unparseable_iff :
      (s : String) → (is_blocked ip s ≡ unparseable) ↔ (is_ip_literal ip s ≡ false)
  unfolding is_ip_literal
  unparseable_iff s = elim (Option-cases (parse s)) [
    | inl gone ↦ (λ _. rw (ip.is_valid-parse s, gone), λ _. garbage s gone)
    | inr (a, found) ↦ (
      λ h. absurd (refuse a (sym (parsed s a found) ∙ h)),
      λ h. cc (h, ip.is_valid-parse s, ap is_some found),
    )
  ]
    where
      refuse : (a : Address) → classify ip (normalize ip a) ≢ unparseable
      refuse a =
          unfold classify in
          if_cases (λ v. v ≢ unparseable) (str_eq (range (normalize ip a)) "unicast") (λ _ q. cc q)
            (λ _ q. cc q)
