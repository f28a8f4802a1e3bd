-- ===== src/DeployManifest/Extraction.antt =====
-- packages/fred/src/tools/createLease.ts: where the lease's id comes from.
use manifest_mcp_mono.Common.{
  ◌≡◌, ◌⊎◌, refl, ap, ◌∙◌, inl, inr, true, List, [], ◌∷◌, ◌++◌, In, Option, none, some, Text, codes,
  same_text, same_text_iff, ◌==◌, ==_iff, Bool-cases, Option-cases, Result, ok, err, ◌>>=◌,
  ok-injective,
}
use mathlib.Core.Option.{some-injective}
use mathlib.Core.Path.{subst}
use manifest_mcp_mono.DeployOutcome.{uuid_pattern, match_at}
use manifest_mcp_mono.Retry.Message.{includes}
use manifest_mcp_mono.DeployOutcome.Prefix.{includes_split}
use manifest_mcp_mono.DeployOutcome.Lease.{Occurs, IsUuid, match_at-Fits}
use manifest_mcp_mono.DeployOutcome.Uuid.{UuidForm, IsUuid-UuidForm}
use manifest_mcp_mono.DeployOutcome.Response.{has_lease}
use manifest_mcp_mono.DeployManifest.{Thrown}
use manifest_mcp_mono.DeployManifest.Creation.{
  Attribute, Event, strip_quotes, is_uuid, require_uuid, is_lease_event, is_lease_key,
  find_attribute, lease_attribute, extract_from, drop_first_quote, drop_last_quote,
  extract_lease_uuid,
}

-- The value of an attribute under `lease_uuid` or `uuid`, in an event whose type has `lease` or `Lease`
-- in it.
pub record IsNoted (events : List Event) (raw : Text) : Type 0 where
  pub event : Event
  pub attribute : Attribute
  pub among : In event events
  pub of_lease : Occurs (codes "lease") event.event_type ⊎ Occurs (codes "Lease") event.event_type
  pub within : In attribute event.attributes
  pub of_id : (attribute.key ≡ codes "lease_uuid") ⊎ (attribute.key ≡ codes "uuid")
  pub value : attribute.value ≡ raw

-- A text with at most one quote more at each end.
abbrev pub Quotes : Text → Text → Type 0
Quotes raw u =
    ((raw ≡ u) ⊎ (raw ≡ b'"' ∷ u)) ⊎ ((raw ≡ u ++ (b'"' ∷ [])) ⊎ (raw ≡ b'"' ∷ (u ++ (b'"' ∷ []))))

drop_last_quote_lem : (s : Text) → (s ≡ drop_last_quote s) ⊎ (s ≡ drop_last_quote s ++ (b'"' ∷ []))
drop_last_quote_lem [] = inl refl
drop_last_quote_lem (c ∷ []) = elim (Bool-cases (c == b'"')) [
  | inl quoted ↦ rw quoted (inr (ap (λ d. d ∷ []) ((==_iff c b'"').0 quoted)))
  | inr plain ↦ rw plain (inl refl)
]
drop_last_quote_lem (c ∷ d ∷ s) = elim (drop_last_quote_lem (d ∷ s)) [
  | inl same ↦ inl (ap (λ t. c ∷ t) same)
  | inr quoted ↦ inr (ap (λ t. c ∷ t) quoted)
]

drop_first_quote_lem : (s : Text) → (s ≡ drop_first_quote s) ⊎ (s ≡ b'"' ∷ drop_first_quote s)
drop_first_quote_lem [] = inl refl
drop_first_quote_lem (c ∷ s) = elim (Bool-cases (c == b'"')) [
  | inl quoted ↦ rw quoted (inr (ap (λ d. d ∷ s) ((==_iff c b'"').0 quoted)))
  | inr plain ↦ rw plain (inl refl)
]

strip_quotes-Quotes : (s : Text) → Quotes s (strip_quotes s)
unfolding strip_quotes
strip_quotes-Quotes s = both (drop_first_quote_lem s) (drop_last_quote_lem (drop_first_quote s))
  where
    both : {s t u : Text} → (s ≡ t) ⊎ (s ≡ b'"' ∷ t) → (t ≡ u) ⊎ (t ≡ u ++ (b'"' ∷ [])) → Quotes s u
    both (inl e) (inl f) = inl (inl (e ∙ f))
    both (inr e) (inl f) = inl (inr (e ∙ ap (λ v. b'"' ∷ v) f))
    both (inl e) (inr f) = inr (inl (e ∙ f))
    both (inr e) (inr f) = inr (inr (e ∙ ap (λ v. b'"' ∷ v) f))

is_lease_key_lem :
    (key : Text) → is_lease_key key ≡ true → (key ≡ codes "lease_uuid") ⊎ (key ≡ codes "uuid")
is_lease_key_lem key h = elim (Bool-cases (same_text key (codes "lease_uuid"))) [
  | inl long ↦ inl ((same_text_iff key (codes "lease_uuid")).0 long)
  | inr other ↦ inr ((same_text_iff key (codes "uuid")).0 (rw other at h))
]

includes-Occurs : (needle s : Text) → includes needle s ≡ true → Occurs needle s
includes-Occurs needle s h =
    let (before, after, whole) = includes_split needle s h in
    record { before = before; after = after; whole = whole }

is_lease_event-Occurs :
    (e : Event)
    → is_lease_event e ≡ true
    → Occurs (codes "lease") e.event_type ⊎ Occurs (codes "Lease") e.event_type
is_lease_event-Occurs e h = elim (Bool-cases (includes (codes "lease") e.event_type)) [
  | inl lower ↦ inl (includes-Occurs (codes "lease") e.event_type lower)
  | inr other ↦ inr (includes-Occurs (codes "Lease") e.event_type (rw other at h))
]

is_uuid-UuidForm : (u : Text) → is_uuid u ≡ true → UuidForm u
unfolding is_uuid
is_uuid-UuidForm u h = elim (Option-cases (match_at uuid_pattern u)) [
  | inl unmatched ↦ cc (rw unmatched at h)
  | inr (v, matched) ↦
      let same = (same_text_iff v u).0 (rw matched at h) in
      IsUuid-UuidForm u (subst IsUuid same (match_at-Fits uuid_pattern u v matched).0)
]

find_attribute-some :
    (attributes : List Attribute) (raw : Text)
    → find_attribute attributes ≡ some raw
    → (b : Attribute) × In b attributes × (is_lease_key b.key ≡ true) × (b.value ≡ raw)
find_attribute-some [] raw h = cc h
find_attribute-some (b ∷ rest) raw h = elim (Bool-cases (is_lease_key b.key)) [
  | inl here ↦ (b, inl refl, here, some-injective b.value raw (rw here at h))
  | inr away ↦ let (c, m, k, v) = find_attribute-some rest raw (rw away at h) in (c, inr m, k, v)
]

later-IsNoted :
    (ev : Event) (events : List Event) (raw : Text) → IsNoted events raw → IsNoted (ev ∷ events) raw
later-IsNoted ev events raw n = record {
  event = n.event;
  attribute = n.attribute;
  among = inr n.among;
  of_lease = n.of_lease;
  within = n.within;
  of_id = n.of_id;
  value = n.value;
}

lease_attribute-IsNoted :
    (events : List Event) (raw : Text) → lease_attribute events ≡ some raw → IsNoted events raw
lease_attribute-IsNoted [] raw h = cc h
lease_attribute-IsNoted (ev ∷ events) raw h = elim (Bool-cases (is_lease_event ev)) [
  | inr away ↦ later-IsNoted ev events raw (lease_attribute-IsNoted events raw (rw away at h))
  | inl here ↦ elim (Option-cases (find_attribute ev.attributes)) [
    | inl unnamed ↦
        later-IsNoted ev events raw (lease_attribute-IsNoted events raw (rw (here, unnamed) at h))
    | inr (v, found) ↦
        let (b, m, k, value) = find_attribute-some ev.attributes v found in
        record {
          event = ev;
          attribute = b;
          among = inl refl;
          of_lease = is_lease_event-Occurs ev here;
          within = m;
          of_id = is_lease_key_lem b.key k;
          value = value ∙ some-injective v raw (rw (here, found) at h);
        }
  ]
]

require_uuid-ok : (raw u : Text) → require_uuid raw ≡ ok u → (is_uuid u ≡ true) × (raw ≡ u)
require_uuid-ok [] u h = cc h
require_uuid-ok (c ∷ s) u h = elim (Bool-cases (is_uuid (c ∷ s))) [
  | inl t ↦
      let same = ok-injective (c ∷ s) u (ok (c ∷ s)) refl (rw t at h) in
      (subst (λ v. is_uuid v ≡ true) same t, same)
  | inr f ↦ cc (rw f at h)
]

extract_lease_uuid-some :
    (events : List Event) (u : Text)
    → extract_lease_uuid (some events) ≡ ok u
    → (is_uuid u ≡ true) × ((raw : Text) × IsNoted events raw × (strip_quotes raw ≡ u))
unfolding extract_lease_uuid
extract_lease_uuid-some events u h = elim (Option-cases (lease_attribute events)) [
  | inl nowhere ↦ cc (rw (extract_from, nowhere) at h)
  | inr (raw, found) ↦
      let (shaped, same) = require_uuid-ok (strip_quotes raw) u (rw (extract_from, found) at h) in
      (shaped, (raw, lease_attribute-IsNoted events raw found, same))
]

-- The id of a created lease is 8, 4, 4, 4 and 12 hexadecimal digits with dashes between, and is, but
-- for at most one quote at each end, the value that the transaction gives under the key `lease_uuid`
-- or `uuid` in an event whose type has `lease` or `Lease` in it.
pub extract_lease_uuid-IsNoted :
    (events : List Event) (u : Text)
    → extract_lease_uuid (some events) ≡ ok u
    → UuidForm u × ((raw : Text) × IsNoted events raw × Quotes raw u)
extract_lease_uuid-IsNoted events u h =
    let (shaped, (raw, noted, stripped)) = extract_lease_uuid-some events u h in
    (is_uuid-UuidForm u shaped, (raw, noted, subst (Quotes raw) stripped (strip_quotes-Quotes raw)))

pub created_is_uuid :
    (transaction : Result Thrown (Option (List Event))) (u : Text)
    → (transaction >>= extract_lease_uuid) ≡ ok u
    → is_uuid u ≡ true
unfolding extract_lease_uuid
created_is_uuid (ok (some events)) u h = (extract_lease_uuid-some events u h).0
created_is_uuid (ok none) u h = cc h
created_is_uuid (err x) u h = cc h

pub is_uuid-has_lease : (u : Text) → is_uuid u ≡ true → has_lease (some u) ≡ true
unfolding is_uuid match_at
is_uuid-has_lease [] h = cc h
is_uuid-has_lease (c ∷ s) h = refl
