-- ===== src/AppManifest/Merge.antt =====
-- packages/fred/src/manifest.ts: what a merged manifest holds, by key.
use mathlib.Core.Path.{subst}
use manifest_mcp_mono.Common.{
  ◌≡◌, refl, sym, ◌∙◌, ap, ◌⊎◌, inl, inr, Bool, true, false, ◌&&◌, ◌||◌, not, List, [], ◌∷◌, any,
  Text, codes, same_text, same_text_iff, same_text_refl, arith, Bool-cases, Datum, undefined, null,
  truth, number, string, other, array, object, Members, no_members, member, member_of,
  if◌then◌else◌,
}
use manifest_mcp_mono.DeployManifest.{assign}
use manifest_mcp_mono.DeployManifest.Failure.{spread}
use manifest_mcp_mono.DeployManifest.Envelope.{member_of-assign}
use manifest_mcp_mono.AppManifest.{
  has_member, is_truthy, members_of, merge_section, carry_forward_keys, carry_key, carry_forward,
  merge_members,
}

-- No key twice, as in every object.
abbrev pub IsDistinct : Members → Type 0
IsDistinct no_members = Unit
IsDistinct (member k v ms) = (has_member k ms ≡ false) × IsDistinct ms

has_member-assign :
    (j k : Text) (v : Datum) (ms : Members)
    → has_member j (assign k v ms) ≡ (same_text k j || has_member j ms)
has_member-assign j k v no_members = refl
has_member-assign j k v (member k' u ms) = elim (Bool-cases (same_text k' k)) [
  | inl same ↦ rw same (rw ((same_text_iff k' k).0 same) (ground arith))
  | inr apart ↦ rw (apart, has_member-assign j k v ms) (ground arith)
]

absent-undefined : (j : Text) (ms : Members) → has_member j ms ≡ false → member_of j ms ≡ undefined
absent-undefined j no_members h = refl
absent-undefined j (member k v ms) h = ground (arith, absent-undefined j ms)

-- A key that is in the added members is theirs.
member_of-spread :
    (j : Text) (ms extra : Members)
    → IsDistinct extra
    → member_of j (spread ms extra)
      ≡ (if has_member j extra then member_of j extra else member_of j ms)
unfolding spread
member_of-spread j ms no_members d = refl
member_of-spread j ms (member k v extra) (new, d) =
    member_of-spread j (assign k v ms) extra d ∙ elim (Bool-cases (same_text k j)) [
      | inl here ↦ rw (member_of-assign j k v ms, here, unnamed here) refl
      | inr away ↦ rw (member_of-assign j k v ms, away) refl
    ]
  where
    unnamed : same_text k j ≡ true → has_member j extra ≡ false
    unnamed here = subst (λ x. has_member x extra ≡ false) ((same_text_iff k j).0 here) new

has_member-spread :
    (j : Text) (ms extra : Members)
    → has_member j (spread ms extra) ≡ (has_member j extra || has_member j ms)
unfolding spread
has_member-spread j ms no_members = refl
has_member-spread j ms (member k v extra) =
    has_member-spread j (assign k v ms) extra ∙ rw (has_member-assign j k v ms) (ground arith)

-- An object built from nothing is the one it is built from.
member_of-copy :
    (j : Text) (ms : Members) → IsDistinct ms → member_of j (spread no_members ms) ≡ member_of j ms
member_of-copy j ms d = member_of-spread j no_members ms d ∙ elim (Bool-cases (has_member j ms)) [
  | inl t ↦ rw t refl
  | inr f ↦ rw (f, absent-undefined j ms f) refl
]

has_member-copy : (j : Text) (ms : Members) → has_member j (spread no_members ms) ≡ has_member j ms
has_member-copy j ms = has_member-spread j no_members ms ∙ ground arith

falsy_empty : (d : Datum) → is_truthy d ≡ false → members_of d ≡ no_members
falsy_empty undefined h = refl
falsy_empty null h = refl
falsy_empty (truth b) h = refl
falsy_empty (number n) h = refl
falsy_empty (string t) h = refl
falsy_empty (other n) h = refl
falsy_empty (array xs) h = refl
falsy_empty (object ms) h = cc h

-- The entries of a section.
abbrev pub entries : Text → Members → Members
entries key ms = members_of (member_of key ms)

-- The new value of an entry, or else the old one.
abbrev pub overlaid : Text → (new old : Members) → Datum
overlaid j new old = if has_member j new then member_of j new else member_of j old

module _ (key : Text) (old merged : Members) where
  section_other :
      (j : Text)
      → same_text key j ≡ false
      → (member_of j (merge_section key old merged) ≡ member_of j merged)
        × (has_member j (merge_section key old merged) ≡ has_member j merged)
  unfolding merge_section
  section_other j away =
      elim (Bool-cases (is_truthy (member_of key old) || is_truthy (member_of key merged))) [
        | inr f ↦ rw f (refl, refl)
        | inl t ↦ rw t (
          member_of-assign j key united merged ∙ rw away refl,
          has_member-assign j key united merged ∙ rw away refl,
        )
      ]
    where
      united : Datum
      united = object (spread (spread no_members (entries key old)) (entries key merged))

  section_own :
      (j : Text)
      → IsDistinct (entries key old)
      → IsDistinct (entries key merged)
      → member_of j (entries key (merge_section key old merged))
        ≡ overlaid j (entries key merged) (entries key old)
  unfolding merge_section
  section_own j d e =
      elim (Bool-cases (is_truthy (member_of key old) || is_truthy (member_of key merged))) [
        | inr f ↦
            let (no_old, no_new) = neither (is_truthy (member_of key old)) f in
            rw
              (f, falsy_empty (member_of key old) no_old, falsy_empty (member_of key merged) no_new)
              refl
        | inl t ↦
            rw (t, member_of-assign key key (object united) merged, same_text_refl key)
              (member_of-spread j (spread no_members (entries key old)) (entries key merged) e
                ∙ rw (member_of-copy j (entries key old) d) refl)
      ]
    where
      united : Members
      united = spread (spread no_members (entries key old)) (entries key merged)

      neither : (a : Bool) {b : Bool} → (a || b) ≡ false → (a ≡ false) × (b ≡ false)
      neither true h = cc h
      neither false h = (refl, h)

-- A key that is carried forward is the old one where the new manifest has none.
member_of-carry_forward :
    (j : Text) (keys : List Text) (old merged : Members)
    → member_of j (carry_forward keys old merged) ≡ (
        if has_member j merged
        then member_of j merged
        else if any (λ k. same_text k j) keys
        then member_of j old
        else undefined)
unfolding carry_forward
member_of-carry_forward j [] old merged = elim (Bool-cases (has_member j merged)) [
  | inl t ↦ rw t refl
  | inr f ↦ rw f (absent-undefined j merged f)
]
member_of-carry_forward j (key ∷ keys) old merged =
    member_of-carry_forward j keys old (carry_key key old merged)
    ∙ elim (Bool-cases (not (has_member key merged) && has_member key old)) [
      | inr f ↦ rw f (elim (Bool-cases (same_text key j)) [
        | inr away ↦ rw away refl
        | inl here ↦ rw here (
            unchanged (has_member j merged) (any (λ k. same_text k j) keys) (member_of j merged)
              (member_of j old)
              (λ none_new. absent-undefined j old (
                absent (has_member j merged) (has_member j old) none_new
                  (rw (same_key here) at f))))
      ])
      | inl t ↦ rw t (
          rw
            (
              has_member-assign j key (member_of key old) merged,
              member_of-assign j key (member_of key old) merged,
            )
            (elim (Bool-cases (same_text key j)) [
              | inr away ↦ rw away refl
              | inl here ↦ rw here (
                  rw (same_key here) (
                    rw (missing (has_member j merged) (has_member j old) (rw (same_key here) at t))
                      refl))
            ]))
    ]
  where
    same_key : same_text key j ≡ true → key ≡ j
    same_key = (same_text_iff key j).0

    unchanged :
        (new carried : Bool) (x y : Datum)
        → (new ≡ false → y ≡ undefined)
        → (if new then x else if carried then y else undefined) ≡ (if new then x else y)
    unchanged true carried x y h = refl
    unchanged false true x y h = refl
    unchanged false false x y h = sym (h refl)

    absent : (new held : Bool) → new ≡ false → (not new && held) ≡ false → held ≡ false
    absent false held h k = k
    absent true held h k = cc h

    missing : (new held : Bool) → (not new && held) ≡ true → new ≡ false
    missing true held h = cc h
    missing false held h = refl

pub data Section : Type 0 where
  env ports labels : Section

abbrev pub section_key : Section → Text
section_key env = codes "env"
section_key ports = codes "ports"
section_key labels = codes "labels"

abbrev pub is_section : Text → Bool
is_section j =
    same_text (codes "env") j || same_text (codes "ports") j || same_text (codes "labels") j

-- What a merge holds: by entry in the three sections that are united, and by key elsewhere.
pub record IsMerged (new old merged : Members) : Type 0 where
  pub united :
      (s : Section) (j : Text)
      → member_of j (entries (section_key s) merged)
        ≡ overlaid j (entries (section_key s) new) (entries (section_key s) old)
  pub elsewhere :
      (j : Text)
      → (is_section j ≡ true)
        ⊎ (member_of j merged ≡ (
            if has_member j new
            then member_of j new
            else if any (λ k. same_text k j) carry_forward_keys
            then member_of j old
            else undefined))

module _ (new old : Members) where
  abbrev copied : Members
  copied = spread no_members new

  abbrev with_env : Members
  with_env = merge_section (codes "env") old copied

  abbrev with_ports : Members
  with_ports = merge_section (codes "ports") old with_env

  abbrev with_labels : Members
  with_labels = merge_section (codes "labels") old with_ports

  not_carried :
      (j : Text)
      → any (λ k. same_text k j) carry_forward_keys ≡ false
      → member_of j (carry_forward carry_forward_keys old with_labels) ≡ member_of j with_labels
  not_carried j h =
      member_of-carry_forward j carry_forward_keys old with_labels
      ∙ elim (Bool-cases (has_member j with_labels)) [
        | inl t ↦ rw t refl
        | inr f ↦ rw (f, h) (sym (absent-undefined j with_labels f))
      ]

  own_of :
      (key j : Text) (m : Members)
      → member_of key m ≡ member_of key new
      → IsDistinct (entries key new)
      → IsDistinct (entries key old)
      → member_of j (entries key (merge_section key old m))
        ≡ overlaid j (entries key new) (entries key old)
  own_of key j m same d e = section_own key old m j e (rw same d) ∙ rw same refl

  module _ (d : IsDistinct new) where
    united_entries :
        (s : Section) (j : Text)
        → IsDistinct (entries (section_key s) new)
        → IsDistinct (entries (section_key s) old)
        → member_of j (entries (section_key s) (carry_forward carry_forward_keys old with_labels))
          ≡ overlaid j (entries (section_key s) new) (entries (section_key s) old)
    unfolding same_text
    united_entries env j dn do_ =
        ap (λ x. member_of j (members_of x))
          (not_carried (codes "env") refl
            ∙ (section_other (codes "labels") old with_ports (codes "env") refl).0
            ∙ (section_other (codes "ports") old with_env (codes "env") refl).0)
        ∙ own_of (codes "env") j copied (member_of-copy (codes "env") new d) dn do_
    united_entries ports j dn do_ =
        ap (λ x. member_of j (members_of x))
          (not_carried (codes "ports") refl
            ∙ (section_other (codes "labels") old with_ports (codes "ports") refl).0)
        ∙ own_of (codes "ports") j with_env
            ((section_other (codes "env") old copied (codes "ports") refl).0
              ∙ member_of-copy (codes "ports") new d)
            dn do_
    united_entries labels j dn do_ =
        ap (λ x. member_of j (members_of x)) (not_carried (codes "labels") refl)
        ∙ own_of (codes "labels") j with_ports
            ((section_other (codes "ports") old with_env (codes "labels") refl).0
              ∙ (section_other (codes "env") old copied (codes "labels") refl).0
              ∙ member_of-copy (codes "labels") new d)
            dn do_

    other_keys :
        (j : Text)
        → (same_text (codes "env") j ≡ false)
        → (same_text (codes "ports") j ≡ false)
        → (same_text (codes "labels") j ≡ false)
        → (member_of j with_labels ≡ member_of j new)
          × (has_member j with_labels ≡ has_member j new)
    other_keys j h1 h2 h3 =
        let (m1, k1) = section_other (codes "env") old copied j h1 in
        let (m2, k2) = section_other (codes "ports") old with_env j h2 in
        let (m3, k3) = section_other (codes "labels") old with_ports j h3 in
        (m3 ∙ m2 ∙ m1 ∙ member_of-copy j new d, k3 ∙ k2 ∙ k1 ∙ has_member-copy j new)

-- A merge of objects: the entries of environment, ports and labels are the new ones, and the old ones that
-- no new one hides; of the other keys all new ones stay, and of the old ones those that are carried
-- forward come in where the new manifest has none, and no others.
pub merge_members-IsMerged :
    (new old : Members)
    → IsDistinct new
    → ((s : Section) → IsDistinct (entries (section_key s) new))
    → ((s : Section) → IsDistinct (entries (section_key s) old))
    → IsMerged new old (merge_members new old)
unfolding merge_members
merge_members-IsMerged new old d dn do_ = record {
  united = λ s j. united_entries new old d s j (dn s) (do_ s);
  elsewhere = elsewhere;
}
  where
    elsewhere :
        (j : Text)
        → (is_section j ≡ true)
          ⊎ (member_of j (carry_forward carry_forward_keys old (with_labels new old)) ≡ (
              if has_member j new
              then member_of j new
              else if any (λ k. same_text k j) carry_forward_keys
              then member_of j old
              else undefined))
    elsewhere j = elim (Bool-cases (is_section j)) [
      | inl t ↦ inl t
      | inr f ↦
          let (m, k) =
            other_keys new old d j (ground (arith, f)) (ground (arith, f)) (ground (arith, f)) in
          inr (
            member_of-carry_forward j carry_forward_keys old (with_labels new old) ∙ rw (m, k) refl)
    ]
