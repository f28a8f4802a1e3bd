-- ===== src/Args/Single.antt =====
-- A flag that may occur once is extracted as a repeated flag would be.
use manifest_mcp_mono.Common.{
  ℕ, zero, suc, ◌+◌, ◌≤◌, ◌≡◌, ◌≢◌, ◌⊎◌, refl, sym, ap, ◌∙◌, true, false, List, [], ◌∷◌, Option,
  none, some, Text, same_text, arith, Bool-cases, Option-cases, inl, inr, ok, ok-injective,
}
use manifest_mcp_mono.Args.{
  ExtractedFlag, ExtractedRepeatedFlag, is_no_value, collect_from, index_from, index_of, after,
  flag_value, flag_at, extract_flag, extract_repeated_flag, filter_consumed_args,
}
use manifest_mcp_mono.Args.Flags.{Weave, extract_repeated_flag-Weave}

abbrev pub values_of : Option Text → List Text
values_of none = []
values_of (some v) = v ∷ []

abbrev pub as_repeated : ExtractedFlag → ExtractedRepeatedFlag
as_repeated r = record { values = values_of r.value; consumed_indices = r.consumed_indices }

index_from-tail :
    (k : ℕ) (x a : Text) (args : List Text)
    → index_from k x (a ∷ args) ≡ none
    → (same_text a x ≡ false) × (index_from (suc k) x args ≡ none)
unfolding index_from
index_from-tail k x a args h = ground (arith, h)

collect_from-absent :
    (i k : ℕ) (flag : Text) (args : List Text)
    → index_from k flag args ≡ none
    → collect_from i flag args ≡ ok (record { values = []; consumed_indices = [] })
unfolding collect_from
collect_from-absent i k flag [] h = refl
collect_from-absent i k flag (a ∷ []) h = rw ((index_from-tail k flag a [] h).0)
collect_from-absent i k flag (a ∷ v ∷ args) h =
    let (other, rest) = index_from-tail k flag a (v ∷ args) h in
    rw (other, collect_from-absent (suc i) (suc k) flag (v ∷ args) rest)

-- The step of the loop at the one occurrence.
collect_from-here :
    (i k : ℕ) (flag a v : Text) (args : List Text)
    → same_text a flag ≡ true
    → is_no_value v ≡ false
    → index_from k flag (v ∷ args) ≡ none
    → collect_from i flag (a ∷ v ∷ args)
      ≡ ok (record { values = v ∷ []; consumed_indices = i ∷ suc i ∷ [] })
unfolding collect_from
collect_from-here i k flag a v args same fits gone =
    let rest = (index_from-tail k flag v args gone).1 in
    rw (same, fits, collect_from-absent (suc (suc i)) (suc k) flag args rest)

collect_from-later :
    (i : ℕ) (flag a b : Text) (args : List Text)
    → same_text a flag ≡ false
    → collect_from i flag (a ∷ b ∷ args) ≡ collect_from (suc i) flag (b ∷ args)
unfolding collect_from
collect_from-later i flag a b args other = rw other

index_from-le : (i j : ℕ) (x : Text) (args : List Text) → index_from i x args ≡ some j → i ≤ j
unfolding index_from
index_from-le i j x [] h = cc h
index_from-le i j x (a ∷ args) h = elim (Bool-cases (same_text a x)) [
  | inl same ↦ ground (arith, same, h)
  | inr other ↦ let ih = index_from-le (suc i) j x args (rw other at h) in omega (arith, ih)
]

index_from-head :
    (i j : ℕ) (x a : Text) (args : List Text)
    → index_from i x (a ∷ args) ≡ some j
    → ((same_text a x ≡ true) × (j ≡ i))
      ⊎ ((same_text a x ≡ false) × (index_from (suc i) x args ≡ some j) × (suc i ≤ j))
unfolding index_from
index_from-head i j x a args h = elim (Bool-cases (same_text a x)) [
  | inl same ↦ inl (same, ground (arith, same, h))
  | inr other ↦
      let later = rw other at h in inr (other, later, index_from-le (suc i) j x args later)
]

collect_from-found :
    (i j : ℕ) (flag v : Text) (args rest : List Text) (m : ℕ)
    → index_from i flag args ≡ some j
    → j ≡ i + m
    → after m args ≡ v ∷ rest
    → is_no_value v ≡ false
    → index_from 0 flag (v ∷ rest) ≡ none
    → collect_from i flag args ≡ ok (record { values = v ∷ []; consumed_indices = j ∷ suc j ∷ [] })
unfolding after
collect_from-found i j flag v [] rest m found is_j next fits gone = cc next
collect_from-found i j flag v (a ∷ []) rest zero found is_j next fits gone = cc next
collect_from-found i j flag v (a ∷ []) rest (suc m) found is_j next fits gone = cc next
collect_from-found i j flag v (a ∷ b ∷ args) rest zero found is_j next fits gone =
    elim (index_from-head i j flag a (b ∷ args) found) [
      | inl (same, here) ↦ rw (here, next) (collect_from-here i 0 flag a v rest same fits gone)
      | inr (other, later, beyond) ↦ absurd (omega (arith, is_j, beyond))
    ]
collect_from-found i j flag v (a ∷ b ∷ args) rest (suc m) found is_j next fits gone =
    elim (index_from-head i j flag a (b ∷ args) found) [
      | inl (same, here) ↦ absurd (omega (arith, is_j, here))
      | inr (other, later, beyond) ↦
          collect_from-later i flag a b args other
          ∙ collect_from-found (suc i) j flag v (b ∷ args) rest m later (omega (arith, is_j)) next
              fits gone
    ]

flag_value_lem :
    (flag : Text) (i : ℕ) (following : List Text) (r : ExtractedFlag)
    → flag_value flag i following ≡ ok r
    → (v : Text) × (rest : List Text) × (following ≡ v ∷ rest)
      × (is_no_value v ≡ false)
      × (r ≡ record { value = some v; consumed_indices = i ∷ suc i ∷ [] })
unfolding flag_value
flag_value_lem flag i [] r h = cc h
flag_value_lem flag i (v ∷ rest) r h = elim (Bool-cases (is_no_value v)) [
  | inl bad ↦ absurd (refuses bad)
  | inr fits ↦ (v, rest, refl, fits, ok-injective r _ _ h (rw fits))
]
  where
    refuses : is_no_value v ≢ true
    refuses bad = cc (bad, h)

flag_at_lem :
    (args : List Text) (flag : Text) (i : ℕ) (r : ExtractedFlag)
    → flag_at flag args i ≡ ok r
    → (index_of flag (after i args) ≡ none) × (flag_value flag i (after i args) ≡ ok r)
unfolding flag_at
flag_at_lem args flag i r h = elim (Option-cases (index_of flag (after i args))) [
  | inl gone ↦ (gone, rw gone at h)
  | inr (j, again) ↦ absurd (refuses j again)
]
  where
    refuses : (j : ℕ) → index_of flag (after i args) ≢ some j
    refuses j again = cc (again, h)

extract_flag_lem :
    (args : List Text) (flag : Text) (r : ExtractedFlag)
    → extract_flag args flag ≡ ok r
    → ((index_of flag args ≡ none) × (r ≡ record { value = none; consumed_indices = [] }))
      ⊎ ((i : ℕ) × (index_of flag args ≡ some i) × (flag_at flag args i ≡ ok r))
unfolding extract_flag
extract_flag_lem args flag r h = elim (Option-cases (index_of flag args)) [
  | inl gone ↦ inl (gone, ok-injective r _ _ h (rw (extract_flag, gone)))
  | inr (i, found) ↦ inr (i, found, rw (extract_flag, found) at h)
]

-- Where the extraction of a single flag succeeds, the extraction as a repeated flag gives the same
-- value and the same consumed indices.
extract_flag-as_repeated :
    (args : List Text) (flag : Text) (r : ExtractedFlag)
    → extract_flag args flag ≡ ok r
    → extract_repeated_flag args flag ≡ ok (as_repeated r)
unfolding extract_repeated_flag index_of
extract_flag-as_repeated args flag r h = elim (extract_flag_lem args flag r h) [
  | inl (gone, same) ↦
      collect_from-absent 0 0 flag args gone ∙ ap (λ x. ok (as_repeated x)) (sym same)
  | inr (i, found, here) ↦
      let (once, at_i) = flag_at_lem args flag i r here in
      let (v, rest, next, fits, same) = flag_value_lem flag i (after i args) r at_i in
      collect_from-found 0 i flag v args rest i found (omega arith) next fits (rw next at once)
      ∙ ap (λ x. ok (as_repeated x)) (sym same)
]

-- A flag that is extracted takes the arguments apart: its value, if it is there at all, is what
-- follows its only occurrence, and filtering the consumed indices leaves exactly the other arguments.
pub extract_flag-Weave :
    (args : List Text) (flag : Text) (r : ExtractedFlag)
    → extract_flag args flag ≡ ok r
    → Weave flag args (values_of r.value) (filter_consumed_args args r.consumed_indices)
extract_flag-Weave args flag r h =
    extract_repeated_flag-Weave args flag (as_repeated r) (extract_flag-as_repeated args flag r h)
