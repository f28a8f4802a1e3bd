-- ===== src/Args/Flags.antt =====
-- What the flag extractors find, and that the arguments left over are the others, in their order.
use mathlib.Core.Path.{Path, subst}
use manifest_mcp_mono.Common.{
  ℕ, suc, ◌≤◌, ◌<◌, ◌≡◌, ◌≢◌, refl, sym, ap, true, false, List, [], ◌∷◌, Text, same_text,
  same_text_iff, arith, Bool-cases, inl, inr, Result, ok, ok-injective, >>=-ok,
}
use manifest_mcp_mono.Args.{
  ArgError, ExtractedRepeatedFlag, is_no_value, collect, collected, collect_from,
  extract_repeated_flag, holds, unconsumed_from, filter_consumed_args,
}

-- An argument list taken apart: the values that follow a flag, and the arguments left over.
pub data Weave (flag : Text) : List Text → List Text → List Text → Type 0 where
  done : Weave flag [] [] []
  keep :
      (a : Text) {args values rest : List Text}
      → a ≢ flag
      → Weave flag args values rest
      → Weave flag (a ∷ args) values (a ∷ rest)
  take :
      (v : Text) {args values rest : List Text}
      → is_no_value v ≡ false
      → Weave flag args values rest
      → Weave flag (flag ∷ v ∷ args) (v ∷ values) rest

-- Every index is at least `i`.
abbrev From : ℕ → List ℕ → Type 0
From i [] = Unit
From i (j ∷ js) = (i ≤ j) × From i js

From-weaken : (i k : ℕ) (js : List ℕ) → i ≤ k → From k js → From i js
From-weaken i k [] h f = tt
From-weaken i k (j ∷ js) h f = (omega (arith, h, f.0), From-weaken i k js h f.1)

holds-before : (i : ℕ) (js : List ℕ) → From (suc i) js → holds js i ≡ false
holds-before i [] f = refl
holds-before i (j ∷ js) f = let ih = holds-before i js f.1 in let h = f.0 in ground (arith, ih, h)

unconsumed_from-drop :
    (i j : ℕ) (js : List ℕ) (args : List Text)
    → j < i
    → unconsumed_from i (j ∷ js) args ≡ unconsumed_from i js args
unfolding unconsumed_from
unconsumed_from-drop i j js [] h = refl
unconsumed_from-drop i j js (a ∷ args) h =
    let ih = unconsumed_from-drop (suc i) j js args (omega (arith, h)) in ground (arith, ih, h)

-- What the loop from `i` on collects.
record Collects (flag : Text) (i : ℕ) (args : List Text) (r : ExtractedRepeatedFlag) : Type 0 where
  from : From i r.consumed_indices
  woven : Weave flag args r.values (unconsumed_from i r.consumed_indices args)

skip-Collects :
    (flag : Text) (i : ℕ) (a : Text) (args : List Text) (r : ExtractedRepeatedFlag)
    → a ≢ flag
    → Collects flag (suc i) args r
    → Collects flag i (a ∷ args) r
unfolding unconsumed_from
skip-Collects flag i a args r other c = record {
  from = From-weaken i (suc i) r.consumed_indices (omega arith) c.from;
  woven = rw (holds-before i r.consumed_indices c.from) (keep a other c.woven);
}

unconsumed_from-pair :
    (i : ℕ) (js : List ℕ) (a v : Text) (args : List Text)
    → unconsumed_from i (i ∷ suc i ∷ js) (a ∷ v ∷ args) ≡ unconsumed_from (suc (suc i)) js args
unfolding unconsumed_from
unconsumed_from-pair i js a v args =
    let one = unconsumed_from-drop (suc (suc i)) i (suc i ∷ js) args (omega arith) in
    let two = unconsumed_from-drop (suc (suc i)) (suc i) js args (omega arith) in
    ground (arith, one, two)

take-Collects :
    (flag : Text) (i : ℕ) (v : Text) (args : List Text) (r : ExtractedRepeatedFlag)
    → is_no_value v ≡ false
    → Collects flag (suc (suc i)) args r
    → Collects flag i (flag ∷ v ∷ args) (collect v i r)
take-Collects flag i v args r fits c = record {
  from = (
    omega arith,
    (omega arith, From-weaken i (suc (suc i)) r.consumed_indices (omega arith) c.from),
  );
  woven = rw (unconsumed_from-pair i r.consumed_indices flag v args) (take v fits c.woven);
}

abbrev nothing : ExtractedRepeatedFlag
nothing = record { values = []; consumed_indices = [] }

nothing-Collects :
    (flag : Text) (i : ℕ) (r : ExtractedRepeatedFlag)
    → Path (Result ArgError ExtractedRepeatedFlag) (ok nothing) (ok r)
    → Collects flag i [] r
unfolding unconsumed_from
nothing-Collects flag i r h =
    subst (Collects flag i []) (ok-injective nothing r _ refl h)
      (record { from = tt; woven = done })

-- A list of one is the step that skips it, or an error.
last-Collects :
    (flag : Text) (i : ℕ) (a : Text) (r : ExtractedRepeatedFlag)
    → collect_from i flag (a ∷ []) ≡ ok r
    → Collects flag i (a ∷ []) r
unfolding collect_from
last-Collects flag i a r h = elim (Bool-cases (same_text a flag)) [
  | inl same ↦ absurd (refuses same)
  | inr other ↦
      skip-Collects flag i a [] r (λ e. cc (other, (same_text_iff a flag).1 e))
        (nothing-Collects flag (suc i) r (rw other at h))
]
  where
    refuses : same_text a flag ≢ true
    refuses same = cc (same, h)

taken-Collects :
    (flag : Text) (i : ℕ) (a v : Text) (args : List Text) (r : ExtractedRepeatedFlag)
    → a ≡ flag
    → is_no_value v ≡ false
    → ((more : ExtractedRepeatedFlag)
        → collect_from (suc (suc i)) flag args ≡ ok more
        → Collects flag (suc (suc i)) args more)
    → collected v i (collect_from (suc (suc i)) flag args) ≡ ok r
    → Collects flag i (a ∷ v ∷ args) r
taken-Collects flag i a v args r is_flag fits ih h =
    let (more, begun, end) = >>=-ok (collect_from (suc (suc i)) flag args) _ r h in
    subst (Collects flag i (a ∷ v ∷ args)) (ok-injective (collect v i more) r _ refl end)
      (rw is_flag (take-Collects flag i v args more fits (ih more begun)))

collect_from-Collects :
    (flag : Text) (i : ℕ) (args : List Text) (r : ExtractedRepeatedFlag)
    → collect_from i flag args ≡ ok r
    → Collects flag i args r
unfolding collect_from
collect_from-Collects flag i [] r h = nothing-Collects flag i r h
collect_from-Collects flag i (a ∷ []) r h = last-Collects flag i a r h
collect_from-Collects flag i (a ∷ v ∷ args) r h = elim (Bool-cases (same_text a flag)) [
  | inr other ↦
      skip-Collects flag i a (v ∷ args) r (λ e. cc (other, (same_text_iff a flag).1 e))
        (collect_from-Collects flag (suc i) (v ∷ args) r (rw other at h))
  | inl same ↦ elim (Bool-cases (is_no_value v)) [
    | inl none ↦ absurd (refuses same none)
    | inr fits ↦
        taken-Collects flag i a v args r ((same_text_iff a flag).0 same) fits
          (collect_from-Collects flag (suc (suc i)) args) (rw (same, fits) at h)
  ]
]
  where
    refuses : same_text a flag ≡ true → is_no_value v ≢ true
    refuses same none = cc (same, none, h)

unconsumed_from-none : (i : ℕ) (args : List Text) → unconsumed_from i [] args ≡ args
unfolding unconsumed_from
unconsumed_from-none i [] = refl
unconsumed_from-none i (a ∷ args) = ap (λ l. a ∷ l) (unconsumed_from-none (suc i) args)

filter_consumed_args-from :
    (args : List Text) (consumed : List ℕ)
    → filter_consumed_args args consumed ≡ unconsumed_from 0 consumed args
unfolding filter_consumed_args
filter_consumed_args-from args [] = sym (unconsumed_from-none 0 args)
filter_consumed_args-from args (i ∷ is) = refl

-- A repeated flag that is extracted takes the arguments apart: its values are what follows each of
-- its occurrences, none of them empty or with the look of a flag, and filtering the consumed indices
-- leaves exactly the other arguments, in their order.
pub extract_repeated_flag-Weave :
    (args : List Text) (flag : Text) (r : ExtractedRepeatedFlag)
    → extract_repeated_flag args flag ≡ ok r
    → Weave flag args r.values (filter_consumed_args args r.consumed_indices)
unfolding extract_repeated_flag
extract_repeated_flag-Weave args flag r h =
    rw (filter_consumed_args-from args r.consumed_indices)
      (collect_from-Collects flag 0 args r h).woven
