-- ===== src/Common/Lists.antt =====
-- Lists measured and indexed by native numbers, and tests over them.
use Prim.Native.Nat.{ℕ, zero, suc, ◌+◌}
use Prim.Native.String.{String}
use mathlib.Core.Path.{◌≡◌}
use mathlib.Core.Logic.{◌⊎◌, inl, inr}
use mathlib.Core.Bool.{Bool, true, false, ◌||◌}
use mathlib.Core.List.{List, [], ◌∷◌, ◌++◌}
use mathlib.Core.Option.{Option, none, some}
use native.Mathlib.Omega.{arith}
use manifest_mcp_mono.Common.Booleans.{if◌then◌else◌, str_eq, Bool-cases}

module _ {ℓ} {A : Type ℓ} where
  abbrev pub length : List A → ℕ
  length [] = 0
  length (x ∷ xs) = suc (length xs)

  abbrev pub get_elem? : List A → ℕ → Option A
  get_elem? [] i = none
  get_elem? (x ∷ xs) zero = some x
  get_elem? (x ∷ xs) (suc i) = get_elem? xs i

  -- `xs.some(p)`, `xs.find(p)` and `xs.filter(p)`
  abbrev pub any : (A → Bool) → List A → Bool
  any p [] = false
  any p (x ∷ xs) = p x || any p xs

  abbrev pub find : (A → Bool) → List A → Option A
  find p [] = none
  find p (x ∷ xs) = if p x then some x else find p xs

  abbrev pub keep_if : (A → Bool) → List A → List A
  keep_if p [] = []
  keep_if p (x ∷ xs) = if p x then x ∷ keep_if p xs else keep_if p xs

  abbrev pub All {κ} : (A → Type κ) → List A → Type κ
  All P [] = Unit
  All P (x ∷ xs) = P x × All P xs

module _ {ℓ} {A : Type ℓ} where
  pub length-append : (xs ys : List A) → length (xs ++ ys) ≡ length xs + length ys
  length-append [] ys = omega arith
  length-append (x ∷ xs) ys = omega (arith, length-append xs ys)

module _ {A : Type 0} where
  -- Membership by recursion, so that it can be taken apart.
  abbrev pub In : A → List A → Type 0
  In a [] = ⊥
  In a (x ∷ xs) = (a ≡ x) ⊎ In a xs

  pub find-eq-some :
      (p : A → Bool) (xs : List A) {a : A} → find p xs ≡ some a → In a xs × (p a ≡ true)
  find-eq-some p [] h = cc
  find-eq-some p (x ∷ xs) {a} h = elim (Bool-cases (p x)) [
    | inl t ↦ ground arith
    | inr f ↦ let ih = find-eq-some p xs {a = a} (ground arith) in (inr ih.0, ih.1)
  ]

  pub find-eq-none : (p : A → Bool) (xs : List A) {a : A} → find p xs ≡ none → In a xs → p a ≡ false
  find-eq-none p [] h m = elim m [ ]
  find-eq-none p (x ∷ xs) h (inl e) = ground arith
  find-eq-none p (x ∷ xs) h (inr m) = find-eq-none p xs (ground arith) m

  pub In-keep_if :
      (p : A → Bool) (xs : List A) {a : A} → In a (keep_if p xs) → In a xs × (p a ≡ true)
  In-keep_if p [] m = elim m [ ]
  In-keep_if p (x ∷ xs) {a} m = elim (Bool-cases (p x)) [
    | inl t ↦ kept t (rw t at m) (λ n. In-keep_if p xs {a = a} n)
    | inr f ↦ let ih = In-keep_if p xs {a = a} (rw f at m) in (inr ih.0, ih.1)
  ]
    where
      kept :
          p x ≡ true
          → (a ≡ x) ⊎ In a (keep_if p xs)
          → (In a (keep_if p xs) → In a xs × (p a ≡ true))
          → ((a ≡ x) ⊎ In a xs) × (p a ≡ true)
      kept t (inl e) ih = (inl e, rw e t)
      kept t (inr n) ih = (inr (ih n).0, (ih n).1)

  pub In-keep_if_of :
      (p : A → Bool) (xs : List A) {a : A} → In a xs → p a ≡ true → In a (keep_if p xs)
  In-keep_if_of p [] m h = elim m [ ]
  In-keep_if_of p (x ∷ xs) (inl e) h = ground arith
  In-keep_if_of p (x ∷ xs) (inr m) h = ground (arith, In-keep_if_of p xs m h)

-- `xs.includes(s)` on texts
abbrev pub str_mem : String → List String → Bool
str_mem s = any (str_eq s)
