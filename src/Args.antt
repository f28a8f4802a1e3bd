-- ===== src/Args.antt =====
-- packages/core/src/transactions/utils.ts: the flags of an argument list, and how what they consume is
-- taken out of the positional arguments. The error's code and its wording are left out.
pub mod Flags
pub mod Single
pub mod Values
pub mod Pairs
pub mod Items
pub mod Tests
use manifest_mcp_mono.Common.{
  ℕ, zero, suc, ◌+◌, Bool, true, false, ◌&&◌, ◌||◌, not, List, [], ◌∷◌, Option, none, some, Text,
  same_text, length, get_elem?, ltb, leb, ◌==◌, if◌then◌else◌, is_some, any, Result, ok, err, ◌>>=◌,
}

pub data ArgError : Type 0 where
  duplicate_flag missing_value : (flag : Text) → ArgError
  too_many_args : (count : ℕ) → ArgError
  missing_args : (expected received : List Text) → ArgError

pub record ExtractedFlag : Type 0 where
  pub value : Option Text
  pub consumed_indices : List ℕ

pub record ExtractedRepeatedFlag : Type 0 where
  pub values : List Text
  pub consumed_indices : List ℕ

pub record ExtractedBooleanFlag : Type 0 where
  pub value : Bool
  pub remaining_args : List Text

abbrev pub max_args : ℕ
max_args = 100

-- `args.indexOf(x)`, none for -1, counted from `i`
pub index_from : ℕ → Text → List Text → Option ℕ
index_from i x [] = none
index_from i x (a ∷ args) =
    let rest = index_from (suc i) x args in if same_text a x then some i else rest

pub index_of : Text → List Text → Option ℕ
unfolding index_from
index_of x args = index_from 0 x args

-- What stands after the place `i`.
pub after : ℕ → List Text → List Text
after i [] = []
after zero (a ∷ args) = args
after (suc i) (a ∷ args) = after i args

-- `value.startsWith('--')`
abbrev pub starts_flag : Text → Bool
starts_flag (a ∷ b ∷ s) = a == b'-' && b == b'-'
starts_flag _ = false

-- `!value || value.startsWith('--')`: no text that can follow a flag as its value.
abbrev pub is_no_value : Text → Bool
is_no_value [] = true
is_no_value (c ∷ s) = starts_flag (c ∷ s)

pub flag_value : Text → ℕ → List Text → Result ArgError ExtractedFlag
flag_value flag i [] = err (missing_value flag)
flag_value flag i (v ∷ rest) =
    if is_no_value v
    then err (missing_value flag)
    else ok (record { value = some v; consumed_indices = i ∷ suc i ∷ [] })

-- The flag at `i`: no other may stand after it.
pub flag_at : Text → List Text → ℕ → Result ArgError ExtractedFlag
unfolding flag_value after index_of
flag_at flag args i =
    if is_some (index_of flag (after i args))
    then err (duplicate_flag flag)
    else flag_value flag i (after i args)

pub extract_flag : List Text → Text → Result ArgError ExtractedFlag
unfolding index_of flag_at
extract_flag args flag = elim (index_of flag args) [
  | none ↦ ok (record { value = none; consumed_indices = [] })
  | some i ↦ flag_at flag args i
]

-- A flag and its value before what the rest of the loop collects.
abbrev pub collect : Text → ℕ → ExtractedRepeatedFlag → ExtractedRepeatedFlag
collect v i r = record { values = v ∷ r.values; consumed_indices = i ∷ suc i ∷ r.consumed_indices }

abbrev pub collected :
    Text → ℕ → Result ArgError ExtractedRepeatedFlag → Result ArgError ExtractedRepeatedFlag
collected v i r = r >>= λ more. ok (collect v i more)

-- The loop from the place `i` on.
pub collect_from : ℕ → Text → List Text → Result ArgError ExtractedRepeatedFlag
collect_from i flag [] = ok (record { values = []; consumed_indices = [] })
collect_from i flag (a ∷ []) =
    if same_text a flag
    then err (missing_value flag)
    else ok (record { values = []; consumed_indices = [] })
collect_from i flag (a ∷ v ∷ args) =
    let skip = collect_from (suc i) flag (v ∷ args) in
    let take = collected v i (collect_from (suc (suc i)) flag args) in
    if same_text a flag then (if is_no_value v then err (missing_value flag) else take) else skip

pub extract_repeated_flag : List Text → Text → Result ArgError ExtractedRepeatedFlag
unfolding collect_from
extract_repeated_flag args flag = collect_from 0 flag args

abbrev pub holds : List ℕ → ℕ → Bool
holds indices i = any (λ j. j == i) indices

-- The arguments from the place `i` on whose index is not consumed.
pub unconsumed_from : ℕ → List ℕ → List Text → List Text
unconsumed_from i consumed [] = []
unconsumed_from i consumed (a ∷ args) =
    let rest = unconsumed_from (suc i) consumed args in if holds consumed i then rest else a ∷ rest

pub filter_consumed_args : List Text → List ℕ → List Text
unfolding unconsumed_from
filter_consumed_args args [] = args
filter_consumed_args args (i ∷ is) = unconsumed_from 0 (i ∷ is) args

pub extract_boolean_flag : List Text → Text → ExtractedBooleanFlag
unfolding index_of unconsumed_from
extract_boolean_flag args flag = elim (index_of flag args) [
  | none ↦ record { value = false; remaining_args = args }
  | some i ↦ record { value = true; remaining_args = unconsumed_from 0 (i ∷ []) args }
]

pub validate_args_length : List Text → Result ArgError (List Text)
validate_args_length args =
    if ltb max_args (length args) then err (too_many_args (length args)) else ok args

abbrev pub first : ℕ → List Text → List Text
first zero names = []
first (suc n) [] = []
first (suc n) (name ∷ names) = name ∷ first n names

pub require_args : List Text → ℕ → List Text → Result ArgError (List Text)
require_args args min_count expected_names =
    if leb min_count (length args)
    then ok args
    else err (missing_args (first min_count expected_names) args)
