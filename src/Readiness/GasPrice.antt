-- ===== src/Readiness/GasPrice.antt =====
-- packages/agent-core/src/internals/evaluate-readiness.ts, GAS_PRICE_RE: the denomination of a gas price.
use manifest_mcp_mono.Common.{
  ℕ, Bool, true, false, [], ◌∷◌, ◌&&◌, ◌||◌, Option, none, some, Text, is_digit, is_letter, ◌==◌,
  leb, length, if◌then◌else◌, ◌≡◌, refl, codes,
}

-- The digits at the front, and what follows them.
unfoldable pub skip_digits : Text → Text
skip_digits [] = []
skip_digits (c ∷ s) = elim (is_digit c) [ true ↦ skip_digits s | false ↦ c ∷ s ]

-- `[0-9]+`
unfoldable pub digits : Text → Option Text
unfolding skip_digits
digits [] = none
digits (c ∷ s) = if is_digit c then some (skip_digits s) else none

-- `(?:\.[0-9]+)?`, where what comes next begins with a letter
unfoldable pub fraction : Text → Option Text
unfolding digits
fraction [] = some []
fraction (c ∷ s) = if c == b'.' then digits s else some (c ∷ s)

unfoldable pub is_denom_char : ℕ → Bool
is_denom_char c =
    is_letter c || is_digit c || c == b'/' || c == b':' || c == b'.' || c == b'_' || c == b'-'

unfoldable pub all_denom_chars : Text → Bool
unfolding is_denom_char
all_denom_chars [] = true
all_denom_chars (c ∷ s) = is_denom_char c && all_denom_chars s

-- `[a-zA-Z][a-zA-Z0-9/:._-]{2,127}$`
unfoldable pub denom : Text → Option Text
unfolding all_denom_chars
denom [] = none
denom (c ∷ s) =
    if is_letter c && all_denom_chars s && leb 2 (length s) && leb (length s) 127
    then some (c ∷ s)
    else none

-- The capture of the whole pattern.
unfoldable pub gas_denom : Text → Option Text
unfolding digits fraction denom
gas_denom s = elim (digits s) [
  | none ↦ none
  | some rest ↦ elim (fraction rest) [ none ↦ none | some tail ↦ denom tail ]
]

gas_prices :
    (gas_denom (codes "0.37upwr") ≡ some (codes "upwr"))
    × (gas_denom (codes "1factory/a1/upwr") ≡ some (codes "factory/a1/upwr"))
    × (gas_denom (codes "1.umfx") ≡ none)
    × (gas_denom (codes "umfx") ≡ none)
    × (gas_denom (codes "1um") ≡ none)
    × (gas_denom (codes "1umfx ") ≡ none)
unfolding gas_denom
gas_prices = (refl, refl, refl, refl, refl, refl)
