-- ===== src/Denoms.antt =====
-- packages/agent-core/src/internals/humanize-denom.ts: amounts and denominations as a person reads them.
-- `BigInt` of a text is a parameter: none where it throws. The map's file is read by the runtime.
pub mod Scale
pub mod Tests
use manifest_mcp_mono.Common.{
  ℕ, zero, suc, ◌+◌, ◌-◌, ◌/◌, ◌%◌, ◌^◌, Bool, true, false, ◌&&◌, List, [], ◌∷◌, ◌++◌, length,
  Option, none, some, Text, codes, ltb, ◌==◌, same_text, Datum, string, array, object, null,
  undefined, truth, number, other, Elements, no_elements, element, field, ℤ, pos, negsuc,
  if◌then◌else◌,
}

-- `toString` of a natural number.
unfoldable pub print_from : ℕ → ℕ → Text
print_from zero n = []
print_from (suc fuel) n =
    let rest = print_from fuel (n / 10) in
    if ltb n 10 then (b'0' + n) ∷ [] else rest ++ ((b'0' + n % 10) ∷ [])

unfoldable pub print : ℕ → Text
print n = print_from (suc n) n

abbrev pub zeros : ℕ → Text
zeros zero = []
zeros (suc n) = b'0' ∷ zeros n

-- `padStart(width, '0')`
abbrev pub pad_start : ℕ → Text → Text
pad_start width s = zeros (width - length s) ++ s

-- `replace(/0+$/, '')`
abbrev pub drop_zero : ℕ → Text → Text
drop_zero c [] = if c == b'0' then [] else c ∷ []
drop_zero c (d ∷ s) = c ∷ d ∷ s

unfoldable pub trim_zeros : Text → Text
trim_zeros [] = []
trim_zeros (c ∷ s) = drop_zero c (trim_zeros s)

abbrev pub with_fraction : Text → Text → Text
with_fraction whole [] = whole
with_fraction whole (c ∷ s) = whole ++ (b'.' ∷ c ∷ s)

-- The fraction, as wide as the exponent and without zeros at its end.
abbrev pub fraction : ℕ → ℕ → Text
fraction digits exponent = trim_zeros (pad_start exponent (print (digits % 10 ^ exponent)))

unfoldable pub scaled : ℕ → ℕ → Text
scaled digits exponent = with_fraction (print (digits / 10 ^ exponent)) (fraction digits exponent)

abbrev pub scaled_integer : ℤ → ℕ → Text
scaled_integer (pos n) exponent = scaled n exponent
scaled_integer (negsuc n) exponent = b'-' ∷ scaled (suc n) exponent

abbrev pub known_exponent : ℕ
known_exponent = 6

pub record DenomLookup : Type 0 where
  pub symbol : Text
  pub exponent : ℕ

-- The map's entries, the newest first: a later entry for a denomination replaces an earlier one.
abbrev pub DenomMap : Type 0
DenomMap = List (Text × DenomLookup)

abbrev pub lookup_denom : DenomMap → Text → Option DenomLookup
lookup_denom [] denom = none
lookup_denom ((d, found) ∷ rest) denom =
    if same_text d denom then some found else lookup_denom rest denom

abbrev pub add_token : Datum → Datum → DenomMap → DenomMap
add_token (string denom) (string symbol) entries =
    (denom, record { symbol = symbol; exponent = known_exponent }) ∷ entries
add_token _ _ entries = entries

abbrev pub read_tokens : Elements → DenomMap → DenomMap
read_tokens no_elements entries = entries
read_tokens (element t rest) entries =
    read_tokens rest (add_token (field "denom" t) (field "symbol" t) entries)

abbrev pub fee_tokens : Datum → DenomMap
fee_tokens (array ts) = read_tokens ts []
fee_tokens _ = []

-- The map of a file that was read and parsed.
unfoldable pub denom_map_of : Datum → DenomMap
denom_map_of raw = fee_tokens (field "feeTokens" raw)

-- `join(', ')`
abbrev pub join : List Text → Text
join [] = []
join (t ∷ []) = t
join (t ∷ u ∷ rest) = t ++ codes ", " ++ join (u ∷ rest)

abbrev pub symbol_or : Text → Option DenomLookup → Text
symbol_or denom none = denom
symbol_or denom (some found) = found.symbol

unfoldable pub denom_to_symbol : DenomMap → Option Text → Text
denom_to_symbol denoms none = []
denom_to_symbol denoms (some []) = []
denom_to_symbol denoms (some (c ∷ s)) = symbol_or (c ∷ s) (lookup_denom denoms (c ∷ s))

module _ (big_int : Text → Option ℤ) (denoms : DenomMap) where
  unfoldable pub fmt_scaled_amount : Text → ℕ → Text
  fmt_scaled_amount amount exponent = elim (big_int amount) [
    | none ↦ amount
    | some n ↦ scaled_integer n exponent
  ]

  abbrev pub with_lookup : Text → Text → Option DenomLookup → Text
  with_lookup amount denom none = amount ++ codes " " ++ denom
  with_lookup amount denom (some found) =
      fmt_scaled_amount amount found.exponent ++ codes " " ++ found.symbol

  unfoldable pub humanize_coin : Text → Option Text → Text
  humanize_coin amount none = amount
  humanize_coin amount (some denom) = with_lookup amount denom (lookup_denom denoms denom)

  -- A balance is its amount and its denomination, none where it has none.
  abbrev pub humanize_balance : Option Text × Option Text → Text
  humanize_balance (none, denom) = humanize_coin (codes "0") denom
  humanize_balance (some amount, denom) = humanize_coin amount denom

  unfoldable pub humanize_balances : List (Option Text × Option Text) → Text
  humanize_balances [] = codes "(empty)"
  humanize_balances (b ∷ rest) = join (humanize_balance b ∷ humanize_each rest)
    where
      humanize_each : List (Option Text × Option Text) → List Text
      humanize_each [] = []
      humanize_each (b ∷ rest) = humanize_balance b ∷ humanize_each rest
