-- ===== src/Denoms/Tests.antt =====
-- Amounts in concrete denominations, and the theorem at one.
use manifest_mcp_mono.Common.{
  ◌≡◌, refl, [], ◌∷◌, Option, none, some, Text, codes, decimal, is_decimal, same_text, ℤ, pos,
  negsuc, if◌then◌else◌, Datum, string, null, array, object, element, no_elements, member,
  no_members,
}
use manifest_mcp_mono.Denoms.{
  scaled, scaled_integer, print, print_from, trim_zeros, DenomMap, denom_map_of, humanize_coin,
  humanize_balances, fmt_scaled_amount, denom_to_symbol,
}
use manifest_mcp_mono.Denoms.Scale.{IsScaled, scaled-IsScaled}

-- `BigInt` on unsigned decimal texts.
abbrev big_int : Text → Option ℤ
big_int t = if is_decimal t then some (pos (decimal t)) else none

abbrev chain_data : Datum
chain_data = object (
    member (codes "feeTokens")
      (array (
        element
          (object (
            member (codes "denom") (string (codes "umfx"))
              (member (codes "symbol") (string (codes "MFX")) no_members)))
          (element null no_elements)))
      no_members)

abbrev chain_denoms : DenomMap
chain_denoms = denom_map_of chain_data

scaled_run : scaled 1250300 6 ≡ codes "1.2503"
unfolding scaled print print_from trim_zeros
scaled_run = refl

whole_run : scaled 4000000 6 ≡ codes "4"
unfolding scaled print print_from trim_zeros
whole_run = refl

negative_run : scaled_integer (negsuc 49) 2 ≡ codes "-0.5"
unfolding scaled print print_from trim_zeros
negative_run = refl

balances_run :
    humanize_balances big_int chain_denoms
      ((some (codes "1500000"), some (codes "umfx")) ∷ (none, some (codes "ibc/F0")) ∷ [])
    ≡ codes "1.5 MFX, 0 ibc/F0"
unfolding humanize_balances humanize_coin fmt_scaled_amount denom_map_of scaled print print_from
    trim_zeros decimal is_decimal same_text
balances_run = refl

symbol_run : denom_to_symbol chain_denoms (some (codes "umfx")) ≡ codes "MFX"
unfolding denom_to_symbol denom_map_of same_text
symbol_run = refl

scaled-IsScaled_example : IsScaled 1250300 6 (scaled 1250300 6)
scaled-IsScaled_example = scaled-IsScaled 1250300 6
