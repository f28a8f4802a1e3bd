-- ===== src/Args/Tests.antt =====
-- Arguments of a lease command, and the values in them.
use manifest_mcp_mono.Common.{
  ◌≡◌, refl, List, [], ◌∷◌, some, Text, codes, ok, err, is_decimal, decimal, same_text,
}
use manifest_mcp_mono.Args.{
  ExtractedFlag, ExtractedRepeatedFlag, duplicate_flag, missing_value, extract_flag,
  extract_repeated_flag, extract_boolean_flag, filter_consumed_args,
}
use manifest_mcp_mono.Args.Flags.{Weave, extract_repeated_flag-Weave}
use manifest_mcp_mono.Args.Values.{
  parse_colon_pair, parse_uint64, parse_lease_item, parse_amount, out_of_range, bad_amount,
  missing_right, bad_service_name, is_dns_label,
}
use manifest_mcp_mono.Args.Pairs.{no_colon}
use manifest_mcp_mono.Args.Items.{parse_lease_item-write_item}

abbrev memo_flag : Text
memo_flag = codes "--memo"

abbrev command : List Text
command = codes "1upwr" ∷ memo_flag ∷ codes "rent" ∷ codes "me" ∷ []

abbrev extracted : ExtractedFlag
extracted = record { value = some (codes "rent"); consumed_indices = 1 ∷ 2 ∷ [] }

abbrev extracted_all : ExtractedRepeatedFlag
extracted_all = record { values = codes "rent" ∷ []; consumed_indices = 1 ∷ 2 ∷ [] }

extract_flag_computed : extract_flag command memo_flag ≡ ok extracted
unfolding extract_flag same_text
extract_flag_computed = refl

extract_all_computed : extract_repeated_flag command memo_flag ≡ ok extracted_all
unfolding extract_repeated_flag same_text
extract_all_computed = refl

flag_errors :
    (extract_flag (memo_flag ∷ codes "a" ∷ memo_flag ∷ codes "b" ∷ []) memo_flag
      ≡ err (duplicate_flag memo_flag))
    × (extract_flag (memo_flag ∷ codes "--all" ∷ []) memo_flag ≡ err (missing_value memo_flag))
    × (extract_repeated_flag (memo_flag ∷ []) memo_flag ≡ err (missing_value memo_flag))
    × ((extract_boolean_flag
          (codes "a" ∷ memo_flag ∷ codes "b" ∷ memo_flag ∷ [])
          memo_flag).remaining_args
        ≡ codes "a" ∷ codes "b" ∷ memo_flag ∷ [])
unfolding extract_flag extract_repeated_flag extract_boolean_flag same_text
flag_errors = (refl, refl, refl, refl)

extract_repeated_flag-Weave_example :
    Weave memo_flag command (codes "rent" ∷ []) (filter_consumed_args command (1 ∷ 2 ∷ []))
extract_repeated_flag-Weave_example =
    extract_repeated_flag-Weave command memo_flag extracted_all extract_all_computed

value_errors :
    (parse_colon_pair (codes "addr:") ≡ err missing_right)
    × (parse_uint64 (codes "18446744073709551616") ≡ err out_of_range)
    × (parse_lease_item (codes "s:1:-web") ≡ err bad_service_name)
    × (parse_amount (codes "10 umfx") ≡ err bad_amount)
unfolding parse_colon_pair parse_uint64 parse_lease_item parse_amount is_decimal decimal
    is_dns_label
value_errors = (refl, refl, refl, refl)

parse_lease_item-write_item_example :
    parse_lease_item (codes "sku-1:2:web")
    ≡ ok (record { sku_uuid = codes "sku-1"; quantity = 2; service_name = codes "web" })
unfolding no_colon parse_uint64 is_decimal decimal is_dns_label
parse_lease_item-write_item_example =
    parse_lease_item-write_item (codes "sku-1") (codes "2") 2 (some (codes "web")) (λ e. cc e) refl
      refl refl
