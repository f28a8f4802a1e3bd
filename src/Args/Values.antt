-- ===== src/Args/Values.antt =====
-- packages/core/src/transactions/utils.ts and internals/protobuf-integers.ts: the values that stand in
-- arguments. The wording of the errors, with its hints, is left out.
use manifest_mcp_mono.Common.{
  ℕ, Bool, true, false, ◌&&◌, ◌||◌, List, [], ◌∷◌, Option, none, some, Text, ◌==◌, leb, length,
  is_digit, is_letter, is_decimal, decimal, if◌then◌else◌, Result, ok, err, ◌>>=◌,
}

pub data ValueError : Type 0 where
  missing_colon missing_left missing_right bad_integer out_of_range bad_format missing_sku_uuid :
      ValueError
  missing_quantity empty_service_name bad_service_name bad_amount : ValueError

abbrev pub colon : ℕ
colon = b':'

abbrev pub first_of : ℕ → Option (Text × Text) → Option (Text × Text)
first_of c none = none
first_of c (some (l, r)) = some (c ∷ l, r)

-- What stands before and after the first colon.
unfoldable pub split_once : Text → Option (Text × Text)
split_once [] = none
split_once (c ∷ s) = let rest = split_once s in if c == colon then some ([], s) else first_of c rest

unfoldable pub pair_of : Text → Text → Result ValueError (Text × Text)
pair_of [] r = err missing_left
pair_of (c ∷ l) [] = err missing_right
pair_of (c ∷ l) (d ∷ r) = ok (c ∷ l, d ∷ r)

unfoldable pub parse_colon_pair : Text → Result ValueError (Text × Text)
unfolding split_once pair_of
parse_colon_pair input = elim (split_once input) [
  | none ↦ err missing_colon
  | some (l, r) ↦ pair_of l r
]

abbrev pub max_uint64 : ℕ
max_uint64 = 18446744073709551615

unfoldable pub parse_uint64 : Text → Result ValueError ℕ
parse_uint64 s =
    if is_decimal s
    then (if leb (decimal s) max_uint64 then ok (decimal s) else err out_of_range)
    else err bad_integer

abbrev pub push : ℕ → List Text → List Text
push c [] = (c ∷ []) ∷ []
push c (p ∷ ps) = (c ∷ p) ∷ ps

-- `input.split(':')`
unfoldable pub split_colons : Text → List Text
split_colons [] = [] ∷ []
split_colons (c ∷ s) = let rest = split_colons s in if c == colon then [] ∷ rest else push c rest

abbrev pub is_label_end : ℕ → Bool
is_label_end c = (leb b'a' c && leb c b'z') || is_digit c

-- `[a-z0-9-]*[a-z0-9]$`
unfoldable pub label_tail : Text → Bool
label_tail [] = false
label_tail (c ∷ []) = is_label_end c
label_tail (c ∷ d ∷ s) = (is_label_end c || c == b'-') && label_tail (d ∷ s)

-- `DNS_LABEL_RE`
unfoldable pub is_dns_label : Text → Bool
unfolding label_tail
is_dns_label [] = false
is_dns_label (c ∷ s) = is_label_end c && label_tail (c ∷ s) && leb (length (c ∷ s)) 63

pub record ParsedLeaseItem : Type 0 where
  pub sku_uuid : Text
  pub quantity : ℕ
  pub service_name : Text

-- The optional third part; absent, the name is empty.
unfoldable pub service_of : Option Text → Result ValueError Text
service_of none = ok []
service_of (some []) = err empty_service_name
service_of (some (c ∷ s)) = if is_dns_label (c ∷ s) then ok (c ∷ s) else err bad_service_name

unfoldable pub lease_item : Text → Text → Option Text → Result ValueError ParsedLeaseItem
unfolding parse_uint64 service_of
lease_item [] quantity service = err missing_sku_uuid
lease_item (c ∷ s) [] service = err missing_quantity
lease_item (c ∷ s) (d ∷ q) service = parse_uint64 (d ∷ q) >>= λ n. service_of service >>= λ name.
    ok (record { sku_uuid = c ∷ s; quantity = n; service_name = name })

unfoldable pub lease_item_of : List Text → Result ValueError ParsedLeaseItem
unfolding lease_item
lease_item_of (sku ∷ quantity ∷ []) = lease_item sku quantity none
lease_item_of (sku ∷ quantity ∷ service ∷ []) = lease_item sku quantity (some service)
lease_item_of _ = err bad_format

unfoldable pub parse_lease_item : Text → Result ValueError ParsedLeaseItem
unfolding split_colons lease_item_of
parse_lease_item input = lease_item_of (split_colons input)

-- The digits at the front, and what follows them.
unfoldable pub span_digits : Text → Text × Text
span_digits [] = ([], [])
span_digits (c ∷ s) =
    let rest = span_digits s in if is_digit c then (c ∷ rest.0, rest.1) else ([], c ∷ s)

unfoldable pub denom_tail : Text → Bool
denom_tail [] = true
denom_tail (c ∷ s) =
    (is_letter c || is_digit c || c == b'/' || c == b'_' || c == b'-') && denom_tail s

-- `[a-zA-Z][a-zA-Z0-9/_-]*$`
unfoldable pub is_denom : Text → Bool
unfolding denom_tail
is_denom [] = false
is_denom (c ∷ s) = is_letter c && denom_tail s

unfoldable pub amount_of : Text × Text → Result ValueError (Text × Text)
unfolding is_denom
amount_of ([], denom) = err bad_amount
amount_of (c ∷ s, denom) = if is_denom denom then ok (c ∷ s, denom) else err bad_amount

unfoldable pub parse_amount : Text → Result ValueError (Text × Text)
unfolding span_digits amount_of
parse_amount s = amount_of (span_digits s)
