-- ===== src/Args/Items.antt =====
-- Lease items and amounts are read back as they were written.
use manifest_mcp_mono.Common.{
  ℕ, ◌≡◌, ◌≢◌, ◌↔◌, refl, ap, Bool, true, false, ◌||◌, [], ◌∷◌, ◌++◌, Option, none, some, Text,
  ◌==◌, arith, Bool-cases, inl, inr, is_digit, all_digits, is_decimal, ok, ok-injective, is_letter,
  &&-eq-true, get_or_else,
}
use manifest_mcp_mono.Args.Values.{
  colon, parse_uint64, split_colons, is_dns_label, label_tail, is_label_end, service_of, lease_item,
  lease_item_of, parse_lease_item, span_digits, is_denom, denom_tail, amount_of, parse_amount,
}
use manifest_mcp_mono.Args.Pairs.{no_colon, parse_uint64_iff}

split_colons-last : (s : Text) → no_colon s ≡ true → split_colons s ≡ s ∷ []
unfolding split_colons no_colon
split_colons-last [] h = refl
split_colons-last (c ∷ s) h = elim (Bool-cases (c == colon)) [
  | inl is ↦ cc (is, h)
  | inr other ↦ rw (other, split_colons-last s (rw other at h))
]

split_colons-join :
    (s t : Text) → no_colon s ≡ true → split_colons (s ++ colon ∷ t) ≡ s ∷ split_colons t
unfolding split_colons no_colon
split_colons-join [] t h = refl
split_colons-join (c ∷ s) t h = elim (Bool-cases (c == colon)) [
  | inl is ↦ cc (is, h)
  | inr other ↦ rw (other, split_colons-join s t (rw other at h))
]

all_digits-no_colon : (s : Text) → all_digits s ≡ true → no_colon s ≡ true
unfolding all_digits no_colon
all_digits-no_colon [] h = refl
all_digits-no_colon (c ∷ s) h =
    let (d, ds) = &&-eq-true (is_digit c) (all_digits s) h in
    let ih = all_digits-no_colon s ds in ground (arith, d, ih)

label_tail-no_colon : (s : Text) → label_tail s ≡ true → no_colon s ≡ true
unfolding label_tail no_colon
label_tail-no_colon [] h = cc h
label_tail-no_colon (c ∷ []) h = ground (arith, h)
label_tail-no_colon (c ∷ d ∷ s) h =
    let (first, rest) = &&-eq-true (is_label_end c || c == b'-') (label_tail (d ∷ s)) h in
    let ih = label_tail-no_colon (d ∷ s) rest in ground (arith, first, ih)

parse_uint64-digits : (q : Text) (n : ℕ) → parse_uint64 q ≡ ok n → (no_colon q ≡ true) × (q ≢ [])
unfolding is_decimal
parse_uint64-digits [] n h = absurd (empty h)
  where
    no_digits : is_decimal [] ≢ true
    no_digits h = cc h

    empty : parse_uint64 [] ≢ ok n
    empty h = no_digits ((parse_uint64_iff [] n).0 h).0
parse_uint64-digits (c ∷ q) n h =
    (all_digits-no_colon (c ∷ q) (digits_of ((parse_uint64_iff (c ∷ q) n).0 h).0), λ e. cc e)
  where
    digits_of : is_decimal (c ∷ q) ≡ true → all_digits (c ∷ q) ≡ true
    digits_of h = h

-- How a lease item is written, with its service if it has one.
abbrev pub write_item : Text → Text → Option Text → Text
write_item sku quantity none = sku ++ colon ∷ quantity
write_item sku quantity (some service) = sku ++ (colon ∷ (quantity ++ (colon ∷ service)))

abbrev pub is_service : Option Text → Bool
is_service none = true
is_service (some s) = is_dns_label s

lease_item-ok :
    (sku q : Text) (n : ℕ) (service : Option Text)
    → sku ≢ []
    → q ≢ []
    → parse_uint64 q ≡ ok n
    → is_service service ≡ true
    → lease_item sku q service
      ≡ ok (record { sku_uuid = sku; quantity = n; service_name = get_or_else service [] })
unfolding lease_item service_of is_dns_label
lease_item-ok [] q n service named given read fits = absurd (named refl)
lease_item-ok (c ∷ s) [] n service named given read fits = absurd (given refl)
lease_item-ok (c ∷ s) (d ∷ q) n none named given read fits = rw read
lease_item-ok (c ∷ s) (d ∷ q) n (some []) named given read fits = cc fits
lease_item-ok (c ∷ s) (d ∷ q) n (some (e ∷ t)) named given read fits = rw (read, fits)

is_dns_label-no_colon : (s : Text) → is_dns_label s ≡ true → no_colon s ≡ true
unfolding is_dns_label
is_dns_label-no_colon [] h = cc h
is_dns_label-no_colon (c ∷ s) h = label_tail-no_colon (c ∷ s) (ground (arith, h))

-- A lease item that is written with a SKU without a colon, a quantity that is an unsigned integer of
-- 64 bits and, if it has a service, an RFC 1123 label, is read back as these; without a service the
-- name read is empty.
pub parse_lease_item-write_item :
    (sku q : Text) (n : ℕ) (service : Option Text)
    → sku ≢ []
    → no_colon sku ≡ true
    → parse_uint64 q ≡ ok n
    → is_service service ≡ true
    → parse_lease_item (write_item sku q service)
      ≡ ok (record { sku_uuid = sku; quantity = n; service_name = get_or_else service [] })
unfolding parse_lease_item lease_item_of
parse_lease_item-write_item sku q n none named clear read fits =
    let (digits, given) = parse_uint64-digits q n read in
    rw (parse_lease_item, split_colons-join sku q clear, split_colons-last q digits)
      (lease_item-ok sku q n none named given read fits)
parse_lease_item-write_item sku q n (some s) named clear read fits =
    let (digits, given) = parse_uint64-digits q n read in
    rw
      (
        parse_lease_item,
        split_colons-join sku (q ++ colon ∷ s) clear,
        split_colons-join q s digits,
        split_colons-last s (is_dns_label-no_colon s fits),
      )
      (lease_item-ok sku q n (some s) named given read fits)

-- A text all of digits and one that does not begin with a digit come apart again.
span_digits-join :
    (a d : Text) → all_digits a ≡ true → is_denom d ≡ true → span_digits (a ++ d) ≡ (a, d)
unfolding span_digits all_digits is_denom
span_digits-join [] [] h k = cc k
span_digits-join [] (c ∷ d) h k =
    let letter = (&&-eq-true (is_letter c) (denom_tail d) k).0 in rw (no_digit letter)
  where
    no_digit : is_letter c ≡ true → is_digit c ≡ false
    no_digit letter = ground (arith, letter)
span_digits-join (c ∷ a) d h k =
    let (digit, digits) = &&-eq-true (is_digit c) (all_digits a) h in
    rw (digit, span_digits-join a d digits k)

span_digits_sound :
    (s : Text)
    → (s ≡ (span_digits s).0 ++ (span_digits s).1) × (all_digits (span_digits s).0 ≡ true)
unfolding span_digits all_digits
span_digits_sound [] = (refl, refl)
span_digits_sound (c ∷ s) =
    let (split, digits) = span_digits_sound s in
    elim (Bool-cases (is_digit c)) [
      | inl digit ↦ rw (digit) (ap (λ t. c ∷ t) split, rw (digit) digits)
      | inr other ↦ rw (other) (refl, refl)
    ]

amount_of_lem :
    (a d : Text) (p : Text × Text)
    → amount_of (a, d) ≡ ok p
    → (p ≡ (a, d)) × (a ≢ []) × (is_denom d ≡ true)
unfolding amount_of
amount_of_lem [] d p h = cc h
amount_of_lem (c ∷ a) d p h = elim (Bool-cases (is_denom d)) [
  | inl fits ↦ (ok-injective p (c ∷ a, d) _ h (rw fits), λ e. cc e, fits)
  | inr bad ↦ absurd (refuses bad)
]
  where
    refuses : is_denom d ≢ false
    refuses bad = cc (bad, h)

amount_of-ok : (a d : Text) → a ≢ [] → is_denom d ≡ true → amount_of (a, d) ≡ ok (a, d)
unfolding amount_of
amount_of-ok [] d h k = absurd (h refl)
amount_of-ok (c ∷ a) d h k = rw k

is_decimal_iff : (a : Text) → (is_decimal a ≡ true) ↔ ((a ≢ []) × (all_digits a ≡ true))
unfolding is_decimal
is_decimal_iff [] = (λ h. cc h, λ h. absurd (h.0 refl))
is_decimal_iff (c ∷ a) = (λ h. (λ e. cc e, h), λ h. h.1)

-- An amount is parsed exactly into a decimal number and a denomination that, one after the other,
-- make the text: nothing is dropped, and no other text is an amount.
pub parse_amount_iff :
    (s a d : Text)
    → (parse_amount s ≡ ok (a, d)) ↔ ((s ≡ a ++ d) × (is_decimal a ≡ true) × (is_denom d ≡ true))
unfolding parse_amount
parse_amount_iff s a d = (sound, complete)
  where
    sound : parse_amount s ≡ ok (a, d) → (s ≡ a ++ d) × (is_decimal a ≡ true) × (is_denom d ≡ true)
    sound h =
        let (split, digits) = span_digits_sound s in
        let (same, some_digits, fits) =
          amount_of_lem (span_digits s).0 (span_digits s).1 (a, d) h in
        let ea = ap (λ p. p.0) same in
        let ed = ap (λ p. p.1) same in
        (rw (ea, ed) split, (is_decimal_iff a).1 (rw ea some_digits, rw ea digits), rw ed fits)

    complete :
        (s ≡ a ++ d) × (is_decimal a ≡ true) × (is_denom d ≡ true) → parse_amount s ≡ ok (a, d)
    complete (split, number, fits) =
        let (some_digits, digits) = (is_decimal_iff a).0 number in
        rw (split, span_digits-join a d digits fits) (amount_of-ok a d some_digits fits)
