-- ===== src/AppManifest/Literals.antt =====
-- packages/fred/src/tools/validateManifestPayload.ts: integers of a manifest against the range of a signed
-- 64-bit integer, by their text.
use manifest_mcp_mono.Common.{
  ℕ, suc, ◌+◌, ◌-◌, ◌*◌, ◌^◌, ◌≤◌, ◌<◌, ◌≡◌, ◌↔◌, ◌⊎◌, inl, inr, refl, sym, [], ◌∷◌, Text, codes,
  length, ltb, ◌==◌, ==_iff, arith, Bool, Bool-cases, true, false, ◌&&◌, ◌||◌, is_digit, all_digits,
  decimal, decimal_from, &&-eq-true, if◌then◌else◌,
}

abbrev pub max_int64_literal : Text
max_int64_literal = codes "9223372036854775807"

abbrev pub min_int64_magnitude_literal : Text
min_int64_magnitude_literal = codes "9223372036854775808"

-- `a <= b` on texts
unfoldable pub text_le : Text → Text → Bool
text_le [] t = true
text_le (c ∷ s) [] = false
text_le (c ∷ s) (d ∷ t) = let rest = text_le s t in ltb c d || c == d && rest

abbrev is_negative : Text → Bool
is_negative [] = false
is_negative (c ∷ s) = c == b'-'

abbrev rest_of : Text → Text
rest_of [] = []
rest_of (c ∷ s) = s

abbrev pub digits_of : Text → Text
digits_of literal = if is_negative literal then rest_of literal else literal

abbrev pub limit_of : Text → Text
limit_of literal = if is_negative literal then min_int64_magnitude_literal else max_int64_literal

abbrev pub within_limit : Text → Text → Bool
within_limit digits limit =
    ltb (length digits) (length limit) || length digits == length limit && text_le digits limit

unfoldable pub integer_literal_fits_int64 : Text → Bool
unfolding text_le
integer_literal_fits_int64 literal = within_limit (digits_of literal) (limit_of literal)

-- The digits of a number that is not zero, as JSON writes them.
abbrev pub IsWhole : Text → Type 0
IsWhole [] = ⊥
IsWhole (c ∷ s) = (all_digits (c ∷ s) ≡ true) × (b'0' < c)

digit_bounds : (c : ℕ) → is_digit c ≡ true → (b'0' ≤ c) × (c ≤ b'9')
digit_bounds c h = ground (arith, h)

-- Of two texts of one length, the one read after the smaller number is smaller.
lt_from :
    (m n : ℕ) (s t : Text)
    → m < n
    → length s ≡ length t
    → all_digits s ≡ true
    → all_digits t ≡ true
    → decimal_from m s < decimal_from n t
unfolding decimal_from all_digits
lt_from m n [] [] h e hs ht = h
lt_from m n [] (d ∷ t) h e hs ht = omega (arith, e)
lt_from m n (c ∷ s) [] h e hs ht = omega (arith, e)
lt_from m n (c ∷ s) (d ∷ t) h e hs ht =
    let (hc, hs') = &&-eq-true (is_digit c) (all_digits s) hs in
    let (hd, ht') = &&-eq-true (is_digit d) (all_digits t) ht in
    let (c0, c9) = digit_bounds c hc in
    let (d0, d9) = digit_bounds d hd in
    lt_from (m * 10 + (c - b'0')) (n * 10 + (d - b'0')) s t (omega (arith, h, c0, c9, d0, d9))
      (omega (arith, e)) hs' ht'

-- A longer text after a number that is not zero is larger.
shorter_lt :
    (n : ℕ) (s t : Text)
    → 0 < n
    → length s ≤ length t
    → all_digits s ≡ true
    → all_digits t ≡ true
    → decimal_from 0 s < decimal_from n t
unfolding decimal_from all_digits
shorter_lt n s [] h e hs ht = lt_from 0 n s [] h (omega (arith, e)) hs refl
shorter_lt n s (d ∷ t) h e hs ht = elim (Bool-cases (length s == suc (length t))) [
  | inl same ↦ lt_from 0 n s (d ∷ t) h ((==_iff (length s) (suc (length t))).0 same) hs ht
  | inr less ↦
      shorter_lt (n * 10 + (d - b'0')) s t (omega (arith, h)) (ground (arith, e, less)) hs
        (&&-eq-true (is_digit d) (all_digits t) ht).1
]

order : (c d : ℕ) → (c < d) ⊎ ((c ≡ d) ⊎ (d < c))
order c d = ground arith

-- The first units decide where they differ.
first_less : (c d : ℕ) (b : Bool) → c < d → (ltb c d || c == d && b) ≡ true
first_less c d b h = ground (arith, h)

first_same : (c d : ℕ) (b : Bool) → c ≡ d → (ltb c d || c == d && b) ≡ b
first_same c d b h = ground (arith, h)

first_more : (c d : ℕ) (b : Bool) → d < c → (ltb c d || c == d && b) ≡ false
first_more c d b h = ground (arith, h)

text_le_iff :
    (n : ℕ) (s t : Text)
    → length s ≡ length t
    → all_digits s ≡ true
    → all_digits t ≡ true
    → (text_le s t ≡ true) ↔ (decimal_from n s ≤ decimal_from n t)
unfolding text_le decimal_from all_digits
text_le_iff n [] [] e hs ht = (λ h. omega arith, λ h. refl)
text_le_iff n [] (d ∷ t) e hs ht = absurd (omega (arith, e))
text_le_iff n (c ∷ s) [] e hs ht = absurd (omega (arith, e))
text_le_iff n (c ∷ s) (d ∷ t) e hs ht =
    let (hc, hs') = &&-eq-true (is_digit c) (all_digits s) hs in
    let (hd, ht') = &&-eq-true (is_digit d) (all_digits t) ht in
    let (c0, c9) = digit_bounds c hc in
    let (d0, d9) = digit_bounds d hd in
    elim (order c d) [
      | inl less ↦
          let lt =
            lt_from (n * 10 + (c - b'0')) (n * 10 + (d - b'0')) s t (omega (arith, less, c0, d0))
              (omega (arith, e)) hs' ht' in
          (λ h. omega (arith, lt), λ h. first_less c d (text_le s t) less)
      | inr (inl same) ↦
          let (down, up) = text_le_iff (n * 10 + (d - b'0')) s t (omega (arith, e)) hs' ht' in
          rw (first_same c d (text_le s t) same) (rw same (down, up))
      | inr (inr more) ↦
          let gt =
            lt_from (n * 10 + (d - b'0')) (n * 10 + (c - b'0')) t s (omega (arith, more, c0, d0))
              (omega (arith, e)) ht' hs' in
          (λ h. cc (h, first_more c d (text_le s t) more), λ h. absurd (omega (arith, gt, h)))
    ]

tail_digits : (c : ℕ) (s : Text) → all_digits (c ∷ s) ≡ true → all_digits s ≡ true
unfolding all_digits
tail_digits c s h = (&&-eq-true (is_digit c) (all_digits s) h).1

longer_lt :
    (c d : ℕ) (s t : Text)
    → all_digits (c ∷ s) ≡ true
    → all_digits (d ∷ t) ≡ true
    → b'0' < d
    → length s < length t
    → decimal (c ∷ s) < decimal (d ∷ t)
unfolding decimal decimal_from
longer_lt c d s t hs ht d0 less =
    shorter_lt (0 * 10 + (d - b'0')) (c ∷ s) t (omega (arith, d0)) less hs (tail_digits d t ht)

-- Whole numbers against a limit, by length and then by text, as by value.
within_limit_iff :
    (digits limit : Text)
    → IsWhole digits
    → IsWhole limit
    → (within_limit digits limit ≡ true) ↔ (decimal digits ≤ decimal limit)
unfolding decimal
within_limit_iff [] limit w l = absurd w
within_limit_iff digits [] w l = absurd l
within_limit_iff (c ∷ s) (d ∷ t) (hs, c0) (ht, d0) = elim (order (length s) (length t)) [
  | inl less ↦
      let lt = longer_lt c d s t hs ht d0 less in
      (
        λ h. omega (arith, lt),
        λ h. first_less (suc (length s)) (suc (length t)) le (omega (arith, less)),
      )
  | inr (inl same) ↦
      rw (first_same (suc (length s)) (suc (length t)) le (omega (arith, same)))
        (text_le_iff 0 (c ∷ s) (d ∷ t) (omega (arith, same)) hs ht)
  | inr (inr more) ↦
      let gt = longer_lt d c t s ht hs c0 more in
      (
        λ h. cc (h, first_more (suc (length s)) (suc (length t)) le (omega (arith, more))),
        λ h. absurd (omega (arith, gt, h)),
      )
]
  where
    le : Bool
    le = text_le (c ∷ s) (d ∷ t)

-- The largest magnitude that a signed 64-bit integer of the literal's sign has.
abbrev pub int64_magnitude : Text → ℕ
int64_magnitude literal = if is_negative literal then 2 ^ 63 else 2 ^ 63 - 1

limit_value : (literal : Text) → decimal (limit_of literal) ≡ int64_magnitude literal
unfolding decimal decimal_from
limit_value literal = elim (Bool-cases (is_negative literal)) [
  | inl t ↦ rw t refl
  | inr f ↦ rw f refl
]

limit-IsWhole : (literal : Text) → IsWhole (limit_of literal)
unfolding all_digits
limit-IsWhole literal = elim (Bool-cases (is_negative literal)) [
  | inl t ↦ rw t (refl, omega arith)
  | inr f ↦ rw f (refl, omega arith)
]

zero_fits : (literal : Text) → within_limit (codes "0") (limit_of literal) ≡ true
unfolding text_le
zero_fits literal = elim (Bool-cases (is_negative literal)) [
  | inl t ↦ rw t refl
  | inr f ↦ rw f refl
]

zero_small : (literal : Text) → decimal (codes "0") ≤ int64_magnitude literal
unfolding decimal decimal_from
zero_small literal = omega arith

-- An integer as JSON writes it, zero or without a leading zero, is admitted by its text exactly where its
-- value is one of a signed 64-bit integer: of magnitude at most 2 ^ 63 if negative, else below 2 ^ 63.
pub integer_literal_fits_int64_iff :
    (literal : Text)
    → (digits_of literal ≡ codes "0") ⊎ IsWhole (digits_of literal)
    → (integer_literal_fits_int64 literal ≡ true)
      ↔ (decimal (digits_of literal) ≤ int64_magnitude literal)
unfolding integer_literal_fits_int64
integer_literal_fits_int64_iff literal (inr whole) =
    rw (sym (limit_value literal))
      (within_limit_iff (digits_of literal) (limit_of literal) whole (limit-IsWhole literal))
integer_literal_fits_int64_iff literal (inl zero_text) =
    rw zero_text (λ h. zero_small literal, λ h. zero_fits literal)
