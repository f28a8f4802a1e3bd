-- ===== src/Denoms/Scale.antt =====
-- What a scaled amount is worth.
use mathlib.Core.Path.{subst}
use native.Mathlib.Nat.{pow-suc, pow-succ', one-le-pow, div-add-mod', mod-lt}
use manifest_mcp_mono.Common.{
  ℕ, zero, suc, ◌+◌, ◌-◌, ◌*◌, ◌/◌, ◌%◌, ◌^◌, ◌≤◌, ◌<◌, ◌≡◌, inl, inr, refl, ap, sym, ◌∙◌, true,
  false, [], ◌∷◌, ◌++◌, length, length-append, Text, is_digit, all_digits, &&-eq-true, decimal,
  decimal_from, ltb, ◌==◌, arith, Bool-cases, ==_iff,
}
use manifest_mcp_mono.Denoms.{
  print_from, print, zeros, pad_start, drop_zero, trim_zeros, with_fraction, fraction, scaled,
}

decimal_from-append :
    (n : ℕ) (s t : Text) → decimal_from n (s ++ t) ≡ decimal_from (decimal_from n s) t
unfolding decimal_from
decimal_from-append n [] t = refl
decimal_from-append n (c ∷ s) t = decimal_from-append (n * 10 + (c - b'0')) s t

print_from-decimal : (fuel n : ℕ) → n < fuel → decimal_from 0 (print_from fuel n) ≡ n
unfolding print_from decimal_from
print_from-decimal zero n h = absurd (omega (arith, h))
print_from-decimal (suc fuel) n h = elim (Bool-cases (ltb n 10)) [
  | inl digit ↦ rw digit (omega arith)
  | inr more ↦
      let big : 10 ≤ n = ground (arith, more) in
      let rest = print_from-decimal fuel (n / 10) (omega (arith, h, big)) in
      rw (more, decimal_from-append 0 (print_from fuel (n / 10)) ((b'0' + n % 10) ∷ []), rest)
        (omega arith)
]

print_from-length : (fuel n k : ℕ) → n < fuel → n < 10 ^ suc k → length (print_from fuel n) ≤ suc k
unfolding print_from
print_from-length zero n k h fits = absurd (omega (arith, h))
print_from-length (suc fuel) n k h fits = elim (Bool-cases (ltb n 10)) [
  | inl digit ↦ rw digit (omega arith)
  | inr more ↦
      let big : 10 ≤ n = ground (arith, more) in
      rw (more, length-append (print_from fuel (n / 10)) ((b'0' + n % 10) ∷ []))
        (shorter k big fits (λ j. print_from-length fuel (n / 10) j (omega (arith, h, big))))
]
  where
    shorter :
        (k : ℕ)
        → 10 ≤ n
        → n < 10 ^ suc k
        → ((j : ℕ) → n / 10 < 10 ^ suc j → length (print_from fuel (n / 10)) ≤ suc j)
        → length (print_from fuel (n / 10)) + 1 ≤ suc k
    shorter zero big fits ih = absurd (omega (arith, big, fits))
    shorter (suc k) big fits ih =
        let power = pow-suc 10 (suc k) in
        let less = ih k (omega (arith, fits, power)) in omega (arith, less)

decimal_from-zeros : (n k : ℕ) → decimal_from n (zeros k) ≡ n * 10 ^ k
unfolding decimal_from
decimal_from-zeros n zero = omega arith
decimal_from-zeros n (suc k) =
    let power = pow-succ' 10 k in
    decimal_from-zeros (n * 10 + (b'0' - b'0')) k ∙ rw power (grind arith)

length-zeros : (k : ℕ) → length (zeros k) ≡ k
length-zeros zero = refl
length-zeros (suc k) = ap suc (length-zeros k)

-- A text without its last zeros, and how many they were.
trim_zeros-zeros : (s : Text) → (k : ℕ) × (s ≡ trim_zeros s ++ zeros k)
unfolding trim_zeros
trim_zeros-zeros [] = (0, refl)
trim_zeros-zeros (c ∷ s) = let (k, whole) = trim_zeros-zeros s in by_trimmed k (trim_zeros s) whole
  where
    by_trimmed :
        (k : ℕ) (t : Text) → s ≡ t ++ zeros k → (k : ℕ) × (c ∷ s ≡ drop_zero c t ++ zeros k)
    by_trimmed k (d ∷ t) whole = (k, ap (λ r. c ∷ r) whole)
    by_trimmed k [] whole = elim (Bool-cases (c == b'0')) [
      | inl is_zero ↦ (suc k, rw (is_zero, (==_iff c b'0').0 is_zero, whole) refl)
      | inr other ↦ (k, rw other (ap (λ r. c ∷ r) whole))
    ]

-- The text does not end in a zero.
abbrev pub EndsNonzero : Text → Type 0
EndsNonzero [] = Unit
EndsNonzero (c ∷ []) = (c == b'0') ≡ false
EndsNonzero (c ∷ d ∷ s) = EndsNonzero (d ∷ s)

trim_zeros-EndsNonzero : (s : Text) → EndsNonzero (trim_zeros s)
unfolding trim_zeros
trim_zeros-EndsNonzero [] = tt
trim_zeros-EndsNonzero (c ∷ s) = by_trimmed (trim_zeros s) (trim_zeros-EndsNonzero s)
  where
    by_trimmed : (t : Text) → EndsNonzero t → EndsNonzero (drop_zero c t)
    by_trimmed (d ∷ t) h = h
    by_trimmed [] h = elim (Bool-cases (c == b'0')) [
      | inl is_zero ↦ rw is_zero tt
      | inr other ↦ rw other other
    ]

pad_start-decimal : (k : ℕ) (s : Text) → decimal_from 0 (zeros k ++ s) ≡ decimal_from 0 s
unfolding decimal_from
pad_start-decimal zero s = refl
pad_start-decimal (suc k) s = pad_start-decimal k s

padded :
    (k r : ℕ)
    → r < 10 ^ suc k
    → (decimal_from 0 (pad_start (suc k) (print r)) ≡ r)
      × (length (pad_start (suc k) (print r)) ≡ suc k)
unfolding print
padded k r fits =
    let short = print_from-length (suc r) r k (omega arith) fits in
    (
      pad_start-decimal (suc k - length (print r)) (print r)
          ∙ print_from-decimal (suc r) r (omega arith),
      length-append (zeros (suc k - length (print r))) (print r)
          ∙ rw (length-zeros (suc k - length (print r))) (omega (arith, short)),
    )

-- Without its last zeros, a text of digits stands for the same at its width.
trimmed :
    (s : Text)
    → (decimal_from 0 (trim_zeros s) * 10 ^ (length s - length (trim_zeros s)) ≡ decimal_from 0 s)
      × (length (trim_zeros s) ≤ length s)
trimmed s =
    let (j, whole) = trim_zeros-zeros s in
    let total : length s ≡ length (trim_zeros s) + j =
      ap length whole
      ∙ length-append (trim_zeros s) (zeros j)
      ∙ ap (λ m. length (trim_zeros s) + m) (length-zeros j) in
    let rest : length s - length (trim_zeros s) ≡ j = omega (arith, total) in
    (
      rw rest (
          sym (
            ap (decimal_from 0) whole
            ∙ decimal_from-append 0 (trim_zeros s) (zeros j)
            ∙ decimal_from-zeros (decimal_from 0 (trim_zeros s)) j)),
      omega (arith, total),
    )

-- The fraction of a remainder stands for it, at the width of the exponent.
fraction_lem :
    (e r : ℕ)
    → r < 10 ^ e
    → (decimal_from 0 (trim_zeros (pad_start e (print r)))
          * 10 ^ (e - length (trim_zeros (pad_start e (print r))))
        ≡ r)
      × (length (trim_zeros (pad_start e (print r))) ≤ e)
unfolding print print_from trim_zeros decimal_from
fraction_lem zero r fits =
    let none_left : r ≡ 0 = omega (arith, fits) in rw none_left (refl, omega arith)
fraction_lem (suc k) r fits =
    let (worth, wide) = padded k r fits in
    let (same, short) = trimmed (pad_start (suc k) (print r)) in
    (
      subst
          (λ m.
            decimal_from 0 (trim_zeros (pad_start (suc k) (print r)))
              * 10 ^ (m - length (trim_zeros (pad_start (suc k) (print r))))
            ≡ r)
          wide (same ∙ worth),
      subst (λ m. length (trim_zeros (pad_start (suc k) (print r))) ≤ m) wide short,
    )

all_digits-append :
    (s t : Text) → all_digits s ≡ true → all_digits t ≡ true → all_digits (s ++ t) ≡ true
unfolding all_digits
all_digits-append [] t h k = k
all_digits-append (c ∷ s) t h k =
    let (first, rest) = &&-eq-true (is_digit c) (all_digits s) h in
    rw (first, all_digits-append s t rest k) refl

all_digits_before : (s t : Text) → all_digits (s ++ t) ≡ true → all_digits s ≡ true
unfolding all_digits
all_digits_before [] t h = refl
all_digits_before (c ∷ s) t h =
    let (first, rest) = &&-eq-true (is_digit c) (all_digits (s ++ t)) h in
    rw (first, all_digits_before s t rest) refl

print_from-all_digits : (fuel n : ℕ) → all_digits (print_from fuel n) ≡ true
unfolding print_from all_digits
print_from-all_digits zero n = refl
print_from-all_digits (suc fuel) n = elim (Bool-cases (ltb n 10)) [
  | inl digit ↦ rw digit (ground (arith, digit))
  | inr more ↦ rw more (
      all_digits-append (print_from fuel (n / 10)) ((b'0' + n % 10) ∷ [])
        (print_from-all_digits fuel (n / 10)) (one_digit (n % 10) (mod-lt n (omega arith))))
]
  where
    one_digit : (d : ℕ) → d < 10 → all_digits ((b'0' + d) ∷ []) ≡ true
    one_digit d h = ground (arith, h)

zeros-all_digits : (k : ℕ) → all_digits (zeros k) ≡ true
unfolding all_digits
zeros-all_digits zero = refl
zeros-all_digits (suc k) = zeros-all_digits k

fraction-all_digits : (n e : ℕ) → all_digits (fraction n e) ≡ true
unfolding print
fraction-all_digits n e =
    let s = pad_start e (print (n % 10 ^ e)) in
    let (j, whole) = trim_zeros-zeros s in
    all_digits_before (trim_zeros s) (zeros j) (
      ap all_digits (sym whole)
      ∙ all_digits-append (zeros (e - length (print (n % 10 ^ e)))) (print (n % 10 ^ e))
          (zeros-all_digits (e - length (print (n % 10 ^ e))))
          (print_from-all_digits (suc (n % 10 ^ e)) (n % 10 ^ e)))

-- A text that stands for `n` with the point `e` places from the right: two runs of digits, the second
-- at most `e` long and without a zero at its end.
pub record IsScaled (n e : ℕ) (t : Text) : Type 0 where
  pub whole : Text
  pub part : Text
  pub printed : t ≡ with_fraction whole part
  pub exact : decimal whole * 10 ^ e + decimal part * 10 ^ (e - length part) ≡ n
  pub digits : (all_digits whole ≡ true) × (all_digits part ≡ true)
  pub short : length part ≤ e
  pub canonical : EndsNonzero part

-- Scaling loses nothing: for every amount and exponent, what is printed are digits that stand for
-- exactly the amount over that power of ten, with no more digits after the point than the exponent, none of them a zero
-- at the end.
pub scaled-IsScaled : (n e : ℕ) → IsScaled n e (scaled n e)
unfolding scaled decimal print
scaled-IsScaled n e =
    let (worth, short) = fraction_lem e (n % 10 ^ e) (mod-lt n (one-le-pow e 10 (omega arith))) in
    record {
      whole = print (n / 10 ^ e);
      part = fraction n e;
      printed = refl;
      exact =
          rw (print_from-decimal (suc (n / 10 ^ e)) (n / 10 ^ e) (omega arith), worth)
            (div-add-mod' n (10 ^ e));
      digits = (print_from-all_digits (suc (n / 10 ^ e)) (n / 10 ^ e), fraction-all_digits n e);
      short = short;
      canonical = trim_zeros-EndsNonzero (pad_start e (print (n % 10 ^ e)));
    }
