-- ===== src/Args/Pairs.antt =====
-- What is parsed is what was written, piece by piece.
use mathlib.Core.Path.{Path}
use manifest_mcp_mono.Common.{
  ℕ, ◌^◌, ◌<◌, ◌≡◌, ◌≢◌, ◌↔◌, ◌⊎◌, refl, sym, ap, Bool, true, false, [], ◌∷◌, ◌++◌, Option, none,
  some, Text, ◌==◌, ==_iff, arith, Bool-cases, Option-cases, inl, inr, is_decimal, decimal, ok,
  ok-injective, if◌then◌else◌,
}
use manifest_mcp_mono.Args.Values.{colon, split_once, pair_of, parse_colon_pair, parse_uint64}

unfoldable pub no_colon : Text → Bool
no_colon [] = true
no_colon (c ∷ s) = if c == colon then false else no_colon s

split_once-join : (l r : Text) → no_colon l ≡ true → split_once (l ++ colon ∷ r) ≡ some (l, r)
unfolding split_once no_colon
split_once-join [] r h = refl
split_once-join (c ∷ l) r h = elim (Bool-cases (c == colon)) [
  | inl is ↦ cc (is, h)
  | inr other ↦ rw (other, split_once-join l r (rw other at h))
]

split_once_sound :
    (input l r : Text)
    → split_once input ≡ some (l, r)
    → (input ≡ l ++ colon ∷ r) × (no_colon l ≡ true)
unfolding split_once no_colon
split_once_sound [] l r h = cc h
split_once_sound (c ∷ s) l r h = elim (Bool-cases (c == colon)) [
  | inl is ↦ at_colon is (rw is at h)
  | inr other ↦ elim (Option-cases (split_once s)) [
    | inl gone ↦ absurd (dead other gone)
    | inr ((l', r'), found) ↦
        later other l' r' (split_once_sound s l' r' found) (rw (other, found) at h)
  ]
]
  where
    left : Option (Text × Text) → Text
    left none = l
    left (some (x, y)) = x

    right : Option (Text × Text) → Text
    right none = r
    right (some (x, y)) = y

    at_colon :
        c == colon ≡ true
        → Path (Option (Text × Text)) (some ([], s)) (some (l, r))
        → (c ∷ s ≡ l ++ colon ∷ r) × (no_colon l ≡ true)
    at_colon is e =
        let el = ap (λ o. left o) e in
        let er = ap (λ o. right o) e in rw (sym el, sym er, (==_iff c colon).0 is) (refl, refl)

    dead : c == colon ≡ false → split_once s ≢ none
    dead other gone = cc (other, gone, h)

    later :
        c == colon ≡ false
        → (l' r' : Text) → (s ≡ l' ++ colon ∷ r') × (no_colon l' ≡ true)
        → Path (Option (Text × Text)) (some (c ∷ l', r')) (some (l, r))
        → (c ∷ s ≡ l ++ colon ∷ r) × (no_colon l ≡ true)
    later other l' r' (split, clear) e =
        let el = ap (λ o. left o) e in
        let er = ap (λ o. right o) e in rw (sym el, sym er) (ap (λ t. c ∷ t) split, rw other clear)

pair_of_lem :
    (l r : Text) (p : Text × Text) → pair_of l r ≡ ok p → (p ≡ (l, r)) × (l ≢ []) × (r ≢ [])
unfolding pair_of
pair_of_lem [] r p h = cc h
pair_of_lem (c ∷ l) [] p h = cc h
pair_of_lem (c ∷ l) (d ∷ r) p h = (ok-injective p (c ∷ l, d ∷ r) _ h refl, λ e. cc e, λ e. cc e)

pair_of-ok : (l r : Text) → l ≢ [] → r ≢ [] → pair_of l r ≡ ok (l, r)
unfolding pair_of
pair_of-ok [] r hl hr = absurd (hl refl)
pair_of-ok (c ∷ l) [] hl hr = absurd (hr refl)
pair_of-ok (c ∷ l) (d ∷ r) hl hr = refl

-- A pair is parsed exactly into the texts that, joined by a colon, make the input, where both are
-- not empty and the first has no colon of its own.
pub parse_colon_pair_iff :
    (input l r : Text)
    → (parse_colon_pair input ≡ ok (l, r))
      ↔ ((input ≡ l ++ colon ∷ r) × (no_colon l ≡ true) × (l ≢ []) × (r ≢ []))
unfolding parse_colon_pair
parse_colon_pair_iff input l r = (λ h. sound (Option-cases (split_once input)) h, complete)
  where
    sound :
        (split_once input ≡ none) ⊎ ((p : Text × Text) × (split_once input ≡ some p))
        → parse_colon_pair input ≡ ok (l, r)
        → (input ≡ l ++ colon ∷ r) × (no_colon l ≡ true) × (l ≢ []) × (r ≢ [])
    sound (inl gone) h = absurd (dead gone h)
      where
        dead : split_once input ≡ none → parse_colon_pair input ≢ ok (l, r)
        dead gone h = cc (gone, h)
    sound (inr ((a, b), found)) h =
        let (split, clear) = split_once_sound input a b found in
        let (same, hl, hr) = pair_of_lem a b (l, r) (rw (parse_colon_pair, found) at h) in
        let el = ap (λ p. p.0) same in
        let er = ap (λ p. p.1) same in (rw (el, er) split, rw el clear, rw el hl, rw er hr)

    complete :
        (input ≡ l ++ colon ∷ r) × (no_colon l ≡ true) × (l ≢ []) × (r ≢ [])
        → parse_colon_pair input ≡ ok (l, r)
    complete (is, clear, hl, hr) =
        rw (parse_colon_pair, is, split_once-join l r clear) (pair_of-ok l r hl hr)

-- A text is parsed as an unsigned integer of 64 bits exactly where it is decimal digits whose value
-- fits, so the encoder never reduces it.
pub parse_uint64_iff :
    (s : Text) (n : ℕ)
    → (parse_uint64 s ≡ ok n) ↔ ((is_decimal s ≡ true) × (decimal s ≡ n) × (n < 2 ^ 64))
unfolding parse_uint64
parse_uint64_iff s n = (λ h. ground (arith, h), λ h. ground (arith, h))
