-- ===== src/DeployOutcome/Uuid.antt =====
-- The written form of a lease's id: five groups of hexadecimal digits with dashes between.
use manifest_mcp_mono.Common.{
  ℕ, zero, suc, ◌≤◌, ◌≡◌, ◌⊎◌, refl, ap, ◌∙◌, true, List, [], ◌∷◌, ◌++◌, Text, arith,
}
use manifest_mcp_mono.DeployOutcome.{UuidUnit, hex, dash, is_hex}
use manifest_mcp_mono.DeployOutcome.Lease.{Fits, at_end, one_unit, IsUuid}

-- 0-9, A-F or a-f, by the code points.
abbrev pub HexDigit : ℕ → Type 0
HexDigit c = ((48 ≤ c) × (c ≤ 57)) ⊎ (((65 ≤ c) × (c ≤ 70)) ⊎ ((97 ≤ c) × (c ≤ 102)))

-- A text of so many hexadecimal digits.
pub data Digits : ℕ → Text → Type 0 where
  no_digit : Digits zero []
  one_digit : {n c : ℕ} {s : Text} → HexDigit c → Digits n s → Digits (suc n) (c ∷ s)

-- 8, 4, 4, 4 and 12 digits, with a dash (45) between.
pub record UuidForm (u : Text) : Type 0 where
  pub first : Text
  pub second : Text
  pub third : Text
  pub fourth : Text
  pub fifth : Text
  pub of_8 : Digits 8 first
  pub of_4 : Digits 4 second
  pub of_4b : Digits 4 third
  pub of_4c : Digits 4 fourth
  pub of_12 : Digits 12 fifth
  pub whole : u ≡ first ++ (45 ∷ (second ++ (45 ∷ (third ++ (45 ∷ (fourth ++ (45 ∷ fifth)))))))

is_hex-HexDigit : (c : ℕ) → is_hex c ≡ true → HexDigit c
unfolding is_hex
is_hex-HexDigit c h = ground (arith, h)

abbrev hexes : ℕ → List UuidUnit → List UuidUnit
hexes zero ks = ks
hexes (suc n) ks = hex ∷ hexes n ks

-- The digits at the front of a text that a pattern describes.
hexes-Digits :
    (n : ℕ) (ks : List UuidUnit) (s : Text)
    → Fits (hexes n ks) s
    → (a : Text) × (b : Text) × Digits n a × Fits ks b × (s ≡ a ++ b)
hexes-Digits zero ks s f = ([], s, no_digit, f, refl)
hexes-Digits (suc n) ks [] f = elim f [ ]
hexes-Digits (suc n) ks (c ∷ s) (one_unit fit rest) =
    let (a, b, digits, left, split) = hexes-Digits n ks s rest in
    (c ∷ a, b, one_digit (is_hex-HexDigit c fit) digits, left, ap (λ t. c ∷ t) split)

hexes_last : (n : ℕ) (s : Text) → Fits (hexes n []) s → Digits n s
hexes_last zero [] at_end = no_digit
hexes_last zero (c ∷ s) f = elim f [ ]
hexes_last (suc n) [] f = elim f [ ]
hexes_last (suc n) (c ∷ s) (one_unit fit rest) =
    one_digit (is_hex-HexDigit c fit) (hexes_last n s rest)

-- The dash after them.
after_dash :
    (ks : List UuidUnit) (s : Text) → Fits (dash ∷ ks) s → (b : Text) × Fits ks b × (s ≡ 45 ∷ b)
after_dash ks [] f = elim f [ ]
after_dash ks (c ∷ s) (one_unit fit rest) = (s, rest, ap (λ d. d ∷ s) (ground (arith, fit)))

-- A group of digits and the dash after it.
hexes_group :
    (n : ℕ) (ks : List UuidUnit) (s : Text)
    → Fits (hexes n (dash ∷ ks)) s
    → (a : Text) × (b : Text) × Digits n a × Fits ks b × (s ≡ a ++ (45 ∷ b))
hexes_group n ks s f =
    let (a, t, digits, left, split) = hexes-Digits n (dash ∷ ks) s f in
    let (b, rest, dashed) = after_dash ks t left in
    (a, b, digits, rest, split ∙ ap (λ v. a ++ v) dashed)

pub IsUuid-UuidForm : (u : Text) → IsUuid u → UuidForm u
IsUuid-UuidForm u f =
    let (first, s, of_8, f', e) =
      hexes_group 8 (hexes 4 (dash ∷ hexes 4 (dash ∷ hexes 4 (dash ∷ hexes 12 [])))) u f in
    let (second, t, of_4, g, e') =
      hexes_group 4 (hexes 4 (dash ∷ hexes 4 (dash ∷ hexes 12 []))) s f' in
    let (third, v, of_4b, h, e2) = hexes_group 4 (hexes 4 (dash ∷ hexes 12 [])) t g in
    let (fourth, w, of_4c, k, e3) = hexes_group 4 (hexes 12 []) v h in
    record {
      first = first;
      second = second;
      third = third;
      fourth = fourth;
      fifth = w;
      of_8 = of_8;
      of_4 = of_4;
      of_4b = of_4b;
      of_4c = of_4c;
      of_12 = hexes_last 12 w k;
      whole = cc (e, e', e2, e3);
    }
