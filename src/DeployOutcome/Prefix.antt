-- ===== src/DeployOutcome/Prefix.antt =====
-- `startsWith` and `includes` of core's retry.ts texts, as equations on texts.
use manifest_mcp_mono.Common.{
  ℕ, ◌≡◌, refl, ap, true, [], ◌∷◌, ◌++◌, Text, Bool-cases, inl, inr, arith,
}
use manifest_mcp_mono.Retry.Message.{starts_with, includes}

-- A text that starts with a prefix is the prefix and a rest.
pub starts_with_split : (p s : Text) → starts_with p s ≡ true → (rest : Text) × (s ≡ p ++ rest)
unfolding starts_with
starts_with_split [] s h = (s, refl)
starts_with_split (a ∷ p) [] h = cc h
starts_with_split (a ∷ p) (b ∷ s) h =
    let (rest, split) = starts_with_split p s (ground (arith, h)) in
    (rest, heads (ground (arith, h)) split)
  where
    heads : {a b : ℕ} {s t : Text} → a ≡ b → s ≡ t → b ∷ s ≡ a ∷ t
    heads e f = cc (e, f)

-- A prefix before any rest is a prefix.
pub starts_with_prefix : (p rest : Text) → starts_with p (p ++ rest) ≡ true
unfolding starts_with
starts_with_prefix [] rest = refl
starts_with_prefix (a ∷ p) rest = ground (arith, starts_with_prefix p rest)

-- A text that includes a needle is split around it.
pub includes_split :
    (needle s : Text)
    → includes needle s ≡ true
    → (before : Text) × (after : Text) × (s ≡ before ++ (needle ++ after))
unfolding includes
includes_split needle [] h =
    let (after, split) = starts_with_split needle [] h in ([], after, split)
includes_split needle (c ∷ s) h = elim (Bool-cases (starts_with needle (c ∷ s))) [
  | inl here ↦ let (after, split) = starts_with_split needle (c ∷ s) here in ([], after, split)
  | inr away ↦
      let (before, after, split) = includes_split needle s (rw away at h) in
      (c ∷ before, after, ap (λ t. c ∷ t) split)
]
