-- ===== src/Redaction/Phrases.antt =====
-- Which texts are taken for a mnemonic.
use manifest_mcp_mono.Common.{
  ℕ, ◌<◌, ◌≡◌, ◌⊎◌, inl, inr, refl, ◌∙◌, Bool, true, false, ◌||◌, List, [], ◌∷◌, ◌++◌, Bool-cases,
  ltb, Text, is_space, length, arith, if◌then◌else◌, same_text, same_text_iff,
}
use manifest_mcp_mono.Redaction.Mnemonic.{
  starts_space, runs, or_empty_word, words, is_possible_mnemonic, strip_text_controls,
  redacted_mnemonic, redact_text,
}
use manifest_mcp_mono.Redaction.Deletion.{Sub-words, strip_text_controls-Sub}

-- A word without a space in it.
pub data IsWord : Text → Type 0 where
  single : {c : ℕ} → is_space c ≡ false → IsWord (c ∷ [])
  longer : {c : ℕ} {w : Text} → is_space c ≡ false → IsWord w → IsWord (c ∷ w)

-- A text made of these words, with whitespace before, between and after them.
pub data Phrase : List Text → Text → Type 0 where
  finished : Phrase [] []
  space : {c : ℕ} {ws : List Text} {s : Text} → is_space c ≡ true → Phrase ws s → Phrase ws (c ∷ s)
  word :
      {w : Text} {ws : List Text} {s : Text}
      → IsWord w
      → starts_space s ≡ true
      → Phrase ws s
      → Phrase (w ∷ ws) (w ++ s)

word-runs :
    {w : Text} (ws : List Text) (s : Text)
    → IsWord w
    → starts_space s ≡ true
    → runs s ≡ ws
    → (runs (w ++ s) ≡ w ∷ ws) × (starts_space (w ++ s) ≡ false)
unfolding runs
word-runs ws s (single unit) ends e = (rw (unit, ends, e) refl, unit)
word-runs ws s (longer {c = c} {w = w} unit rest) ends e =
    let (split, inner) = word-runs ws s rest ends e in (rw (unit, inner, split) refl, unit)

Phrase-runs : {ws : List Text} {s : Text} → Phrase ws s → runs s ≡ ws
unfolding runs
Phrase-runs finished = refl
Phrase-runs (space {s = s} blank rest) = rw blank (Phrase-runs rest)
Phrase-runs (word {ws = ws} {s = s} is_word ends rest) =
    (word-runs ws s is_word ends (Phrase-runs rest)).0

long_enough : (ws : List Text) → length ws < 12 → is_possible_mnemonic ws ≡ false
unfolding is_possible_mnemonic
long_enough ws h = ground (arith, h)

some_words : (ws : List Text) → is_possible_mnemonic ws ≡ true → or_empty_word ws ≡ ws
some_words [] h = cc (long_enough [] (omega arith), h)
some_words (w ∷ ws) h = refl

module _ (is_format : ℕ → Bool) where
  -- The shortcuts of redactText change nothing: a text is redacted exactly where its own words or
  -- those of its visible part may be a mnemonic, and is otherwise returned as asked.
  pub redact_text_lem :
      (value : Text) (remove_controls : Bool)
      → redact_text is_format value remove_controls ≡ (
          if is_possible_mnemonic (words value)
            || is_possible_mnemonic (words (strip_text_controls is_format value))
          then redacted_mnemonic is_format
          else if remove_controls
          then strip_text_controls is_format value
          else value)
  unfolding redact_text
  redact_text_lem value remove_controls = elim (Bool-cases (ltb (length (words value)) 12)) [
    | inl short ↦
        let few : length (words value) < 12 = ground (arith, short) in
        let fewer = Sub-words (strip_text_controls-Sub is_format value) in
        rw
          (
            short,
            long_enough (words value) few,
            long_enough (words (strip_text_controls is_format value)) (omega (arith, few, fewer)),
          )
          refl
    | inr long ↦ elim (Bool-cases (is_possible_mnemonic (words value))) [
      | inl found ↦ rw (long, found) refl
      | inr other ↦ elim (Bool-cases (same_text (strip_text_controls is_format value) value)) [
        | inl same ↦
            let visible : is_possible_mnemonic (words (strip_text_controls is_format value))
                ≡ false =
              rw ((same_text_iff (strip_text_controls is_format value) value).0 same) other in
            rw (long, other, same, visible) refl
        | inr changed ↦ rw (long, other, changed) refl
      ]
    ]
  ]

  -- A text whose words may be a mnemonic, however they are spaced, is redacted, and so is a text that
  -- is such a phrase once its controls are stripped.
  pub mnemonic_is_redacted :
      (ws : List Text) (value : Text) (remove_controls : Bool)
      → is_possible_mnemonic ws ≡ true
      → Phrase ws value ⊎ Phrase ws (strip_text_controls is_format value)
      → redact_text is_format value remove_controls ≡ redacted_mnemonic is_format
  unfolding words
  mnemonic_is_redacted ws value remove_controls mnemonic phrase =
      redact_text_lem value remove_controls ∙ marked phrase
    where
      found : (s : Text) → Phrase ws s → is_possible_mnemonic (words s) ≡ true
      found s p = rw (Phrase-runs p, some_words ws mnemonic) mnemonic

      marked :
          Phrase ws value ⊎ Phrase ws (strip_text_controls is_format value)
          → (if is_possible_mnemonic (words value)
                || is_possible_mnemonic (words (strip_text_controls is_format value))
              then redacted_mnemonic is_format
              else if remove_controls
              then strip_text_controls is_format value
              else value)
            ≡ redacted_mnemonic is_format
      marked (inl p) = rw (found value p) refl
      marked (inr p) = elim (Bool-cases (is_possible_mnemonic (words value))) [
        | inl own ↦ rw own refl
        | inr other ↦ rw (other, found (strip_text_controls is_format value) p) refl
      ]
