-- ===== src/Redaction/Display.antt =====
-- packages/core/src/server-utils.ts: capLength, sanitizeForModelText and sanitizeForDisplay. The runtime's
-- `normalize('NFC')` is a parameter, and a text is a list of code points.
use manifest_mcp_mono.Common.{
  ℕ, zero, suc, ◌≤◌, ◌<◌, ◌≡◌, ◌⊎◌, inl, inr, refl, Bool, true, false, ◌||◌, List, [], ◌∷◌, ◌++◌,
  length, ltb, leb, Text, arith, Bool-cases, if◌then◌else◌,
}
use manifest_mcp_mono.Redaction.Mnemonic.{
  in_range, is_text_control, drop_controls, needs_control_scan, strip_text_controls, remove_all,
  ansi_csi, ansi_osc, runs, redact_text, redacted_mnemonic, is_possible_mnemonic, words,
}
use manifest_mcp_mono.Redaction.Phrases.{redact_text_lem}

-- The first points of a text, and an ellipsis where that is not all of it.
unfoldable pub cap_length : Text → ℕ → Text
cap_length [] max = []
cap_length (c ∷ s) zero = 0x2026 ∷ []
cap_length (c ∷ s) (suc max) = c ∷ cap_length s max

abbrev pub max_tool_error_message_chars : ℕ
max_tool_error_message_chars = 2000

-- `replace(/\s+/g, ' ').trim()`: the runs of a text, with one space between.
abbrev pub join_runs : List Text → Text
join_runs [] = []
join_runs (w ∷ []) = w
join_runs (w ∷ v ∷ rest) = w ++ (32 ∷ join_runs (v ∷ rest))

abbrev pub or_placeholder : Text → ℕ → Text → Text
or_placeholder [] max placeholder = placeholder
or_placeholder (c ∷ s) max placeholder = cap_length (c ∷ s) max

cap_length-length : (s : Text) (max : ℕ) → length (cap_length s max) ≤ suc max
unfolding cap_length
cap_length-length [] max = omega arith
cap_length-length (c ∷ s) zero = omega arith
cap_length-length (c ∷ s) (suc max) = omega (arith, cap_length-length s max)

module _ (is_format : ℕ → Bool) where
  unfoldable pub sanitize_for_model_text : Text → ℕ → Text
  sanitize_for_model_text raw max = cap_length (redact_text is_format raw true) max

  -- Cc, Cf, Zl and Zp.
  abbrev pub is_display_control : ℕ → Bool
  is_display_control c = leb c 0x1f || in_range 0x7f 0x9f c || is_format c

  abbrev pub blank_controls : Text → Text
  blank_controls [] = []
  blank_controls (c ∷ s) = (if is_display_control c then 32 else c) ∷ blank_controls s

  unfoldable pub sanitize_for_display : (Text → Text) → Text → ℕ → Text → Text
  sanitize_for_display normalize raw max placeholder =
      or_placeholder (join_runs (runs (blank_controls (normalize raw)))) max placeholder

  -- A tab, a newline, or a point outside both control ranges that is no format character.
  abbrev pub IsPlain : ℕ → Type 0
  IsPlain c = ((c ≡ 9) ⊎ ((c ≡ 10) ⊎ ((32 ≤ c) × ((c < 127) ⊎ (159 < c))))) × (is_format c ≡ false)

  -- Every point of a text is plain.
  abbrev pub IsVisible : Text → Type 0
  IsVisible [] = Unit
  IsVisible (c ∷ s) = IsPlain c × IsVisible s

  in_plain_range :
      (c : ℕ)
      → (c < 9)
        ⊎ ((c ≡ 9)
            ⊎ ((c ≡ 10)
                ⊎ (((10 < c) × (c < 32))
                    ⊎ (((32 ≤ c) × (c < 127)) ⊎ (((127 ≤ c) × (c ≤ 159)) ⊎ (159 < c))))))
      → is_text_control is_format c ≡ false
      → (c ≡ 9) ⊎ ((c ≡ 10) ⊎ ((32 ≤ c) × ((c < 127) ⊎ (159 < c))))
  in_plain_range c (inl low) h = absurd (ground (arith, low, h))
  in_plain_range c (inr (inl tab)) h = inl tab
  in_plain_range c (inr (inr (inl newline))) h = inr (inl newline)
  in_plain_range c (inr (inr (inr (inl (above, below))))) h =
      absurd (ground (arith, above, below, h))
  in_plain_range c (inr (inr (inr (inr (inl (above, below)))))) h = inr (inr (above, inl below))
  in_plain_range c (inr (inr (inr (inr (inr (inl (above, below))))))) h =
      absurd (ground (arith, above, below, h))
  in_plain_range c (inr (inr (inr (inr (inr (inr high)))))) h =
      inr (inr (omega (arith, high), inr high))

  is_text_control-IsPlain : (c : ℕ) → is_text_control is_format c ≡ false → IsPlain c
  is_text_control-IsPlain c h = (in_plain_range c (omega arith) h, ground (arith, h))

  drop_controls-IsVisible : (s : Text) → IsVisible (drop_controls is_format s)
  drop_controls-IsVisible [] = tt
  drop_controls-IsVisible (c ∷ s) = elim (Bool-cases (is_text_control is_format c)) [
    | inl control ↦ rw control (drop_controls-IsVisible s)
    | inr plain ↦ rw plain (is_text_control-IsPlain c plain, drop_controls-IsVisible s)
  ]

  cap_length-IsVisible :
      (s : Text) (max : ℕ) → is_format 0x2026 ≡ false → IsVisible s → IsVisible (cap_length s max)
  unfolding cap_length
  cap_length-IsVisible [] max ellipsis h = tt
  cap_length-IsVisible (c ∷ s) zero ellipsis h = ((omega arith, ellipsis), tt)
  cap_length-IsVisible (c ∷ s) (suc max) ellipsis (first, rest) =
      (first, cap_length-IsVisible s max ellipsis rest)

  -- A text that needs no scan has nothing to strip.
  unscanned-IsVisible :
      (s : Text)
      → ((c : ℕ) → c < 0x80 → is_format c ≡ false)
      → needs_control_scan s ≡ false
      → IsVisible s
  unscanned-IsVisible [] ascii h = tt
  unscanned-IsVisible (c ∷ s) ascii h = (
    is_text_control-IsPlain c (printable (Bool-cases (ltb c 0x80))),
    unscanned-IsVisible s ascii (ground (arith, h)),
  )
    where
      printable : (ltb c 0x80 ≡ true) ⊎ (ltb c 0x80 ≡ false) → is_text_control is_format c ≡ false
      printable (inl low) = let plain = ascii c (ground (arith, low)) in ground (arith, plain, h)
      printable (inr high) = ground (arith, high, h)

  strip-IsVisible :
      (s : Text)
      → ((c : ℕ) → c < 0x80 → is_format c ≡ false)
      → IsVisible (strip_text_controls is_format s)
  unfolding strip_text_controls
  strip-IsVisible s ascii = elim (Bool-cases (needs_control_scan s)) [
    | inl scans ↦ rw scans (drop_controls-IsVisible (remove_all ansi_osc (remove_all ansi_csi s)))
    | inr clean ↦ rw clean (unscanned-IsVisible s ascii clean)
  ]

  -- Text for a model is bounded and visible: at most one point longer than the cap, and each point a
  -- tab, a newline, or one from U+0020 to U+007E or above U+009F that is no format character, where no
  -- ASCII character and no ellipsis is a format character.
  pub sanitize_for_model_text-IsVisible :
      (raw : Text) (max : ℕ)
      → ((c : ℕ) → c < 0x80 → is_format c ≡ false)
      → is_format 0x2026 ≡ false
      → IsVisible (sanitize_for_model_text raw max)
        × (length (sanitize_for_model_text raw max) ≤ suc max)
  unfolding sanitize_for_model_text
  sanitize_for_model_text-IsVisible raw max ascii ellipsis = (
    cap_length-IsVisible (redact_text is_format raw true) max ellipsis redacted,
    cap_length-length (redact_text is_format raw true) max,
  )
    where
      redacted : IsVisible (redact_text is_format raw true)
      redacted =
          rw (redact_text_lem is_format raw true)
            (elim (Bool-cases (
              is_possible_mnemonic (words raw)
              || is_possible_mnemonic (words (strip_text_controls is_format raw)))) [
                | inl found ↦
                    rw found (unscanned-IsVisible (redacted_mnemonic is_format) ascii refl)
                | inr plain ↦ rw plain (strip-IsVisible raw ascii)
              ])
