-- ===== src/Redaction/Mnemonic.antt =====
-- packages/core/src/internals/redact-mnemonic.ts and text-controls.ts beside it. The Unicode classes
-- Cf, Zl and Zp of the runtime's regular expressions are a parameter.
use manifest_mcp_mono.Common.{
  ℕ, zero, suc, ◌%◌, Bool, true, false, ◌&&◌, ◌||◌, not, List, [], ◌∷◌, Option, none, some, ◌==◌,
  ltb, leb, Text, codes, same_text, is_space, length, if◌then◌else◌,
}

abbrev pub push_unit : ℕ → List Text → List Text
push_unit c [] = (c ∷ []) ∷ []
push_unit c (w ∷ ws) = (c ∷ w) ∷ ws

abbrev pub starts_space : Text → Bool
starts_space [] = true
starts_space (c ∷ s) = is_space c

-- The runs of a text that are no space.
unfoldable pub runs : Text → List Text
runs [] = []
runs (c ∷ s) =
    let rest = runs s in
    if is_space c then rest else if starts_space s then (c ∷ []) ∷ rest else push_unit c rest

abbrev pub or_empty_word : List Text → List Text
or_empty_word [] = [] ∷ []
or_empty_word (w ∷ ws) = w ∷ ws

-- `trim().split(/\s+/)`: the runs, or one empty word where there is none.
unfoldable pub words : Text → List Text
words value = or_empty_word (runs value)

abbrev pub all_lower : Text → Bool
all_lower [] = true
all_lower (c ∷ s) = leb b'a' c && leb c b'z' && all_lower s

-- `/^[a-z]+$/`
abbrev pub is_lower_word : Text → Bool
is_lower_word [] = false
is_lower_word (c ∷ s) = all_lower (c ∷ s)

abbrev pub every_word : List Text → Bool
every_word [] = true
every_word (w ∷ ws) = is_lower_word w && every_word ws

unfoldable pub is_possible_mnemonic : List Text → Bool
is_possible_mnemonic ws =
    leb 12 (length ws) && leb (length ws) 24 && length ws % 3 == 0 && every_word ws

abbrev pub in_range : ℕ → ℕ → ℕ → Bool
in_range a b c = leb a c && leb c b

-- `[0-?]*[ -/]*[@-~]`: the rest of a control sequence, where there is one.
abbrev pub csi_end : Text → Option Text
csi_end [] = none
csi_end (c ∷ s) = if in_range 0x40 0x7e c then some s else none

abbrev pub csi_intermediates : Text → Option Text
csi_intermediates [] = csi_end []
csi_intermediates (c ∷ s) =
    let rest = csi_intermediates s in if in_range 0x20 0x2f c then rest else csi_end (c ∷ s)

abbrev pub csi_parameters : Text → Option Text
csi_parameters [] = csi_intermediates []
csi_parameters (c ∷ s) =
    let rest = csi_parameters s in if in_range 0x30 0x3f c then rest else csi_intermediates (c ∷ s)

abbrev pub after_escape : ℕ → (Text → Option Text) → Text → Option Text
after_escape second body [] = none
after_escape second body (c ∷ s) = if c == second then body s else none

-- A match of the CSI pattern at the start of a text: what follows it.
abbrev pub ansi_csi : Text → Option Text
ansi_csi [] = none
ansi_csi (c ∷ s) =
    if c == 0x9b
    then csi_parameters s
    else if c == 0x1b
    then after_escape b'[' csi_parameters s
    else none

-- `[^\u0007\u001b]*(?:\u0007|\u001b\\)`
abbrev pub osc_body : Text → Option Text
osc_body [] = none
osc_body (c ∷ s) =
    let rest = osc_body s in
    if c == 0x07 then some s else if c == 0x1b then after_escape b'\\' some s else rest

abbrev pub ansi_osc : Text → Option Text
ansi_osc [] = none
ansi_osc (c ∷ s) = if c == 0x1b then after_escape b']' osc_body s else none

-- `replace(pattern, '')`: fuel for each unit is enough, since a match is not empty.
unfoldable pub remove_matches : (Text → Option Text) → ℕ → Text → Text
remove_matches pattern zero s = s
remove_matches pattern (suc fuel) [] = []
remove_matches pattern (suc fuel) (c ∷ s) = elim (pattern (c ∷ s)) [
  | none ↦ c ∷ remove_matches pattern fuel s
  | some rest ↦ remove_matches pattern fuel rest
]

unfoldable pub remove_all : (Text → Option Text) → Text → Text
remove_all pattern s = remove_matches pattern (length s) s

abbrev pub needs_control_scan : Text → Bool
needs_control_scan [] = false
needs_control_scan (c ∷ s) =
    not (c == 0x09 || c == 0x0a || in_range 0x20 0x7e c) || needs_control_scan s

module _ (is_format : ℕ → Bool) where
  abbrev pub is_text_control : ℕ → Bool
  is_text_control c = leb c 0x08 || in_range 0x0b 0x1f c || in_range 0x7f 0x9f c || is_format c

  abbrev pub drop_controls : Text → Text
  drop_controls [] = []
  drop_controls (c ∷ s) = let rest = drop_controls s in if is_text_control c then rest else c ∷ rest

  unfoldable pub strip_text_controls : Text → Text
  strip_text_controls raw =
      if needs_control_scan raw
      then drop_controls (remove_all ansi_osc (remove_all ansi_csi raw))
      else raw

  abbrev pub redacted_mnemonic : Text
  redacted_mnemonic = codes "[REDACTED - possible mnemonic]"

  unfoldable pub redact_text : Text → Bool → Text
  redact_text value remove_controls =
      let visible = strip_text_controls value in
      if ltb (length (words value)) 12
      then if remove_controls then visible else value
      else if is_possible_mnemonic (words value)
      then redacted_mnemonic
      else if not (same_text visible value) && is_possible_mnemonic (words visible)
      then redacted_mnemonic
      else if remove_controls
      then visible
      else value

  unfoldable pub redact_possible_mnemonic : Text → Text
  redact_possible_mnemonic value = redact_text value false
