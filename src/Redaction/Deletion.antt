-- ===== src/Redaction/Deletion.antt =====
-- Stripping the controls of a text only deletes, and deleting makes no word.
use mathlib.Core.Option.{some-injective}
use mathlib.Core.Path.{subst}
use manifest_mcp_mono.Common.{
  ℕ, zero, suc, ◌≤◌, ◌≡◌, inl, inr, refl, ap, sym, ◌∙◌, Bool, true, false, List, [], ◌∷◌, Option,
  some, Bool-cases, Option-cases, ◌==◌, Text, is_space, length, arith, if◌then◌else◌,
}
use manifest_mcp_mono.Redaction.Mnemonic.{
  push_unit, starts_space, runs, or_empty_word, words, in_range, csi_end, csi_intermediates,
  csi_parameters, after_escape, ansi_csi, osc_body, ansi_osc, remove_matches, remove_all,
  needs_control_scan, is_text_control, drop_controls, strip_text_controls,
}

-- `t` is `s` with some of it deleted.
pub data Sub : Text → Text → Type 0 where
  done : Sub [] []
  keep : {c : ℕ} {t s : Text} → Sub t s → Sub (c ∷ t) (c ∷ s)
  drop : {c : ℕ} {t s : Text} → Sub t s → Sub t (c ∷ s)

Sub-refl : (s : Text) → Sub s s
Sub-refl [] = done
Sub-refl (c ∷ s) = keep (Sub-refl s)

Sub-trans : {r t s : Text} → Sub r t → Sub t s → Sub r s
Sub-trans a done = a
Sub-trans a (drop b) = drop (Sub-trans a b)
Sub-trans (keep a) (keep b) = keep (Sub-trans a b)
Sub-trans (drop a) (keep b) = drop (Sub-trans a b)

-- The number of words, and of those that do not begin at the front of the text.
mutual
  counted : Text → ℕ
  counted [] = 0
  counted (c ∷ s) = if is_space c then counted s else suc (closed s)

  closed : Text → ℕ
  closed [] = 0
  closed (c ∷ s) = if is_space c then counted s else closed s

counted-closed : (s : Text) → (closed s ≤ counted s) × (counted s ≤ suc (closed s))
unfolding counted
counted-closed [] = (omega arith, omega arith)
counted-closed (c ∷ s) =
    let (less, more) = counted-closed s in (ground (arith, less, more), ground (arith, less, more))

Sub-counted : {t s : Text} → Sub t s → (counted t ≤ counted s) × (closed t ≤ closed s)
unfolding counted
Sub-counted done = (omega arith, omega arith)
Sub-counted (keep a) =
    let (fewer, fewer_closed) = Sub-counted a in
    (ground (arith, fewer, fewer_closed), ground (arith, fewer, fewer_closed))
Sub-counted {t} (drop {s = s} a) =
    let (fewer, fewer_closed) = Sub-counted a in
    let (less, more) = counted-closed t in
    (
      ground (arith, fewer, fewer_closed, less, more),
      ground (arith, fewer, fewer_closed, less, more),
    )

length-push_unit : (c : ℕ) (ws : List Text) → 1 ≤ length ws → length (push_unit c ws) ≡ length ws
length-push_unit c [] h = absurd (omega arith)
length-push_unit c (w ∷ ws) h = refl

runs-counted :
    (s : Text)
    → (length (runs s) ≡ counted s)
      × (starts_space s ≡ true → closed s ≡ counted s)
      × (starts_space s ≡ false → suc (closed s) ≡ counted s)
unfolding runs counted
runs-counted [] = (refl, λ e. refl, λ e. cc e)
runs-counted (c ∷ s) =
    let (total, at_space, in_word) = runs-counted s in
    (by_unit total at_space in_word, λ e. ground (arith, e), λ e. ground (arith, e))
  where
    by_unit :
        length (runs s) ≡ counted s
        → (starts_space s ≡ true → closed s ≡ counted s)
        → (starts_space s ≡ false → suc (closed s) ≡ counted s)
        → length (runs (c ∷ s)) ≡ counted (c ∷ s)
    by_unit total at_space in_word = elim (Bool-cases (is_space c)) [
      | inl space ↦ rw space total
      | inr unit ↦ elim (Bool-cases (starts_space s)) [
        | inl last ↦ rw (unit, last) (ap suc (total ∙ sym (at_space last)))
        | inr inner ↦
            let whole = in_word inner in
            rw (unit, inner)
              (length-push_unit c (runs s) (omega (arith, total, whole)) ∙ total ∙ sym whole)
      ]
    ]

-- Deleting never makes a word.
pub Sub-words : {t s : Text} → Sub t s → length (words t) ≤ length (words s)
unfolding words
Sub-words {t} {s} a =
    let (fewer, _) = Sub-counted a in
    let (t_total, _, _) = runs-counted t in
    let (s_total, _, _) = runs-counted s in
    capped (runs t) (runs s) (omega (arith, fewer, t_total, s_total))
  where
    capped :
        (us vs : List Text)
        → length us ≤ length vs
        → length (or_empty_word us) ≤ length (or_empty_word vs)
    capped [] [] h = omega arith
    capped [] (v ∷ vs) h = omega arith
    capped (u ∷ us) [] h = absurd (omega (arith, h))
    capped (u ∷ us) (v ∷ vs) h = h

-- A pattern that matches at the front of a text leaves an end of it.
abbrev Cuts : (Text → Option Text) → Type 0
Cuts pattern = (s rest : Text) → pattern s ≡ some rest → Sub rest s

csi_end-Cuts : Cuts csi_end
csi_end-Cuts [] rest h = cc h
csi_end-Cuts (c ∷ s) rest h = elim (Bool-cases (in_range 0x40 0x7e c)) [
  | inl final ↦
      subst (λ r. Sub r (c ∷ s)) (some-injective s rest (rw final at h)) (drop (Sub-refl s))
  | inr other ↦ cc (rw other at h)
]

-- A pattern that skips a class of units before another one.
Cuts-skip :
    (pattern after : Text → Option Text) (p : ℕ → Bool)
    → Cuts after
    → pattern [] ≡ after []
    → ((c : ℕ) (s : Text) → pattern (c ∷ s) ≡ (if p c then pattern s else after (c ∷ s)))
    → Cuts pattern
Cuts-skip pattern after p cuts at_end at_unit [] rest h = cuts [] rest (sym at_end ∙ h)
Cuts-skip pattern after p cuts at_end at_unit (c ∷ s) rest h = elim (Bool-cases (p c)) [
  | inl skips ↦
      drop
        (Cuts-skip pattern after p cuts at_end at_unit s rest (rw skips at (sym (at_unit c s) ∙ h)))
  | inr other ↦ cuts (c ∷ s) rest (rw other at (sym (at_unit c s) ∙ h))
]

csi_intermediates-Cuts : Cuts csi_intermediates
csi_intermediates-Cuts =
    Cuts-skip csi_intermediates csi_end (in_range 0x20 0x2f) csi_end-Cuts refl (λ c s. refl)

csi_parameters-Cuts : Cuts csi_parameters
csi_parameters-Cuts =
    Cuts-skip csi_parameters csi_intermediates (in_range 0x30 0x3f) csi_intermediates-Cuts refl
      (λ c s. refl)

after_escape-Cuts :
    (second : ℕ) (body : Text → Option Text) → Cuts body → Cuts (after_escape second body)
after_escape-Cuts second body cuts [] rest h = cc h
after_escape-Cuts second body cuts (c ∷ s) rest h = elim (Bool-cases (c == second)) [
  | inl escape ↦ drop (cuts s rest (rw escape at h))
  | inr other ↦ cc (rw other at h)
]

ansi_csi-Cuts : Cuts ansi_csi
ansi_csi-Cuts [] rest h = cc h
ansi_csi-Cuts (c ∷ s) rest h = elim (Bool-cases (c == 0x9b)) [
  | inl opens ↦ drop (csi_parameters-Cuts s rest (rw opens at h))
  | inr other ↦ elim (Bool-cases (c == 0x1b)) [
    | inl escape ↦
        drop (
          after_escape-Cuts b'[' csi_parameters csi_parameters-Cuts s rest
            (rw (other, escape) at h))
    | inr plain ↦ cc (rw (other, plain) at h)
  ]
]

some-Cuts : Cuts some
some-Cuts s rest h = subst (λ r. Sub r s) (some-injective s rest h) (Sub-refl s)

osc_body-Cuts : Cuts osc_body
osc_body-Cuts [] rest h = cc h
osc_body-Cuts (c ∷ s) rest h = elim (Bool-cases (c == 0x07)) [
  | inl bell ↦ drop (some-Cuts s rest (rw bell at h))
  | inr other ↦ elim (Bool-cases (c == 0x1b)) [
    | inl escape ↦ drop (after_escape-Cuts b'\\' some some-Cuts s rest (rw (other, escape) at h))
    | inr plain ↦ drop (osc_body-Cuts s rest (rw (other, plain) at h))
  ]
]

ansi_osc-Cuts : Cuts ansi_osc
ansi_osc-Cuts [] rest h = cc h
ansi_osc-Cuts (c ∷ s) rest h = elim (Bool-cases (c == 0x1b)) [
  | inl escape ↦ drop (after_escape-Cuts b']' osc_body osc_body-Cuts s rest (rw escape at h))
  | inr plain ↦ cc (rw plain at h)
]

remove_matches-Sub :
    (pattern : Text → Option Text) (fuel : ℕ) (s : Text)
    → Cuts pattern
    → Sub (remove_matches pattern fuel s) s
unfolding remove_matches
remove_matches-Sub pattern zero s cuts = Sub-refl s
remove_matches-Sub pattern (suc fuel) [] cuts = done
remove_matches-Sub pattern (suc fuel) (c ∷ s) cuts = elim (Option-cases (pattern (c ∷ s))) [
  | inl plain ↦ rw (remove_matches, plain) (keep (remove_matches-Sub pattern fuel s cuts))
  | inr (rest, matched) ↦
      rw (remove_matches, matched)
        (Sub-trans (remove_matches-Sub pattern fuel rest cuts) (cuts (c ∷ s) rest matched))
]

module _ (is_format : ℕ → Bool) where
  drop_controls-Sub : (s : Text) → Sub (drop_controls is_format s) s
  drop_controls-Sub [] = done
  drop_controls-Sub (c ∷ s) = elim (Bool-cases (is_text_control is_format c)) [
    | inl control ↦ rw control (drop (drop_controls-Sub s))
    | inr plain ↦ rw plain (keep (drop_controls-Sub s))
  ]

  pub strip_text_controls-Sub : (s : Text) → Sub (strip_text_controls is_format s) s
  unfolding strip_text_controls remove_all
  strip_text_controls-Sub s = elim (Bool-cases (needs_control_scan s)) [
    | inr clean ↦ rw clean (Sub-refl s)
    | inl scans ↦
        let without_csi = remove_all ansi_csi s in
        rw scans (
          Sub-trans (drop_controls-Sub (remove_all ansi_osc without_csi)) (
            Sub-trans (remove_matches-Sub ansi_osc (length without_csi) without_csi ansi_osc-Cuts)
              (remove_matches-Sub ansi_csi (length s) s ansi_csi-Cuts)))
  ]
