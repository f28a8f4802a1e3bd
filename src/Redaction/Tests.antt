-- ===== src/Redaction/Tests.antt =====
-- Redaction of concrete values, and the theorems at them.
use manifest_mcp_mono.Common.{
  length, ◌≤◌, Datum, string, object, no_members, member, ℕ, zero, suc, ◌≡◌, inl, refl, Bool, true,
  false, List, [], ◌∷◌, ◌++◌, Text, codes, is_space, leb, ◌&&◌, ◌+◌, if◌then◌else◌, same_text,
}
use manifest_mcp_mono.Retry.Message.{includes}
use manifest_mcp_mono.Redaction.Mnemonic.{
  words, is_possible_mnemonic, strip_text_controls, redact_text, redacted_mnemonic, runs,
  remove_all, remove_matches, starts_space, redact_possible_mnemonic,
}
use manifest_mcp_mono.Redaction.{is_sensitive_key, strip_denylist, sanitize_for_logging}
use manifest_mcp_mono.Redaction.Secrecy.{
  objects, shown, secret, none_kept, same, IsClean, secrets_are_hidden, strip_denylist_lem,
}
use manifest_mcp_mono.Redaction.Display.{
  cap_length, sanitize_for_model_text, sanitize_for_display, IsVisible,
  sanitize_for_model_text-IsVisible,
}
use manifest_mcp_mono.Redaction.Phrases.{
  single, longer, Phrase, finished, space, word, mnemonic_is_redacted,
}

-- `toLowerCase` on ASCII, and no format characters beyond it.
abbrev to_lower_case : Text → Text
to_lower_case [] = []
to_lower_case (c ∷ s) = (if leb 65 c && leb c 90 then c + 32 else c) ∷ to_lower_case s

abbrev no_format : ℕ → Bool
no_format c = false

camel_case_key : is_sensitive_key to_lower_case (codes "X-Auth_Token") ≡ true
unfolding is_sensitive_key same_text includes
camel_case_key = refl

chain_noun : is_sensitive_key to_lower_case (codes "fee_token") ≡ false
unfolding is_sensitive_key same_text includes
chain_noun = refl

abbrev login : Text → Datum
login password = object (
    member (codes "user") (string (codes "ada"))
      (member (codes "dbPassword") (string password) no_members))

logged_login :
    sanitize_for_logging to_lower_case no_format 0 (login (codes "x1")) ≡ login (codes "[REDACTED]")
unfolding sanitize_for_logging is_sensitive_key redact_possible_mnemonic redact_text words runs
    same_text includes is_space
logged_login = refl

stripped_login :
    strip_denylist to_lower_case (login (codes "x1"))
    ≡ object (member (codes "user") (string (codes "ada")) no_members)
unfolding strip_denylist is_sensitive_key same_text includes
stripped_login = refl

secrets_are_hidden_example :
    (sanitize_for_logging to_lower_case no_format 0 (login (codes "x1"))
      ≡ sanitize_for_logging to_lower_case no_format 0 (login (codes "y2")))
    × (strip_denylist to_lower_case (login (codes "x1"))
        ≡ strip_denylist to_lower_case (login (codes "y2")))
unfolding is_sensitive_key same_text includes
secrets_are_hidden_example =
    secrets_are_hidden to_lower_case no_format 0 (login (codes "x1")) (login (codes "y2"))
      (objects (shown same (secret refl none_kept)))

strip_denylist_lem_example :
    IsClean to_lower_case (strip_denylist to_lower_case (login (codes "x1")))
    × (IsClean to_lower_case (login (codes "x1"))
        → strip_denylist to_lower_case (login (codes "x1")) ≡ login (codes "x1"))
strip_denylist_lem_example = strip_denylist_lem to_lower_case (login (codes "x1"))

-- Twelve words, two of them after a gap of this kind.
abbrev twelve : Text → Text
twelve gap = codes "ab" ++ gap ++ codes "cd" ++ gap ++ codes "ab ab ab ab ab ab ab ab ab ab" ++ gap

spaced_run :
    redact_text no_format (twelve (9 ∷ 10 ∷ [])) false ≡ codes "[REDACTED - possible mnemonic]"
unfolding redact_text words runs is_space is_possible_mnemonic same_text strip_text_controls
    remove_all remove_matches
spaced_run = refl

-- A control sequence inside a word is seen through.
coloured_run :
    redact_text no_format
      (codes "a" ++ (0x1b ∷ codes "[31mb ") ++ twelve (32 ∷ []) ++ codes "a b")
      true
    ≡ codes "[REDACTED - possible mnemonic]"
unfolding redact_text words runs is_space is_possible_mnemonic strip_text_controls remove_all
    same_text remove_matches
coloured_run = refl

-- A phrase of `n` equal words, each with two spaces before it.
abbrev ab_words : ℕ → List Text
ab_words zero = []
ab_words (suc n) = codes "ab" ∷ ab_words n

abbrev ab_text : ℕ → Text
ab_text zero = []
ab_text (suc n) = 32 ∷ 9 ∷ (codes "ab" ++ ab_text n)

ab_text-space : (n : ℕ) → starts_space (ab_text n) ≡ true
unfolding is_space
ab_text-space zero = refl
ab_text-space (suc n) = refl

ab_text-Phrase : (n : ℕ) → Phrase (ab_words n) (ab_text n)
unfolding is_space
ab_text-Phrase zero = finished
ab_text-Phrase (suc n) =
    space refl (space refl (word (longer refl (single refl)) (ab_text-space n) (ab_text-Phrase n)))

mnemonic_is_redacted_example :
    redact_text no_format (ab_text 15) false ≡ redacted_mnemonic no_format
unfolding is_possible_mnemonic
mnemonic_is_redacted_example =
    mnemonic_is_redacted no_format (ab_words 15) (ab_text 15) false refl (inl (ab_text-Phrase 15))

coloured_model_text :
    sanitize_for_model_text no_format (codes "ok" ++ (0x1b ∷ codes "[31m!") ++ codes " rest") 5
    ≡ codes "ok! r" ++ (0x2026 ∷ [])
unfolding sanitize_for_model_text redact_text words runs is_space is_possible_mnemonic
    strip_text_controls remove_all remove_matches same_text cap_length
coloured_model_text = refl

hostile_sku :
    sanitize_for_display no_format
      (λ t. t)
      (codes "cpu" ++ (10 ∷ codes " Total fee: 0 "))
      64
      (codes "(hidden)")
    ≡ codes "cpu Total fee: 0"
unfolding sanitize_for_display runs is_space cap_length
hostile_sku = refl

sanitize_for_model_text-IsVisible_example :
    IsVisible no_format (sanitize_for_model_text no_format (codes "a" ++ (0x1b ∷ codes "b")) 1)
    × (length (sanitize_for_model_text no_format (codes "a" ++ (0x1b ∷ codes "b")) 1) ≤ 2)
sanitize_for_model_text-IsVisible_example =
    sanitize_for_model_text-IsVisible no_format (codes "a" ++ (0x1b ∷ codes "b")) 1 (λ c h. refl)
      refl
