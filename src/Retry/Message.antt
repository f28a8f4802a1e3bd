-- ===== src/Retry/Message.antt =====
-- packages/core/src/retry.ts, isTransientErrorMessage: the texts of a transient failure. The runtime's
-- `toLowerCase` is a parameter; the two regular expressions are matched by hand.
use manifest_mcp_mono.Common.{
  Bool, true, false, List, [], ◌∷◌, ◌&&◌, ◌||◌, not, Option, none, some, ◌==◌, String, any, Text,
  codes, is_digit, is_word, is_space,
}

unfoldable pub starts_with : Text → Text → Bool
starts_with [] s = true
starts_with (a ∷ p) [] = false
starts_with (a ∷ p) (b ∷ s) = a == b && starts_with p s

-- `s.includes(needle)`
unfoldable pub includes : Text → Text → Bool
unfolding starts_with
includes needle [] = starts_with needle []
includes needle (c ∷ s) = starts_with needle (c ∷ s) || includes needle s

unfoldable pub strip_prefix : Text → Text → Option Text
strip_prefix [] s = some s
strip_prefix (a ∷ p) [] = none
strip_prefix (a ∷ p) (b ∷ s) = elim (a == b) [ true ↦ strip_prefix p s | false ↦ none ]

unfoldable pub skip_space : Text → Text
unfolding is_space
skip_space [] = []
skip_space (c ∷ s) = elim (is_space c) [ true ↦ skip_space s | false ↦ c ∷ s ]

-- `\b` after a word character.
unfoldable pub ends_word : Text → Bool
unfolding is_word
ends_word [] = true
ends_word (c ∷ s) = not (is_word c)

-- `5\d{2}\b`
unfoldable pub is_5xx : Text → Bool
unfolding ends_word
is_5xx (a ∷ b ∷ c ∷ s) = a == b'5' && is_digit b && is_digit c && ends_word s
is_5xx _ = false

unfoldable pub status_after : Text → Text → Bool
unfolding strip_prefix skip_space is_5xx
status_after word s = elim (strip_prefix word s) [
  | none ↦ false
  | some rest ↦ is_5xx (skip_space rest)
]

-- `/\b(?:http|status)\s*5\d{2}\b/`, from a place whose left neighbour is a word character or not
unfoldable pub http_5xx : Bool → Text → Bool
unfolding status_after is_word
http_5xx in_word [] = false
http_5xx in_word (c ∷ s) =
    (not in_word && (status_after (codes "http") (c ∷ s) || status_after (codes "status") (c ∷ s)))
    || http_5xx (is_word c) s

unfoldable pub word_here : Text → Text → Bool
unfolding strip_prefix ends_word
word_here word s = elim (strip_prefix word s) [ none ↦ false | some rest ↦ ends_word rest ]

-- `/\b429\b/`
unfoldable pub word_429 : Bool → Text → Bool
unfolding word_here is_word
word_429 in_word [] = false
word_429 in_word (c ∷ s) =
    (not in_word && word_here (codes "429") (c ∷ s)) || word_429 (is_word c) s

abbrev pub transient_phrases : List String
transient_phrases =
    "econnrefused" ∷ "econnreset" ∷ "etimedout" ∷ "eai_again" ∷ "epipe" ∷ "socket hang up"
    ∷ "timed out" ∷ "network request failed" ∷ "fetch failed" ∷ []

abbrev pub http_5xx_phrases : List String
http_5xx_phrases =
    "internal server error" ∷ "bad gateway" ∷ "service unavailable" ∷ "gateway timeout" ∷ []

unfoldable pub is_transient_error_message : (Text → Text) → Text → Bool
unfolding includes http_5xx word_429
is_transient_error_message to_lower_case message =
    let lower_message = to_lower_case message in
    any (λ phrase. includes (codes phrase) lower_message) transient_phrases
    || http_5xx false lower_message
    || any (λ phrase. includes (codes phrase) lower_message) http_5xx_phrases
    || word_429 false lower_message
    || includes (codes "too many requests") lower_message
