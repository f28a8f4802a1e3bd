-- ===== src/Redaction.antt =====
-- packages/core/src/server-utils.ts: isSensitiveKey and sanitizeForLogging, which hides the value of a
-- secret in a log, and packages/agent-core/src/internals/secret-denylist.ts: stripDenylist, which drops
-- its key. A text here is a list of code points; `toLowerCase` is a parameter.
pub mod Mnemonic
pub mod Secrecy
pub mod Deletion
pub mod Phrases
pub mod Display
pub mod Tests
use manifest_mcp_mono.Common.{
  Datum, undefined, null, string, truth, number, other, array, object, Elements, no_elements,
  element, Members, no_members, member, ℕ, suc, Bool, true, false, ◌||◌, List, [], ◌∷◌, map, ◌==◌,
  ltb, any, Text, codes, same_text, if◌then◌else◌, String,
}
use manifest_mcp_mono.Retry.Message.{includes}
use manifest_mcp_mono.Redaction.Mnemonic.{redact_possible_mnemonic}

abbrev pub sensitive_fields : List String
sensitive_fields =
    "mnemonic" ∷ "privatekey" ∷ "private_key" ∷ "secret" ∷ "password" ∷ "seed" ∷ "secret_key"
    ∷ "signing_key" ∷ "apikey" ∷ "api_key" ∷ "auth_token" ∷ "bearer_token" ∷ "access_token"
    ∷ "refresh_token" ∷ "passphrase" ∷ "priv_key" ∷ "authorization" ∷ "bearer" ∷ "jwt" ∷ "session"
    ∷ "session_id" ∷ "cookie" ∷ "credential" ∷ "credentials" ∷ []

abbrev pub sensitive_key_stems : List String
sensitive_key_stems =
    "password" ∷ "passphrase" ∷ "mnemonic" ∷ "secret" ∷ "private_key" ∷ "priv_key" ∷ "api_key"
    ∷ "signing_key" ∷ "auth_token" ∷ "bearer_token" ∷ "access_token" ∷ "refresh_token"
    ∷ "authorization" ∷ "credential" ∷ "jwt" ∷ "cookie" ∷ []

-- `replace(/[_-]/g, '')`
abbrev pub drop_separators : Text → Text
drop_separators [] = []
drop_separators (c ∷ s) =
    let rest = drop_separators s in if c == b'_' || c == b'-' then rest else c ∷ rest

abbrev pub within_depth : ℕ → Datum → Datum
within_depth d v = if ltb 10 d then string (codes "[max depth exceeded]") else v

module _ (to_lower_case : Text → Text) where
  abbrev pub normalize_key : Text → Text
  normalize_key key = drop_separators (to_lower_case key)

  unfoldable pub is_sensitive_key : Text → Bool
  is_sensitive_key key =
      let normalized = normalize_key key in
      any (λ f. same_text (normalize_key (codes f)) normalized) sensitive_fields
      || any (λ stem. includes (normalize_key (codes stem)) normalized) sensitive_key_stems

  abbrev pub prototype_pollution_keys : Text → Bool
  prototype_pollution_keys key =
      any (λ f. same_text (codes f) key) ("__proto__" ∷ "constructor" ∷ "prototype" ∷ [])

  -- The keys that stripDenylist drops.
  abbrev pub is_denied : Text → Bool
  is_denied key = prototype_pollution_keys key || is_sensitive_key key

  unfoldable mutual
    pub strip_denylist : Datum → Datum
    strip_denylist undefined = undefined
    strip_denylist null = null
    strip_denylist (string t) = string t
    strip_denylist (other n) = other n
    strip_denylist (truth b) = truth b
    strip_denylist (number n) = number n
    strip_denylist (array xs) = array (strip_elements xs)
    strip_denylist (object ms) = object (strip_members ms)

    pub strip_elements : Elements → Elements
    strip_elements no_elements = no_elements
    strip_elements (element v xs) = element (strip_denylist v) (strip_elements xs)

    pub strip_members : Members → Members
    strip_members no_members = no_members
    strip_members (member k v ms) =
        let rest = strip_members ms in
        let stripped = strip_denylist v in if is_denied k then rest else member k stripped rest

  module _ (is_format : ℕ → Bool) where
    -- `sanitizeForLogging`, at a depth.
    unfoldable mutual
      pub sanitize_for_logging : ℕ → Datum → Datum
      sanitize_for_logging d undefined = within_depth d undefined
      sanitize_for_logging d null = within_depth d null
      sanitize_for_logging d (string t) =
          within_depth d (string (redact_possible_mnemonic is_format t))
      sanitize_for_logging d (other n) = within_depth d (other n)
      sanitize_for_logging d (truth b) = within_depth d (truth b)
      sanitize_for_logging d (number n) = within_depth d (number n)
      sanitize_for_logging d (array xs) = within_depth d (array (sanitize_elements (suc d) xs))
      sanitize_for_logging d (object ms) = within_depth d (object (sanitize_members (suc d) ms))

      pub sanitize_elements : ℕ → Elements → Elements
      sanitize_elements d no_elements = no_elements
      sanitize_elements d (element v xs) =
          element (sanitize_for_logging d v) (sanitize_elements d xs)

      pub sanitize_members : ℕ → Members → Members
      sanitize_members d no_members = no_members
      sanitize_members d (member k v ms) =
          let shown = sanitize_for_logging d v in
          member k (if is_sensitive_key k then string (codes "[REDACTED]") else shown)
            (sanitize_members d ms)
