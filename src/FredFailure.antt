-- ===== src/FredFailure.antt =====
-- packages/fred/src/failure-reason.ts: the failure of a lease, from either form in which a provider
-- sends it. A field is none where it is absent or no text; the sanitizer of a text for display, at a
-- cap, is the parameter of what uses it.
pub mod Eras
pub mod Tests
use mathlib.Core.Option
use manifest_mcp_mono.Common.{
  ℕ, Bool, true, false, ◌&&◌, ◌||◌, not, List, [], ◌∷◌, ◌++◌, Option, none, some, Text, codes,
  is_some, is_none, or_else, if◌then◌else◌,
}

-- `reason` and `message`, and the deprecated `last_error` and `error`.
pub record FredFailureSource : Type 0 where
  pub reason : Option Text
  pub message : Option Text
  pub last_error : Option Text
  pub error : Option Text

pub record FredFailure : Type 0 where
  pub reason : Option Text
  pub message : Option Text
  pub legacy : Bool

pub non_empty : Option Text → Option Text
non_empty none = none
non_empty (some []) = none
non_empty (some (c ∷ s)) = some (c ∷ s)

-- `nonEmpty(src.last_error) ?? nonEmpty(src.error)`
abbrev pub legacy_text : FredFailureSource → Option Text
legacy_text src = or_else (non_empty src.last_error) (non_empty src.error)

pub describe_fred_failure : FredFailureSource → Option FredFailure
unfolding non_empty
describe_fred_failure src =
    let reason = non_empty src.reason in
    let curated = non_empty src.message in
    let message = or_else curated (legacy_text src) in
    if is_none reason && is_none message
    then none
    else some (record {
      reason = reason;
      message = message;
      legacy = is_none curated && is_some (legacy_text src);
    })

-- `[reason, message].filter(...).join(': ')`
abbrev pub join_parts : Option Text → Option Text → Text
join_parts none none = []
join_parts none (some message) = message
join_parts (some reason) none = reason
join_parts (some reason) (some message) = reason ++ codes ": " ++ message

pub failure_detail : FredFailureSource → Option Text
unfolding describe_fred_failure
failure_detail src = Option.map (λ f. join_parts f.reason f.message) (describe_fred_failure src)

abbrev pub message_max : ℕ
message_max = 256

-- `sanitizeForDisplay`'s own cap, which a reason keeps.
abbrev pub default_max : ℕ
default_max = 64

module _ (sanitize_for_display : Text → ℕ → Text) where
  pub clean : Option Text → ℕ → Option Text
  unfolding non_empty
  clean v max = Option.map (λ raw. sanitize_for_display raw max) (non_empty v)

  pub sanitize_failure_fields : FredFailureSource → FredFailureSource
  unfolding clean
  sanitize_failure_fields src =
      let message = clean src.message message_max in
      let last_error = clean src.last_error message_max in
      let error = clean src.error message_max in
      record {
        reason = clean src.reason default_max;
        message = or_else message (or_else last_error error);
        last_error = last_error;
        error = error;
      }
