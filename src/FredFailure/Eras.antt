-- ===== src/FredFailure/Eras.antt =====
-- Both forms of a failure give the same signal.
use mathlib.Core.Option
use mathlib.Core.Option.{some-injective}
use manifest_mcp_mono.Common.{
  ℕ, ◌≡◌, ◌↔◌, refl, sym, Option, none, some, Text, is_some, is_none, or_else, if◌then◌else◌, ◌&&◌,
}
use manifest_mcp_mono.FredFailure.{
  FredFailureSource, FredFailure, non_empty, legacy_text, describe_fred_failure, message_max,
  default_max, sanitize_failure_fields,
}

-- The four fields, empty ones as absent.
abbrev pub IsSilent : FredFailureSource → Type 0
IsSilent src =
    (non_empty src.reason ≡ none)
    × (non_empty src.message ≡ none)
    × (non_empty src.last_error ≡ none)
    × (non_empty src.error ≡ none)

abbrev pub reason_of : Option FredFailure → Option Text
reason_of none = none
reason_of (some f) = f.reason

abbrev pub message_of : Option FredFailure → Option Text
message_of none = none
message_of (some f) = f.message

-- The rule on the four fields that count.
describe_with : (reason curated last error : Option Text) → Option FredFailure
describe_with reason curated last error =
    let message = or_else curated (or_else last error) in
    if is_none reason && is_none message
    then none
    else some (record {
      reason = reason;
      message = message;
      legacy = is_none curated && is_some (or_else last error);
    })

describe_with-none :
    (r m l e : Option Text)
    → (describe_with r m l e ≡ none) ↔ ((r ≡ none) × (m ≡ none) × (l ≡ none) × (e ≡ none))
unfolding describe_with
describe_with-none none none none none = (λ _. (refl, refl, refl, refl), λ _. refl)
describe_with-none none none none (some e) = (λ h. cc h, λ h. let gone = h.3 in cc gone)
describe_with-none none none (some l) e = (λ h. cc h, λ h. let gone = h.2 in cc gone)
describe_with-none none (some m) l e = (λ h. cc h, λ h. let gone = h.1 in cc gone)
describe_with-none (some r) m l e = (λ h. cc h, λ h. let gone = h.0 in cc gone)

fields :
    (g f : FredFailure)
    → some g ≡ some f
    → (f.reason ≡ g.reason) × (f.message ≡ g.message) × (f.legacy ≡ g.legacy)
fields g f h = rw (sym (some-injective g f h)) (refl, refl, refl)

describe_with_lem :
    (r m l e : Option Text) (f : FredFailure)
    → describe_with r m l e ≡ some f
    → (f.reason ≡ r)
      × (f.message ≡ or_else m (or_else l e))
      × (f.legacy ≡ (is_none m && is_some (or_else l e)))
unfolding describe_with
describe_with_lem none none none none f h = cc h
describe_with_lem none none none (some e) f h = fields _ f h
describe_with_lem none none (some l) e f h = fields _ f h
describe_with_lem none (some m) l e f h = fields _ f h
describe_with_lem (some r) m l e f h = fields _ f h

-- A failure is described exactly where one of the four fields has text. Its reason is the reason as
-- it was sent, known or not; its message is the first that has text of `message`, `last_error` and
-- `error`; and it counts as legacy exactly where it has a message that is not `message`.
pub describe_fred_failure_lem :
    (src : FredFailureSource) (f : FredFailure)
    → ((describe_fred_failure src ≡ none) ↔ IsSilent src)
      × (describe_fred_failure src ≡ some f
          → (f.reason ≡ non_empty src.reason)
            × (f.message ≡ or_else (non_empty src.message) (legacy_text src))
            × (f.legacy ≡ (is_none (non_empty src.message) && is_some (legacy_text src))))
unfolding describe_fred_failure describe_with
describe_fred_failure_lem src f =
    let r = non_empty src.reason in
    let m = non_empty src.message in
    let l = non_empty src.last_error in
    let e = non_empty src.error in (describe_with-none r m l e, λ h. describe_with_lem r m l e f h)

module _ (sanitize_for_display : Text → ℕ → Text) where
  abbrev shown : ℕ → Option Text → Option Text
  shown max = Option.map (λ raw. sanitize_for_display raw max)

  shown-reason :
      (r m l e : Option Text)
      → shown default_max r ≡ shown default_max (reason_of (describe_with r m l e))
  unfolding describe_with
  shown-reason none none none none = refl
  shown-reason none none none (some e) = refl
  shown-reason none none (some l) e = refl
  shown-reason none (some m) l e = refl
  shown-reason (some r) m l e = refl

  shown-message :
      (r m l e : Option Text)
      → or_else (shown message_max m) (or_else (shown message_max l) (shown message_max e))
        ≡ shown message_max (message_of (describe_with r m l e))
  unfolding describe_with
  shown-message none none none none = refl
  shown-message none none none (some e) = refl
  shown-message none none (some l) e = refl
  shown-message none (some m) l e = refl
  shown-message (some r) none none none = refl
  shown-message (some r) none none (some e) = refl
  shown-message (some r) none (some l) e = refl
  shown-message (some r) (some m) l e = refl

  -- What is shown of a failure is the described failure, sanitized: the reason at a cap of 64, the
  -- message at one of 256, whichever form the provider sent.
  pub sanitize_failure_fields-describe_fred_failure :
      (src : FredFailureSource)
      → ((sanitize_failure_fields sanitize_for_display src).reason
          ≡ shown default_max (reason_of (describe_fred_failure src)))
        × ((sanitize_failure_fields sanitize_for_display src).message
            ≡ shown message_max (message_of (describe_fred_failure src)))
  unfolding sanitize_failure_fields describe_fred_failure describe_with
  sanitize_failure_fields-describe_fred_failure src =
      let r = non_empty src.reason in
      let m = non_empty src.message in
      let l = non_empty src.last_error in
      let e = non_empty src.error in (shown-reason r m l e, shown-message r m l e)
