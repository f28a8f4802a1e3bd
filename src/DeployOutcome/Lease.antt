-- ===== src/DeployOutcome/Lease.antt =====
-- Which lease a failed deployment is said to have left.
use mathlib.Core.Option.{some-injective}
use mathlib.Core.Path.{subst}
use manifest_mcp_mono.Common.{
  ℕ, ◌≡◌, ◌≢◌, inl, inr, refl, ap, sym, ◌∙◌, true, List, [], ◌∷◌, ◌++◌, Option, none, some, Text,
  codes, Bool-cases, Option-cases, Datum, undefined, null, truth, number, string, other, array,
  object, field,
}
use manifest_mcp_mono.DeployOutcome.Envelope.{
  IsObjectValue, IsEnvelope, IsFlagged, IsDetails, IsMessage, envelope_details-IsDetails,
  message_of-IsMessage, is_object-IsObjectValue, IsObjectValue-is_object, pick_envelope-IsEnvelope,
  is_partial-IsFlagged, IsFlagged-is_partial,
}
use manifest_mcp_mono.DeployOutcome.{
  is_object, text_of, UuidUnit, fits, uuid_pattern, match_at, find_uuid, partially_succeeded,
  failed, DeployErrorClassification, pick_envelope, envelope_details, message_of, is_partial,
  named_lease, failed_with, partial_with, finalize, classify_envelope, classify_deploy_error,
  or_text,
}

-- A text that the units of a pattern describe.
pub data Fits : List UuidUnit → Text → Type 0 where
  at_end : Fits [] []
  one_unit :
      {k : UuidUnit} {c : ℕ} {ks : List UuidUnit} {s : Text}
      → fits k c ≡ true
      → Fits ks s
      → Fits (k ∷ ks) (c ∷ s)

abbrev pub IsUuid : Text → Type 0
IsUuid u = Fits uuid_pattern u

Fits-match_at :
    {ks : List UuidUnit} {u : Text} (post : Text) → Fits ks u → match_at ks (u ++ post) ≡ some u
unfolding match_at
Fits-match_at post at_end = refl
Fits-match_at post (one_unit {c = c} fit rest) = rw (fit, Fits-match_at post rest) refl

pub match_at-Fits :
    (ks : List UuidUnit) (s u : Text)
    → match_at ks s ≡ some u
    → Fits ks u × ((post : Text) × (s ≡ u ++ post))
unfolding match_at
match_at-Fits [] s u h =
    subst (λ v. Fits [] v × ((post : Text) × (s ≡ v ++ post))) (some-injective [] u h)
      (at_end, (s, refl))
match_at-Fits (k ∷ ks) [] u h = cc h
match_at-Fits (k ∷ ks) (c ∷ s) u h = elim (Bool-cases (fits k c)) [
  | inr misfit ↦ cc (rw misfit at h)
  | inl fit ↦ elim (Option-cases (match_at ks s)) [
    | inl unmatched ↦ cc (rw (fit, unmatched) at h)
    | inr (v, matched) ↦
        let (rest, (post, split)) = match_at-Fits ks s v matched in
        subst (λ w. Fits (k ∷ ks) w × ((post : Text) × (c ∷ s ≡ w ++ post)))
          (some-injective (c ∷ v) u (rw (fit, matched) at h))
          (one_unit fit rest, (post, ap (λ t. c ∷ t) split))
  ]
]

-- An occurrence of a lease's id in a text.
pub record Occurs (u s : Text) : Type 0 where
  pub before : Text
  pub after : Text
  pub whole : s ≡ before ++ (u ++ after)

find_uuid-some : (s u : Text) → find_uuid s ≡ some u → IsUuid u × Occurs u s
unfolding find_uuid
find_uuid-some [] u h = cc h
find_uuid-some (c ∷ s) u h = elim (Option-cases (match_at uuid_pattern (c ∷ s))) [
  | inr (v, matched) ↦
      let (is_uuid, (post, split)) = match_at-Fits uuid_pattern (c ∷ s) v matched in
      subst (λ w. IsUuid w × Occurs w (c ∷ s)) (some-injective v u (rw (find_uuid, matched) at h))
        (is_uuid, record { before = []; after = post; whole = split })
  | inl unmatched ↦
      let (is_uuid, found) = find_uuid-some s u (rw (find_uuid, unmatched) at h) in
      (
        is_uuid,
        record {
          before = c ∷ found.before;
          after = found.after;
          whole = ap (λ t. c ∷ t) found.whole;
        },
      )
]

find_uuid-finds : (before u post : Text) → IsUuid u → find_uuid (before ++ (u ++ post)) ≢ none
unfolding find_uuid
find_uuid-finds [] u post (one_unit {c = c} {s = s} fit rest) h =
    let matched : match_at uuid_pattern (c ∷ (s ++ post)) ≡ some (c ∷ s) =
      Fits-match_at post (one_unit fit rest) in
    cc (rw (find_uuid, matched) at h)
find_uuid-finds (b ∷ before) u post is_uuid h =
    elim (Option-cases (match_at uuid_pattern (b ∷ (before ++ (u ++ post))))) [
      | inr (v, matched) ↦ cc (rw (find_uuid, matched) at h)
      | inl unmatched ↦ find_uuid-finds before u post is_uuid (rw (find_uuid, unmatched) at h)
    ]

find_uuid-none : (s u : Text) → find_uuid s ≡ none → IsUuid u → ¬ Occurs u s
find_uuid-none s u h is_uuid found =
    find_uuid-finds found.before u found.after is_uuid (ap find_uuid (sym found.whole) ∙ h)

-- The lease that the details and the message of an error name.
pub data Names (details : Datum) (message : Text) : Option Text → Type 0 where
  in_details : (u : Text) → field "lease_uuid" details ≡ string u → Names details message (some u)
  in_message :
      (u : Text)
      → text_of (field "lease_uuid" details) ≡ none
      → IsUuid u
      → Occurs u message
      → Names details message (some u)
  nowhere :
      text_of (field "lease_uuid" details) ≡ none
      → ((u : Text) → IsUuid u → ¬ Occurs u message)
      → Names details message none

text_of-string : (d : Datum) (u : Text) → text_of d ≡ some u → d ≡ string u
text_of-string (string t) u h = ap string (some-injective t u h)
text_of-string undefined u h = cc h
text_of-string null u h = cc h
text_of-string (truth b) u h = cc h
text_of-string (number n) u h = cc h
text_of-string (other n) u h = cc h
text_of-string (array xs) u h = cc h
text_of-string (object ms) u h = cc h

named_lease-Names :
    (details : Datum) (message : Text) → Names details message (named_lease details message)
unfolding named_lease
named_lease-Names details message = by_details (text_of (field "lease_uuid" details)) refl
  where
    by_message :
        text_of (field "lease_uuid" details) ≡ none
        → (found : Option Text) → find_uuid message ≡ found
        → Names details message found
    by_message unnamed none absent =
        nowhere unnamed (λ u is_uuid. find_uuid-none message u absent is_uuid)
    by_message unnamed (some u) found =
        let (is_uuid, occurs) = find_uuid-some message u found in
        in_message u unnamed is_uuid occurs

    by_details :
        (named : Option Text)
        → text_of (field "lease_uuid" details) ≡ named
        → Names details message (elim named [ some u ↦ some u | none ↦ find_uuid message ])
    by_details (some u) named = in_details u (text_of-string (field "lease_uuid" details) u named)
    by_details none unnamed = by_message unnamed (find_uuid message) refl

-- What the classification of an error says, where `e` is its envelope.
pub data Verdict (e : Datum) (c : DeployErrorClassification) : Type 0 where
  partial :
      (details : Datum) (message : Text)
      → IsObjectValue e
      → IsFlagged e
      → c.outcome ≡ partially_succeeded
      → IsDetails e details
      → IsMessage e message
      → Names details message c.lease_uuid
      → Verdict e c
  whole : ¬ (IsObjectValue e × IsFlagged e) → c.outcome ≡ failed → c.lease_uuid ≡ none → Verdict e c

finalize-Verdict :
    (e : Datum) (c : DeployErrorClassification) (d : Option Text)
    → Verdict e c
    → Verdict e (finalize c d)
finalize-Verdict e c none v = v
finalize-Verdict e c (some d) (partial d' t shape flagged says ds ms names) =
    partial d' t shape flagged says ds ms names
finalize-Verdict e c (some d) (whole cause says none_left) = whole cause says none_left

classify_envelope-Verdict : (e : Datum) (d : Option Text) → Verdict e (classify_envelope e d)
unfolding classify_envelope
classify_envelope-Verdict e d = elim (Bool-cases (is_object e)) [
  | inr no_object ↦ rw no_object (
      finalize-Verdict e (failed_with (codes "stdin envelope is not an object")) d
        (whole (λ (shape, _). cc (no_object, IsObjectValue-is_object e shape)) refl refl))
  | inl shape ↦ elim (Bool-cases (is_partial e)) [
    | inl flagged ↦
        rw (shape, flagged)
          (finalize-Verdict e (partial_with (envelope_details e) (message_of e)) d (
            partial (envelope_details e) (message_of e) (is_object-IsObjectValue e shape)
              (is_partial-IsFlagged e flagged) refl (envelope_details-IsDetails e)
              (message_of-IsMessage e) (named_lease-Names (envelope_details e) (message_of e))))
    | inr unflagged ↦
        rw (shape, unflagged)
          (finalize-Verdict e
            (failed_with (or_text (message_of e) (codes "deploy_app threw an empty error"))) d
            (whole (λ (_, flag). cc (unflagged, IsFlagged-is_partial e flag)) refl refl))
  ]
]

-- The envelope of an error is its member `error` where that is an object or an array, else the error
-- itself. The error counts as a partial success exactly where the envelope is an object or an array
-- whose plain object `details` has `partial: true` or whose message starts with "Deploy partially
-- succeeded:"; then the lease in its details is kept, or else an id that occurs in its message, and
-- none is reported only where neither is there. Any other error is a failure, and reports no lease.
pub classify_deploy_error-Verdict :
    (err : Datum) (domain : Option Text)
    → (e : Datum) × IsEnvelope err e × Verdict e (classify_deploy_error err domain)
unfolding classify_deploy_error
classify_deploy_error-Verdict err domain = (
  pick_envelope err,
  pick_envelope-IsEnvelope err,
  classify_envelope-Verdict (pick_envelope err) domain,
)
