-- ===== src/DeployOutcome/Envelope.antt =====
-- The envelope of an error in agent-core's classify-deploy-error.ts, and the marks of a partial success
-- in it, said without the tests of that file.
use manifest_mcp_mono.Common.{
  ◌≡◌, ◌≢◌, if◌then◌else◌, ◌⊎◌, inl, inr, refl, ap, sym, ◌∙◌, Bool, true, false, ◌||◌, [], ◌++◌,
  none, Text, codes, Bool-cases, Datum, undefined, null, truth, number, string, other, array,
  object, Elements, Members, field, arith,
}
use manifest_mcp_mono.Retry.Message.{starts_with}
use manifest_mcp_mono.DeployOutcome.{
  is_object, is_plain_object, is_true, envelope_details, message_of, partial_prefix, is_partial,
  pick_envelope, text_of,
}
use manifest_mcp_mono.DeployOutcome.Prefix.{starts_with_split, starts_with_prefix}

-- An object or an array.
abbrev pub IsObjectValue : Datum → Type 0
IsObjectValue d = ((ms : Members) × (d ≡ object ms)) ⊎ ((xs : Elements) × (d ≡ array xs))

-- The envelope is the member `error` where that is an object or an array, else the error itself.
abbrev pub IsEnvelope : Datum → Datum → Type 0
IsEnvelope err e =
    ((e ≡ field "error" err) × IsObjectValue e)
    ⊎ ((e ≡ err) × (¬ IsObjectValue (field "error" err)))

-- The member `partial` of the plain object `details` is true, or the message starts with the prefix.
abbrev pub IsFlagged : Datum → Type 0
IsFlagged e =
    ((ms : Members) × (field "details" e ≡ object ms) × (field "partial" (object ms) ≡ truth true))
    ⊎ ((rest : Text) × (field "message" e ≡ string (codes "Deploy partially succeeded:" ++ rest)))

pub is_object-IsObjectValue : (d : Datum) → is_object d ≡ true → IsObjectValue d
is_object-IsObjectValue (object ms) h = inl (ms, refl)
is_object-IsObjectValue (array xs) h = inr (xs, refl)
is_object-IsObjectValue undefined h = cc h
is_object-IsObjectValue null h = cc h
is_object-IsObjectValue (truth b) h = cc h
is_object-IsObjectValue (number n) h = cc h
is_object-IsObjectValue (string t) h = cc h
is_object-IsObjectValue (other n) h = cc h

pub IsObjectValue-is_object : (d : Datum) → IsObjectValue d → is_object d ≡ true
IsObjectValue-is_object d (inl (ms, e)) = ap is_object e
IsObjectValue-is_object d (inr (xs, e)) = ap is_object e

pub pick_envelope-IsEnvelope : (err : Datum) → IsEnvelope err (pick_envelope err)
pick_envelope-IsEnvelope err = elim (Bool-cases (is_object (field "error" err))) [
  | inl inner ↦ rw inner (inl (refl, is_object-IsObjectValue (field "error" err) inner))
  | inr plain ↦
      rw plain (inr (refl, λ v. cc (plain, IsObjectValue-is_object (field "error" err) v)))
]

is_true-eq : (d : Datum) → is_true d ≡ true → d ≡ truth true
is_true-eq (truth b) h = ap truth h
is_true-eq (object ms) h = cc h
is_true-eq (array xs) h = cc h
is_true-eq undefined h = cc h
is_true-eq null h = cc h
is_true-eq (number n) h = cc h
is_true-eq (string t) h = cc h
is_true-eq (other n) h = cc h

-- The flag, where `d` is the member `details`.
details-IsFlagged :
    (e d : Datum)
    → field "details" e ≡ d
    → is_true (field "partial" (envelope_details e)) ≡ true
    → IsFlagged e
details-IsFlagged e (object ms) f h =
    inl (ms, f, is_true-eq (field "partial" (object ms)) (rw f at h))
details-IsFlagged e (array xs) f h = cc (rw f at h)
details-IsFlagged e undefined f h = cc (rw f at h)
details-IsFlagged e null f h = cc (rw f at h)
details-IsFlagged e (truth b) f h = cc (rw f at h)
details-IsFlagged e (number n) f h = cc (rw f at h)
details-IsFlagged e (string t) f h = cc (rw f at h)
details-IsFlagged e (other n) f h = cc (rw f at h)

message_of-string : (e : Datum) (t : Text) → field "message" e ≡ string t → message_of e ≡ t
message_of-string e t f = rw (message_of, f) refl

message_of-other : (e d : Datum) → field "message" e ≡ d → text_of d ≡ none → message_of e ≡ []
message_of-other e d f h = rw (message_of, f, h) refl

unprefixed : starts_with partial_prefix [] ≡ false
unfolding starts_with
unprefixed = refl

-- The prefix, where `d` is the member `message`.
message-IsFlagged :
    (e d : Datum)
    → field "message" e ≡ d
    → starts_with partial_prefix (message_of e) ≡ true
    → IsFlagged e
message-IsFlagged e (string t) f h =
    let read = ap (starts_with partial_prefix) (message_of-string e t f) in
    let (rest, split) = starts_with_split partial_prefix t (sym read ∙ h) in
    inr (rest, f ∙ ap string split)
message-IsFlagged e (object ms) f h =
    cc (h, unprefixed, ap (starts_with partial_prefix) (message_of-other e (object ms) f refl))
message-IsFlagged e (array xs) f h =
    cc (h, unprefixed, ap (starts_with partial_prefix) (message_of-other e (array xs) f refl))
message-IsFlagged e undefined f h =
    cc (h, unprefixed, ap (starts_with partial_prefix) (message_of-other e undefined f refl))
message-IsFlagged e null f h =
    cc (h, unprefixed, ap (starts_with partial_prefix) (message_of-other e null f refl))
message-IsFlagged e (truth b) f h =
    cc (h, unprefixed, ap (starts_with partial_prefix) (message_of-other e (truth b) f refl))
message-IsFlagged e (number n) f h =
    cc (h, unprefixed, ap (starts_with partial_prefix) (message_of-other e (number n) f refl))
message-IsFlagged e (other n) f h =
    cc (h, unprefixed, ap (starts_with partial_prefix) (message_of-other e (other n) f refl))

pub is_partial-IsFlagged : (e : Datum) → is_partial e ≡ true → IsFlagged e
unfolding is_partial
is_partial-IsFlagged e h = elim (Bool-cases (is_true (field "partial" (envelope_details e)))) [
  | inl flagged ↦ details-IsFlagged e (field "details" e) refl flagged
  | inr plain ↦ message-IsFlagged e (field "message" e) refl (ground (arith, plain, h))
]

pub IsFlagged-is_partial : (e : Datum) → IsFlagged e → is_partial e ≡ true
unfolding is_partial
IsFlagged-is_partial e (inl (ms, details, flagged)) = rw (details, flagged) refl
IsFlagged-is_partial e (inr (rest, message)) =
    let whole = codes "Deploy partially succeeded:" ++ rest in
    let read = ap (starts_with partial_prefix) (message_of-string e whole message) in
    or_right (is_true (field "partial" (envelope_details e)))
      (read ∙ starts_with_prefix partial_prefix rest)
  where
    or_right : (a : Bool) {b : Bool} → b ≡ true → (a || b) ≡ true
    or_right true h = refl
    or_right false h = h

-- The details are the member `details` where that is a plain object, else nothing.
abbrev pub IsDetails : Datum → Datum → Type 0
IsDetails e d =
    ((ms : Members) × (field "details" e ≡ object ms) × (d ≡ object ms))
    ⊎ (((ms : Members) → field "details" e ≢ object ms) × (d ≡ undefined))

-- The message is the member `message` where that is a text, else empty.
abbrev pub IsMessage : Datum → Text → Type 0
IsMessage e t =
    (field "message" e ≡ string t) ⊎ (((s : Text) → field "message" e ≢ string s) × (t ≡ []))

envelope_details_of :
    (e d : Datum)
    → field "details" e ≡ d
    → envelope_details e ≡ (if is_plain_object d then d else undefined)
envelope_details_of e d f = rw (envelope_details, f) refl

read-IsDetails : (e d : Datum) → field "details" e ≡ d → IsDetails e (envelope_details e)
read-IsDetails e (object ms) f = inl (ms, f, envelope_details_of e (object ms) f)
read-IsDetails e (array xs) f = inr (λ ms g. cc (f, g), envelope_details_of e (array xs) f)
read-IsDetails e undefined f = inr (λ ms g. cc (f, g), envelope_details_of e undefined f)
read-IsDetails e null f = inr (λ ms g. cc (f, g), envelope_details_of e null f)
read-IsDetails e (truth b) f = inr (λ ms g. cc (f, g), envelope_details_of e (truth b) f)
read-IsDetails e (number n) f = inr (λ ms g. cc (f, g), envelope_details_of e (number n) f)
read-IsDetails e (other n) f = inr (λ ms g. cc (f, g), envelope_details_of e (other n) f)
read-IsDetails e (string t) f = inr (λ ms g. cc (f, g), envelope_details_of e (string t) f)

pub envelope_details-IsDetails : (e : Datum) → IsDetails e (envelope_details e)
envelope_details-IsDetails e = read-IsDetails e (field "details" e) refl

read-IsMessage : (e d : Datum) → field "message" e ≡ d → IsMessage e (message_of e)
read-IsMessage e (string t) f = inl (f ∙ ap string (sym (message_of-string e t f)))
read-IsMessage e (array xs) f = inr (λ t g. cc (f, g), message_of-other e (array xs) f refl)
read-IsMessage e undefined f = inr (λ t g. cc (f, g), message_of-other e undefined f refl)
read-IsMessage e null f = inr (λ t g. cc (f, g), message_of-other e null f refl)
read-IsMessage e (truth b) f = inr (λ t g. cc (f, g), message_of-other e (truth b) f refl)
read-IsMessage e (number n) f = inr (λ t g. cc (f, g), message_of-other e (number n) f refl)
read-IsMessage e (other n) f = inr (λ t g. cc (f, g), message_of-other e (other n) f refl)
read-IsMessage e (object ms) f = inr (λ t g. cc (f, g), message_of-other e (object ms) f refl)

pub message_of-IsMessage : (e : Datum) → IsMessage e (message_of e)
message_of-IsMessage e = read-IsMessage e (field "message" e) refl
