-- ===== src/DeployManifest/Envelope.antt =====
-- packages/fred/src/tools/deployManifest.ts: the envelopes that its catch builds, as the classification
-- of packages/agent-core/src/internals/classify-deploy-error.ts reads them.
use manifest_mcp_mono.Common.{
  ◌≡◌, refl, sym, ◌∙◌, inl, inr, true, false, Option, none, some, Text, codes, same_text,
  same_text_iff, Bool-cases, Datum, string, object, Members, no_members, member, member_of,
  if◌then◌else◌,
}
use manifest_mcp_mono.DeployManifest.{
  Thrown, sdk_error, Unconfirmed, assign, assign_text, error_message_of,
}
use manifest_mcp_mono.DeployManifest.Failure.{spread, poll_details_of}

-- The error as a value: only a ManifestMCPError carries details of its own here.
abbrev pub envelope : Thrown → Datum
envelope (sdk_error code message details) = object (
    member (codes "code") code (
      member (codes "message") (string message)
        (member (codes "details") (object details) no_members)))
envelope x = object (member (codes "message") (string (error_message_of x)) no_members)

other_key : (k k' j : Text) → same_text k' k ≡ false → same_text k j ≡ true → same_text k' j ≡ false
other_key k k' j apart here = elim (Bool-cases (same_text k' j)) [
  | inr f ↦ f
  | inl t ↦
      cc (
        (same_text_iff k' k).1 ((same_text_iff k' j).0 t ∙ sym ((same_text_iff k j).0 here)),
        apart,
      )
]

-- What a key holds after an assignment.
pub member_of-assign :
    (j k : Text) (v : Datum) (ms : Members)
    → member_of j (assign k v ms) ≡ (if same_text k j then v else member_of j ms)
member_of-assign j k v no_members = refl
member_of-assign j k v (member k' u ms) = elim (Bool-cases (same_text k' k)) [
  | inl t ↦ same t
  | inr f ↦ rw f (elim (Bool-cases (same_text k j)) [
    | inl here ↦ rw (other_key k k' j f here, member_of-assign j k v ms, here) refl
    | inr away ↦ rw (member_of-assign j k v ms, away) refl
  ])
]
  where
    same :
        same_text k' k ≡ true
        → member_of j (assign k v (member k' u ms))
          ≡ (if same_text k j then v else member_of j (member k' u ms))
    same t = rw t (
        rw ((same_text_iff k' k).0 t)
          (elim (Bool-cases (same_text k j)) [ inl here ↦ rw here refl | inr away ↦ rw away refl ]))

pub assigned :
    (j k : Text) (v : Datum) (ms : Members) → same_text k j ≡ true → member_of j (assign k v ms) ≡ v
assigned j k v ms h = rw (member_of-assign j k v ms, h) refl

pub untouched :
    (j k : Text) (v : Datum) (ms : Members)
    → same_text k j ≡ false
    → member_of j (assign k v ms) ≡ member_of j ms
untouched j k v ms h = rw (member_of-assign j k v ms, h) refl

pub untouched_text :
    (j k : Text) (o : Option Text) (ms : Members)
    → same_text k j ≡ false
    → member_of j (assign_text k o ms) ≡ member_of j ms
untouched_text j k none ms h = refl
untouched_text j k (some t) ms h = untouched j k (string t) ms h

-- The details of a poll leave every other key as it was.
pub untouched_poll :
    (j : Text) (ms : Members) (o : Option Unconfirmed)
    → same_text (codes "poll_reason") j ≡ false
    → same_text (codes "last_state") j ≡ false
    → same_text (codes "last_provision_status") j ≡ false
    → member_of j (spread ms (poll_details_of o)) ≡ member_of j ms
unfolding spread same_text
untouched_poll j ms none h1 h2 h3 = refl
untouched_poll j ms (some u) h1 h2 h3 = by_state u.last_state u.last_provision_status
  where
    reason : Members
    reason = assign (codes "poll_reason") (string u.reason) ms

    by_state :
        (s p : Option Text)
        → member_of j (
            spread ms (
              assign_text (codes "last_provision_status") p (
                assign_text
                  (codes "last_state")
                  s
                  (member (codes "poll_reason") (string u.reason) no_members))))
          ≡ member_of j ms
    by_state none none = untouched j (codes "poll_reason") (string u.reason) ms h1
    by_state (some s) none =
        untouched j (codes "last_state") (string s) reason h2
        ∙ untouched j (codes "poll_reason") (string u.reason) ms h1
    by_state none (some p) =
        untouched j (codes "last_provision_status") (string p) reason h3
        ∙ untouched j (codes "poll_reason") (string u.reason) ms h1
    by_state (some s) (some p) =
        untouched j (codes "last_provision_status") (string p)
          (assign (codes "last_state") (string s) reason) h3
        ∙ untouched j (codes "last_state") (string s) reason h2
        ∙ untouched j (codes "poll_reason") (string u.reason) ms h1
