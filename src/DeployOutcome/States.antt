-- ===== src/DeployOutcome/States.antt =====
-- The states that decode and isTerminal of agent-core's lease-state.ts read, in terms of the raw value.
use mathlib.Core.Path.{subst}
use manifest_mcp_mono.Common.{
  ℕ, ◌≡◌, ◌↔◌, ◌⊎◌, inl, inr, refl, ap, sym, ◌∙◌, Bool, true, false, ◌++◌, Option, none, some, Text,
  codes, same_text, same_text_iff, arith, Bool-cases, Option-cases, Datum, undefined, null, truth,
  number, string, other, array, object,
}
use manifest_mcp_mono.Retry.Message.{starts_with}
use manifest_mcp_mono.DeployOutcome.Prefix.{starts_with_split, starts_with_prefix}
use manifest_mcp_mono.DeployOutcome.Response.{states, is_terminal, is_active, decode}
use manifest_mcp_mono.DeployOutcome.Running.{or_split}

-- The name of a state begins so.
abbrev pub IsStateName : Text → Type 0
IsStateName t = (rest : Text) × (t ≡ codes "LEASE_STATE_" ++ rest)

module _ (number_of : Text → Option ℕ) where
  -- A state that is given by its number, or by a text of that number.
  abbrev pub IsCode : Datum → ℕ → Type 0
  IsCode d n =
      (d ≡ number n) ⊎ ((t : Text) × (d ≡ string t) × (¬ IsStateName t) × (number_of t ≡ some n))

  -- The state ACTIVE, 2.
  abbrev pub IsActiveState : Datum → Type 0
  IsActiveState d = IsCode d 2 ⊎ (d ≡ string (codes "LEASE_STATE_ACTIVE"))

  -- The states CLOSED, 3, REJECTED, 4, and EXPIRED, 5, and the name of an older one.
  abbrev pub IsOver : Datum → Type 0
  IsOver d =
      (IsCode d 3 ⊎ (IsCode d 4 ⊎ IsCode d 5))
      ⊎ ((d ≡ string (codes "LEASE_STATE_CLOSED"))
          ⊎ ((d ≡ string (codes "LEASE_STATE_REJECTED"))
              ⊎ ((d ≡ string (codes "LEASE_STATE_EXPIRED"))
                  ⊎ (d ≡ string (codes "LEASE_STATE_INSUFFICIENT_FUNDS")))))

  active_code : (n : ℕ) → (is_active (states n) ≡ true) ↔ (n ≡ 2)
  unfolding same_text
  active_code n = (λ h. ground (arith, h), λ e. rw e refl)

  over_code : (n : ℕ) → (is_terminal (states n) ≡ true) ↔ ((n ≡ 3) ⊎ ((n ≡ 4) ⊎ (n ≡ 5)))
  unfolding same_text
  over_code n = (λ h. ground (arith, h), λ e. ground (arith, e))

  -- How a test reads a decoded state: on the name of its number, or on the name given.
  abbrev Reading : (Option Text → Bool) → Datum → Type 0
  Reading test d =
      ((n : ℕ) × IsCode d n × (test (states n) ≡ true))
      ⊎ ((t : Text) × (d ≡ string t) × IsStateName t × (test (some t) ≡ true))

  decode_name :
      (t : Text)
      → starts_with (codes "LEASE_STATE_") t ≡ true
      → decode number_of (string t) ≡ some t
  decode_name t h = rw (decode, h) refl

  decode_number :
      (t : Text) (n : ℕ)
      → starts_with (codes "LEASE_STATE_") t ≡ false
      → number_of t ≡ some n
      → decode number_of (string t) ≡ states n
  decode_number t n h e = rw (decode, h, e) refl

  decode_unread :
      (t : Text)
      → starts_with (codes "LEASE_STATE_") t ≡ false
      → number_of t ≡ none
      → decode number_of (string t) ≡ none
  decode_unread t h e = rw (decode, h, e) refl

  unnamed : (t : Text) → starts_with (codes "LEASE_STATE_") t ≡ false → ¬ IsStateName t
  unnamed t h (rest, e) =
      cc (
        h,
        ap (starts_with (codes "LEASE_STATE_")) e,
        starts_with_prefix (codes "LEASE_STATE_") rest,
      )

  named : (t : Text) → IsStateName t → starts_with (codes "LEASE_STATE_") t ≡ true
  named t (rest, e) =
      ap (starts_with (codes "LEASE_STATE_")) e ∙ starts_with_prefix (codes "LEASE_STATE_") rest

  decode-Reading :
      (test : Option Text → Bool) (d : Datum)
      → test none ≡ false
      → test (decode number_of d) ≡ true
      → Reading test d
  decode-Reading test (number n) none_fails h = inl (n, inl refl, h)
  decode-Reading test (string t) none_fails h =
      elim (Bool-cases (starts_with (codes "LEASE_STATE_") t)) [
        | inl prefixed ↦ inr (
          t,
          refl,
          starts_with_split (codes "LEASE_STATE_") t prefixed,
          sym (ap test (decode_name t prefixed)) ∙ h,
        )
        | inr plain ↦ elim (Option-cases (number_of t)) [
          | inl unread ↦ cc (none_fails, h, ap test (decode_unread t plain unread))
          | inr (n, read) ↦ inl (
            n,
            inr (t, refl, unnamed t plain, read),
            sym (ap test (decode_number t n plain read)) ∙ h,
          )
        ]
      ]
  decode-Reading test undefined none_fails h = cc (none_fails, h)
  decode-Reading test null none_fails h = cc (none_fails, h)
  decode-Reading test (truth b) none_fails h = cc (none_fails, h)
  decode-Reading test (other n) none_fails h = cc (none_fails, h)
  decode-Reading test (array xs) none_fails h = cc (none_fails, h)
  decode-Reading test (object ms) none_fails h = cc (none_fails, h)

  Reading-decode :
      (test : Option Text → Bool) (d : Datum) → Reading test d → test (decode number_of d) ≡ true
  Reading-decode test d (inl (n, inl e, h)) = ap (λ v. test (decode number_of v)) e ∙ h
  Reading-decode test d (inl (n, inr (t, e, plain, read), h)) =
      elim (Bool-cases (starts_with (codes "LEASE_STATE_") t)) [
        | inl prefixed ↦ absurd (plain (starts_with_split (codes "LEASE_STATE_") t prefixed))
        | inr unprefixed ↦
            ap (λ v. test (decode number_of v)) e ∙ ap test (decode_number t n unprefixed read) ∙ h
      ]
  Reading-decode test d (inr (t, e, name, h)) =
      ap (λ v. test (decode number_of v)) e ∙ ap test (decode_name t (named t name)) ∙ h

  active_name : (t : Text) → is_active (some t) ≡ true → t ≡ codes "LEASE_STATE_ACTIVE"
  active_name t h = sym ((same_text_iff (codes "LEASE_STATE_ACTIVE") t).0 h)

  pub decode-IsActiveState : (d : Datum) → (is_active (decode number_of d) ≡ true) ↔ IsActiveState d
  decode-IsActiveState d = (
    λ h. elim (decode-Reading is_active d refl h) [
      | inl (n, code, active) ↦ inl (subst (IsCode d) ((active_code n).0 active) code)
      | inr (t, given, _, active) ↦ inr (given ∙ ap string (active_name t active))
    ],
    λ v. Reading-decode is_active d (elim v [
      | inl code ↦ inl (2, code, (active_code 2).1 refl)
      | inr given ↦ inr (
        codes "LEASE_STATE_ACTIVE",
        given,
        (codes "ACTIVE", refl),
        (same_text_iff (codes "LEASE_STATE_ACTIVE") (codes "LEASE_STATE_ACTIVE")).1 refl,
      )
    ]),
  )

  is_name : (t name : Text) → same_text name t ≡ true → string t ≡ string name
  is_name t name h = ap string (sym ((same_text_iff name t).0 h))

  over_name :
      (t : Text)
      → is_terminal (some t) ≡ true
      → (string t ≡ string (codes "LEASE_STATE_CLOSED"))
        ⊎ ((string t ≡ string (codes "LEASE_STATE_REJECTED"))
            ⊎ ((string t ≡ string (codes "LEASE_STATE_EXPIRED"))
                ⊎ (string t ≡ string (codes "LEASE_STATE_INSUFFICIENT_FUNDS"))))
  over_name t h = elim (or_split (same_text (codes "LEASE_STATE_CLOSED") t) _ h) [
    | inl closed ↦ inl (is_name t (codes "LEASE_STATE_CLOSED") closed)
    | inr h ↦ elim (or_split (same_text (codes "LEASE_STATE_REJECTED") t) _ h) [
      | inl rejected ↦ inr (inl (is_name t (codes "LEASE_STATE_REJECTED") rejected))
      | inr h ↦ elim (or_split (same_text (codes "LEASE_STATE_EXPIRED") t) _ h) [
        | inl expired ↦ inr (inr (inl (is_name t (codes "LEASE_STATE_EXPIRED") expired)))
        | inr h ↦ elim (or_split (same_text (codes "LEASE_STATE_INSUFFICIENT_FUNDS") t) false h) [
          | inl broke ↦ inr (inr (inr (is_name t (codes "LEASE_STATE_INSUFFICIENT_FUNDS") broke)))
          | inr none_left ↦ cc none_left
        ]
      ]
    ]
  ]

  names_over :
      (is_terminal (some (codes "LEASE_STATE_CLOSED")) ≡ true)
      × (is_terminal (some (codes "LEASE_STATE_REJECTED")) ≡ true)
      × (is_terminal (some (codes "LEASE_STATE_EXPIRED")) ≡ true)
      × (is_terminal (some (codes "LEASE_STATE_INSUFFICIENT_FUNDS")) ≡ true)
  unfolding same_text
  names_over = (refl, refl, refl, refl)

  over_of_code : (d : Datum) → (IsCode d 3 ⊎ (IsCode d 4 ⊎ IsCode d 5)) → Reading is_terminal d
  over_of_code d (inl code) = inl (3, code, (over_code 3).1 (inl refl))
  over_of_code d (inr (inl code)) = inl (4, code, (over_code 4).1 (inr (inl refl)))
  over_of_code d (inr (inr code)) = inl (5, code, (over_code 5).1 (inr (inr refl)))

  over_of_name :
      (d : Datum)
      → (d ≡ string (codes "LEASE_STATE_CLOSED"))
        ⊎ ((d ≡ string (codes "LEASE_STATE_REJECTED"))
            ⊎ ((d ≡ string (codes "LEASE_STATE_EXPIRED"))
                ⊎ (d ≡ string (codes "LEASE_STATE_INSUFFICIENT_FUNDS"))))
      → Reading is_terminal d
  over_of_name d (inl e) = inr (codes "LEASE_STATE_CLOSED", e, (codes "CLOSED", refl), names_over.0)
  over_of_name d (inr (inl e)) =
      inr (codes "LEASE_STATE_REJECTED", e, (codes "REJECTED", refl), names_over.1)
  over_of_name d (inr (inr (inl e))) =
      inr (codes "LEASE_STATE_EXPIRED", e, (codes "EXPIRED", refl), names_over.2)
  over_of_name d (inr (inr (inr e))) =
      inr (
        codes "LEASE_STATE_INSUFFICIENT_FUNDS",
        e,
        (codes "INSUFFICIENT_FUNDS", refl),
        names_over.3,
      )

  code-IsOver : (d : Datum) (n : ℕ) → IsCode d n → (n ≡ 3) ⊎ ((n ≡ 4) ⊎ (n ≡ 5)) → IsOver d
  code-IsOver d n code (inl e) = inl (inl (subst (IsCode d) e code))
  code-IsOver d n code (inr (inl e)) = inl (inr (inl (subst (IsCode d) e code)))
  code-IsOver d n code (inr (inr e)) = inl (inr (inr (subst (IsCode d) e code)))

  pub decode-IsOver : (d : Datum) → (is_terminal (decode number_of d) ≡ true) ↔ IsOver d
  decode-IsOver d = (
    λ h. elim (decode-Reading is_terminal d refl h) [
      | inl (n, code, over) ↦ code-IsOver d n code ((over_code n).0 over)
      | inr (t, given, _, over) ↦ subst IsOver (sym given) (inr (over_name t over))
    ],
    λ v.
        Reading-decode is_terminal d
          (elim v [ inl code ↦ over_of_code d code | inr given ↦ over_of_name d given ]),
  )
