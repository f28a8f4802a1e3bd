-- ===== src/DeployOutcome/Judgement.antt =====
-- What classify-deploy-response.ts of agent-core takes an answer to say, in terms of its raw members.
use manifest_mcp_mono.Common.{
  ℕ, ◌≡◌, ◌≢◌, ◌↔◌, ◌⊎◌, inl, inr, refl, true, false, [], ◌∷◌, Option, none, Text, Bool-cases,
  Datum, undefined, null, truth, number, string, other, array, object, field,
}
use manifest_mcp_mono.DeployOutcome.{text_of}
use manifest_mcp_mono.DeployOutcome.Response.{
  has_running_instances, deploy_active, deploy_failed, DeployResponseClassification, has_lease,
  decode, classify_deploy_response,
}
use manifest_mcp_mono.DeployOutcome.Running.{
  HasRunning, has_running_instances_iff, or_split, or_left, or_right,
}
use manifest_mcp_mono.DeployOutcome.Verdict.{
  has_url, is_live, is_active_iff, classify_deploy_response-IsDecided,
}
use manifest_mcp_mono.DeployOutcome.States.{
  IsActiveState, IsOver, decode-IsActiveState, decode-IsOver,
}

-- A text that is not empty.
abbrev pub HasText : Datum → Type 0
HasText d = (c : ℕ) × (s : Text) × (d ≡ string (c ∷ s))

has_url_iff : (d : Datum) → (has_url d ≡ true) ↔ HasText d
has_url_iff (string (c ∷ s)) = (λ h. (c, s, refl), λ h. refl)
has_url_iff (string []) = (λ h. cc h, λ (c, s, e). cc e)
has_url_iff (object ms) = (λ h. cc h, λ (c, s, e). cc e)
has_url_iff undefined = (λ h. cc h, λ (c, s, e). cc e)
has_url_iff null = (λ h. cc h, λ (c, s, e). cc e)
has_url_iff (truth b) = (λ h. cc h, λ (c, s, e). cc e)
has_url_iff (number n) = (λ h. cc h, λ (c, s, e). cc e)
has_url_iff (other n) = (λ h. cc h, λ (c, s, e). cc e)
has_url_iff (array xs) = (λ h. cc h, λ (c, s, e). cc e)

has_lease_iff : (d : Datum) → (has_lease (text_of d) ≡ true) ↔ HasText d
has_lease_iff (string (c ∷ s)) = (λ h. (c, s, refl), λ h. refl)
has_lease_iff (string []) = (λ h. cc h, λ (c, s, e). cc e)
has_lease_iff (object ms) = (λ h. cc h, λ (c, s, e). cc e)
has_lease_iff undefined = (λ h. cc h, λ (c, s, e). cc e)
has_lease_iff null = (λ h. cc h, λ (c, s, e). cc e)
has_lease_iff (truth b) = (λ h. cc h, λ (c, s, e). cc e)
has_lease_iff (number n) = (λ h. cc h, λ (c, s, e). cc e)
has_lease_iff (other n) = (λ h. cc h, λ (c, s, e). cc e)
has_lease_iff (array xs) = (λ h. cc h, λ (c, s, e). cc e)

has_lease-false : (d : Datum) → (has_lease (text_of d) ≡ false) ↔ (¬ HasText d)
has_lease-false d = (
  λ h v. cc (h, (has_lease_iff d).1 v),
  λ lost. elim (Bool-cases (has_lease (text_of d))) [
    | inl leased ↦ absurd (lost ((has_lease_iff d).0 leased))
    | inr gone ↦ gone
  ],
)

is_live_iff :
    (response : Datum)
    → (is_live response ≡ true)
      ↔ (HasRunning (field "connection" response) ⊎ HasText (field "url" response))
is_live_iff response =
    let runs_now = has_running_instances_iff (field "connection" response) in
    let addressed = has_url_iff (field "url" response) in
    let live = has_running_instances (field "connection" response) in
    let url = has_url (field "url" response) in
    (
      λ h. elim (or_split live url h) [
        | inl now ↦ inl (runs_now.0 now)
        | inr given ↦ inr (addressed.0 given)
      ],
      λ v. elim v [
        | inl now ↦ or_left live url (runs_now.1 now)
        | inr given ↦ or_right live url (addressed.1 given)
      ],
    )

-- What the classification of an answer means.
pub record IsJudged (number_of : Text → Option ℕ) (response : Datum)
    (r : DeployResponseClassification) : Type 0 where
  pub running : (r.outcome ≡ deploy_active) ↔ (
      HasText (field "lease_uuid" response)
      × IsActiveState number_of (field "state" response)
      × (HasRunning (field "connection" response) ⊎ HasText (field "url" response)))
  pub lost :
      (r.outcome ≡ deploy_failed)
      ↔ ((¬ HasText (field "lease_uuid" response)) ⊎ IsOver number_of (field "state" response))
  pub unexplained : (r.error_summary ≡ none) ↔ (r.outcome ≢ deploy_failed)

-- A deployment counts as active exactly where the answer names a lease, gives its state as ACTIVE, by
-- its name or its number, and has an instance with the status "running", in the connection or in one
-- of its services, or an address beside the connection. It counts as failed exactly where the answer
-- names no lease or gives its state as closed, rejected, expired or out of funds, and waits otherwise.
-- An error is reported exactly where it failed.
pub classify_deploy_response-IsJudged :
    (number_of : Text → Option ℕ) (response : Datum)
    → IsJudged number_of response (classify_deploy_response number_of response)
unfolding classify_deploy_response
classify_deploy_response-IsJudged number_of response =
    let v = classify_deploy_response-IsDecided number_of response in
    let state = decode number_of (field "state" response) in
    let active = decode-IsActiveState number_of (field "state" response) in
    let over = decode-IsOver number_of (field "state" response) in
    let leased = has_lease_iff (field "lease_uuid" response) in
    let unleased = has_lease-false (field "lease_uuid" response) in
    let live = is_live_iff response in
    record {
      running = (
        λ h.
            let (lease, state_active, lives) = v.running.0 h in
            (leased.0 lease, active.0 ((is_active_iff state).1 state_active), live.0 lives),
        λ (lease, state_active, lives).
            v.running.1
              (leased.1 lease, (is_active_iff state).0 (active.1 state_active), live.1 lives),
      );
      lost = (
        λ h. elim (v.lost.0 h) [
          | inl gone ↦ inl (unleased.0 gone)
          | inr ended ↦ inr (over.0 ended)
        ],
        λ c.
            v.lost.1 (elim c [ inl gone ↦ inl (unleased.1 gone) | inr ended ↦ inr (over.1 ended) ]),
      );
      unexplained = v.unexplained;
    }
