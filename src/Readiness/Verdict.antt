-- ===== src/Readiness/Verdict.antt =====
-- When evaluate-readiness.ts of agent-core blocks a deployment, said without its tests.
use mathlib.Core.Option.{some-injective}
use manifest_mcp_mono.Common.{
  ◌≡◌, ◌≢◌, ◌⊎◌, ◌↔◌, inl, inr, refl, ap, sym, ◌∙◌, Bool, true, false, List, [], ◌∷◌, In, Option,
  none, some, Text, same_text, same_text_iff, any, ℤ, pos, negsuc, pos_part, is_zero, ==_iff,
  Bool-cases, Option-cases, arith,
}
use manifest_mcp_mono.Readiness.Costs.{Coin}
use manifest_mcp_mono.Readiness.GasPrice.{gas_denom}
use manifest_mcp_mono.Readiness.{
  ok, block, SkuOffer, EvaluateReadinessInputs, Draft, offers, available, as_big_int, gas_amount,
  has_no_gas, evaluate_readiness,
}
use manifest_mcp_mono.Readiness.Blocking.{IsMissing, evaluate_readiness-Reads}

-- A tier is on offer: where candidates are given, one of them has its name and, if a provider is asked
-- for, is of that provider; else its name is in the plain list.
abbrev pub IsOffered : Text → Option (List SkuOffer) → Option Text → List Text → Type 0
IsOffered size (some candidates) provider names =
    (c : SkuOffer) × In c candidates
    × (c.name ≡ size)
    × ((p : Text) → provider ≡ some p → c.provider_uuid ≡ p)
IsOffered size none provider names = In size names

-- A tier is asked for that is not on offer.
pub record IsUnavailable (i : EvaluateReadinessInputs) : Type 0 where
  pub size : Text
  pub asked : i.size ≡ some size
  pub missing : ¬ IsOffered size i.sku_candidates i.requested_provider_uuid i.available_sku_names

offers_iff :
    (size : Text) (provider : Option Text) (c : SkuOffer)
    → (offers size provider c ≡ true)
      ↔ ((c.name ≡ size) × ((p : Text) → provider ≡ some p → c.provider_uuid ≡ p))
offers_iff size none c = (
  λ h. ((same_text_iff c.name size).0 h, λ p e. cc e),
  λ (named, _). (same_text_iff c.name size).1 named,
)
offers_iff size (some provider) c = (
  λ h. (
    (same_text_iff c.name size).0 (ground (arith, h)),
    λ p e.
        (same_text_iff c.provider_uuid provider).0 (ground (arith, h))
        ∙ some-injective provider p e,
  ),
  λ (named, owned).
      rw
        (
          (same_text_iff c.name size).1 named,
          (same_text_iff c.provider_uuid provider).1 (owned provider refl),
        )
        refl,
)

any_candidate :
    (size : Text) (provider : Option Text) (cs : List SkuOffer) (names : List Text)
    → (any (offers size provider) cs ≡ true) ↔ IsOffered size (some cs) provider names
any_candidate size provider cs names = (to cs, from cs)
  where
    to :
        (cs : List SkuOffer)
        → any (offers size provider) cs ≡ true
        → IsOffered size (some cs) provider names
    to [] h = cc h
    to (c ∷ cs) h = elim (Bool-cases (offers size provider c)) [
      | inl fits ↦
          let (named, owned) = (offers_iff size provider c).0 fits in (c, inl refl, named, owned)
      | inr other ↦ let (d, m, named, owned) = to cs (rw other at h) in (d, inr m, named, owned)
    ]

    from :
        (cs : List SkuOffer)
        → IsOffered size (some cs) provider names
        → any (offers size provider) cs ≡ true
    from [] (c, m, _, _) = elim m [ ]
    from (d ∷ cs) (c, inl e, named, owned) =
        let fits = (offers_iff size provider c).1 (named, owned) in
        rw (ap (offers size provider) (sym e) ∙ fits) refl
    from (d ∷ cs) (c, inr m, named, owned) =
        let rest = from cs (c, m, named, owned) in ground (arith, rest)

any_name : (size : Text) (names : List Text) → (any (same_text size) names ≡ true) ↔ In size names
any_name size [] = (λ h. cc h, λ m. elim m [ ])
any_name size (n ∷ names) =
    let rest = any_name size names in
    elim (Bool-cases (same_text size n)) [
      | inl here ↦ (λ _. inl ((same_text_iff size n).0 here), λ _. rw here refl)
      | inr other ↦ rw other (
        λ h. inr (rest.0 h),
        λ m. elim m [ inl e ↦ cc (other, (same_text_iff size n).1 e) | inr m ↦ rest.1 m ],
      )
    ]

available_iff :
    (size : Text) (i : EvaluateReadinessInputs)
    → (available size i ≡ true)
      ↔ IsOffered size i.sku_candidates i.requested_provider_uuid i.available_sku_names
available_iff size i = elim (Option-cases i.sku_candidates) [
  | inl plain ↦ rw plain (any_name size i.available_sku_names)
  | inr (cs, given) ↦
      rw given (any_candidate size i.requested_provider_uuid cs i.available_sku_names)
]

untrue : (b : Bool) → ¬ (b ≡ true) → b ≡ false
untrue true h = absurd (h refl)
untrue false h = refl

IsMissing-IsUnavailable : (i : EvaluateReadinessInputs) → IsMissing i.size i ↔ IsUnavailable i
IsMissing-IsUnavailable i = (
  λ (size, asked, missing). record {
    size = size;
    asked = asked;
    missing = λ offered. cc (missing, (available_iff size i).1 offered);
  },
  λ v. (
    v.size,
    v.asked,
    untrue (available v.size i) (λ t. v.missing ((available_iff v.size i).0 t)),
  ),
)

module _ (big_int : Text → Option ℤ) (runs_short : Text → Bool) where
  -- The first coin of the denomination has an integer amount that is not 0.
  pub data HoldsGas (denom : Text) : List Coin → Type 0 where
    here :
        {c : Coin} {cs : List Coin} (n : ℤ)
        → c.denom ≡ denom
        → big_int c.amount ≡ some n
        → n ≢ pos 0
        → HoldsGas denom (c ∷ cs)
    later :
        {c : Coin} {cs : List Coin} → c.denom ≢ denom → HoldsGas denom cs → HoldsGas denom (c ∷ cs)

  is_zero_iff : (n : ℤ) → (is_zero n ≡ true) ↔ (n ≡ pos 0)
  is_zero_iff (pos n) = (λ h. ap pos ((==_iff n 0).0 h), λ e. (==_iff n 0).1 (ap pos_part e))
  is_zero_iff (negsuc n) = (λ h. cc h, λ e. cc e)

  gas_first :
      (denom : Text) (c : Coin) (cs : List Coin)
      → c.denom ≡ denom
      → gas_amount big_int runs_short denom (c ∷ cs) ≡ as_big_int big_int runs_short c.amount
  gas_first denom c cs e = rw (gas_amount, (same_text_iff c.denom denom).1 e) refl

  gas_rest :
      (denom : Text) (c : Coin) (cs : List Coin)
      → same_text c.denom denom ≡ false
      → gas_amount big_int runs_short denom (c ∷ cs) ≡ gas_amount big_int runs_short denom cs
  gas_rest denom c cs h = rw (gas_amount, h) refl

  gas_read : (t : Text) (n : ℤ) → big_int t ≡ some n → as_big_int big_int runs_short t ≡ n
  gas_read t n e = rw e refl

  gas_unread : (t : Text) → big_int t ≡ none → as_big_int big_int runs_short t ≡ pos 0
  gas_unread t e = rw e refl

  some_gas :
      (denom : Text) (cs : List Coin)
      → is_zero (gas_amount big_int runs_short denom cs) ≡ false
      → HoldsGas denom cs
  some_gas denom [] h = cc h
  some_gas denom (c ∷ cs) h = elim (Bool-cases (same_text c.denom denom)) [
    | inr other ↦
        later (λ e. cc (other, (same_text_iff c.denom denom).1 e))
          (some_gas denom cs (sym (ap is_zero (gas_rest denom c cs other)) ∙ h))
    | inl same ↦
        let named = (same_text_iff c.denom denom).0 same in
        let first = gas_first denom c cs named in
        elim (Option-cases (big_int c.amount)) [
          | inl unread ↦ cc (ap is_zero (first ∙ gas_unread c.amount unread), h)
          | inr (n, read) ↦
              here n named read
                (λ e. cc (ap is_zero (first ∙ gas_read c.amount n read), h, (is_zero_iff n).1 e))
        ]
  ]

  gas_held :
      (denom : Text) (cs : List Coin)
      → HoldsGas denom cs
      → ¬ (gas_amount big_int runs_short denom cs ≡ pos 0)
  gas_held denom [] v h = elim v [ ]
  gas_held denom (c ∷ cs) (here n named read left) h =
      left (sym (gas_read c.amount n read) ∙ sym (gas_first denom c cs named) ∙ h)
  gas_held denom (c ∷ cs) (later other rest) h =
      let skipped =
        untrue (same_text c.denom denom) (λ t. other ((same_text_iff c.denom denom).0 t)) in
      gas_held denom cs rest (sym (gas_rest denom c cs skipped) ∙ h)

  has_no_gas-eq-true :
      (denom : Text) (cs : List Coin)
      → has_no_gas big_int runs_short denom cs ≡ true
      → gas_amount big_int runs_short denom cs ≡ pos 0
  has_no_gas-eq-true denom [] h = refl
  has_no_gas-eq-true denom (c ∷ cs) h =
      (is_zero_iff (gas_amount big_int runs_short denom (c ∷ cs))).0 h

  has_no_gas-eq-false :
      (denom : Text) (cs : List Coin)
      → has_no_gas big_int runs_short denom cs ≡ false
      → is_zero (gas_amount big_int runs_short denom cs) ≡ false
  has_no_gas-eq-false denom [] h = cc h
  has_no_gas-eq-false denom (c ∷ cs) h = h

  has_no_gas_iff :
      (denom : Text) (cs : List Coin)
      → (has_no_gas big_int runs_short denom cs ≡ true) ↔ (¬ HoldsGas denom cs)
  has_no_gas_iff denom cs = (
    λ h v. gas_held denom cs v (has_no_gas-eq-true denom cs h),
    λ none_held. elim (Bool-cases (has_no_gas big_int runs_short denom cs)) [
      | inl empty ↦ empty
      | inr left ↦ absurd (none_held (some_gas denom cs (has_no_gas-eq-false denom cs left)))
    ],
  )

  -- A deployment is blocked exactly when the requested tier is not on offer, or the first coin of the
  -- gas denomination in the wallet is missing, 0 or no integer; and it passes as `ok` exactly when
  -- there is no reason to show.
  pub evaluate_readiness-status :
      (i : EvaluateReadinessInputs) (denom : Text) (d : Draft)
      → gas_denom i.gas_price ≡ some denom
      → evaluate_readiness big_int runs_short i ≡ some d
      → ((d.status ≡ block) ↔ (IsUnavailable i ⊎ (¬ HoldsGas denom i.wallet_balances)))
        × ((d.status ≡ ok) ↔ (d.reasons ≡ []))
  evaluate_readiness-status i denom d priced h =
      let ((to, from), silent) = evaluate_readiness-Reads big_int runs_short i denom d priced h in
      let missing = IsMissing-IsUnavailable i in
      let gas = has_no_gas_iff denom i.wallet_balances in
      ((λ b. both missing.0 gas.0 (to b), λ c. from (both missing.1 gas.1 c)), silent)
    where
      both : {A B C D : Type 0} → (A → C) → (B → D) → A ⊎ B → C ⊎ D
      both f g (inl a) = inl (f a)
      both f g (inr b) = inr (g b)
