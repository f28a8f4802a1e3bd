-- ===== src/Readiness/Blocking.antt =====
-- What the verdict says: when a deployment is blocked, when it passes in silence.
use mathlib.Core.Option.{some-injective}
use mathlib.Core.Path.{subst}
use manifest_mcp_mono.Common.{
  ℕ, ◌≡◌, ◌≢◌, ◌⊎◌, ◌↔◌, inl, inr, refl, ap, Bool, true, false, List, [], ◌∷◌, ◌++◌, Option, none,
  some, Text, ℤ, if_cases, if◌then◌else◌, ◌==◌,
}
use manifest_mcp_mono.Readiness.Costs.{
  Coin, BillingUnit, LeaseItem, Total, RecurringCosts, summarize_recurring_costs,
}
use manifest_mcp_mono.Readiness.GasPrice.{gas_denom}
use manifest_mcp_mono.Readiness.{
  Status, ok, warn, block, ReadinessAction, Reason, EvaluateReadinessInputs, Credits, Draft,
  downgrade, warned, refused, available, sku_rule, has_no_gas, gas_rule, credit_round,
  credit_rounds, burn_rule, credit_rule, credit_balances, unpriced_rule, warn_floor, walk_rules,
  evaluate_readiness, coin_of, add_action, fund_credit, topup_wallet, request_faucet,
  pick_different_sku, sku_gate,
}

-- A draft passes exactly when it has no reason.
abbrev Agrees : Draft → Type 0
Agrees d = (d.status ≡ ok) ↔ (d.reasons ≡ [])

snoc-ne-nil : (rs : List Reason) (r : Reason) → rs ++ r ∷ [] ≢ []
snoc-ne-nil [] r h = cc h
snoc-ne-nil (x ∷ rs) r h = cc h

downgrade-ne-ok : (s : Status) → downgrade s ≢ ok
downgrade-ne-ok ok h = cc h
downgrade-ne-ok warn h = cc h
downgrade-ne-ok block h = cc h

warned-Agrees : (r : Reason) (acts : List ReadinessAction) (d : Draft) → Agrees (warned r acts d)
warned-Agrees r acts d =
    (λ h. absurd (downgrade-ne-ok d.status h), λ h. absurd (snoc-ne-nil d.reasons r h))

refused-Agrees : (r : Reason) (acts : List ReadinessAction) (d : Draft) → Agrees (refused r acts d)
refused-Agrees r acts d = (λ h. cc h, λ h. absurd (snoc-ne-nil d.reasons r h))

-- A rule that never blocks: it keeps the agreement, and whether the draft is blocked.
abbrev Mild : Draft → Draft → Type 0
Mild d e = (Agrees d → Agrees e) × ((e.status ≡ block) ↔ (d.status ≡ block))

Mild-refl : (d : Draft) → Mild d d
Mild-refl d = (λ a. a, (λ h. h, λ h. h))

Mild-trans : (d e f : Draft) → Mild d e → Mild e f → Mild d f
Mild-trans d e f p q = (λ a. q.0 (p.0 a), (λ h. p.1.0 (q.1.0 h), λ h. q.1.1 (p.1.1 h)))

downgrade-block : (s : Status) → (downgrade s ≡ block) ↔ (s ≡ block)
downgrade-block ok = (λ h. cc h, λ h. cc h)
downgrade-block warn = (λ h. cc h, λ h. cc h)
downgrade-block block = (λ h. h, λ h. h)

warned-Mild : (r : Reason) (acts : List ReadinessAction) (d : Draft) → Mild d (warned r acts d)
warned-Mild r acts d = (λ _. warned-Agrees r acts d, downgrade-block d.status)

-- The requested tier is not on offer.
abbrev pub IsMissing : Option Text → EvaluateReadinessInputs → Type 0
IsMissing requested i = (size : Text) × (requested ≡ some size) × (available size i ≡ false)

abbrev begin : Draft
begin = record { status = ok; reasons = []; actions = [] }

sku_gate_lem :
    (requested : Option Text) (i : EvaluateReadinessInputs)
    → Agrees (sku_gate requested i begin)
      × (((sku_gate requested i begin).status ≡ block) ↔ IsMissing requested i)
unfolding sku_gate
sku_gate_lem none i = ((λ _. refl, λ _. refl), (λ h. cc h, λ (size, set, _). cc set))
sku_gate_lem (some size) i =
    if_cases Good (available size i)
      (λ offered. (
        (λ _. refl, λ _. refl),
        (λ h. cc h, λ (asked, same, missing). clash asked offered same missing),
      ))
      (λ missing. (
        refused-Agrees _ (add_action pick_different_sku []) begin,
        (λ _. (size, refl, missing), λ _. refl),
      ))
  where
    Good : Draft → Type 0
    Good e = Agrees e × ((e.status ≡ block) ↔ IsMissing (some size) i)

    clash :
        {S : Type 0} (asked : Text)
        → available size i ≡ true
        → some size ≡ some asked
        → available asked i ≡ false
        → S
    clash asked offered same missing =
        cc (offered, missing, ap (λ t. available t i) (some-injective size asked same))

module _ (big_int : Text → Option ℤ) (runs_short : Text → Bool) where
  credit_round-Mild :
      (unit : BillingUnit) (balances : List Coin) (t : Total) (entry : Option Coin) (d : Draft)
      → Mild d (credit_round big_int runs_short unit balances t entry d)
  unfolding credit_round
  credit_round-Mild unit balances t none d = warned-Mild _ (add_action fund_credit d.actions) d
  credit_round-Mild unit balances t (some entry) d =
      if_cases (Mild d) _ (λ _. warned-Mild _ (add_action fund_credit d.actions) d)
        (λ _. Mild-refl d)

  credit_rounds-Mild :
      (unit : BillingUnit) (balances : List Coin) (ts : List Total) (d : Draft)
      → Mild d (credit_rounds big_int runs_short unit balances ts d)
  unfolding credit_rounds
  credit_rounds-Mild unit balances [] d = Mild-refl d
  credit_rounds-Mild unit balances (t ∷ ts) d =
      let round =
        credit_round big_int runs_short unit balances t
          (coin_of big_int runs_short t.denom balances) d in
      let next = if t.amount == 0 then d else round in
      Mild-trans d next (credit_rounds big_int runs_short unit balances ts next)
        (if_cases (Mild d) (t.amount == 0) (λ _. Mild-refl d)
          (λ _. credit_round-Mild unit balances t (coin_of big_int runs_short t.denom balances) d))
        (credit_rounds-Mild unit balances ts next)

  burn_rule-Mild :
      (items : List LeaseItem) (hours : Option Text) (d : Draft)
      → Mild d (burn_rule big_int runs_short items hours d)
  unfolding burn_rule
  burn_rule-Mild items none d = Mild-refl d
  burn_rule-Mild items (some hours) d =
      if_cases (Mild d) _ (λ _. warned-Mild _ (add_action fund_credit d.actions) d)
        (λ _. Mild-refl d)

  credit_rule-Mild :
      (items : List LeaseItem) (costs : RecurringCosts) (credits : Option Credits) (d : Draft)
      → Mild d (credit_rule big_int runs_short items costs credits d)
  unfolding credit_rule
  credit_rule-Mild items costs none d = warned-Mild _ (add_action fund_credit d.actions) d
  credit_rule-Mild items costs (some credits) d =
      let balances = credit_balances big_int runs_short credits in
      let mid = credit_rounds big_int runs_short costs.unit balances costs.totals d in
      Mild-trans d mid (burn_rule big_int runs_short items credits.hours_remaining mid)
        (credit_rounds-Mild costs.unit balances costs.totals d)
        (burn_rule-Mild items credits.hours_remaining mid)

  unpriced_rule-Mild : (n : ℕ) (d : Draft) → Mild d (unpriced_rule big_int runs_short n d)
  unfolding unpriced_rule
  unpriced_rule-Mild n d = if_cases (Mild d) _ (λ _. warned-Mild _ d.actions d) (λ _. Mild-refl d)

  gas_rule_lem :
      (denom : Text) (floor : ℤ) (balances : List Coin) (d : Draft)
      → (Agrees d → Agrees (gas_rule big_int runs_short denom floor balances d))
        × (((gas_rule big_int runs_short denom floor balances d).status ≡ block)
            ↔ ((d.status ≡ block) ⊎ (has_no_gas big_int runs_short denom balances ≡ true)))
  unfolding gas_rule
  gas_rule_lem denom floor balances d =
      if_cases Good (has_no_gas big_int runs_short denom balances)
        (λ empty. (
          λ _. refused-Agrees _ (add_action topup_wallet (add_action request_faucet d.actions)) d,
          (λ _. inr empty, λ _. refl),
        ))
        (λ some_left.
          if_cases Good _
            (λ _. (
              λ _. warned-Agrees _ (add_action topup_wallet d.actions) d,
              (
                λ h. inl ((downgrade-block d.status).0 h),
                λ h. still some_left (downgrade-block d.status).1 h,
              ),
            ))
            (λ _. (λ a. a, (λ h. inl h, λ h. still some_left (λ k. k) h))))
    where
      Good : Draft → Type 0
      Good e =
          (Agrees d → Agrees e)
          × ((e.status ≡ block)
              ↔ ((d.status ≡ block) ⊎ (has_no_gas big_int runs_short denom balances ≡ true)))

      still :
          {S : Type 0}
          → has_no_gas big_int runs_short denom balances ≡ false
          → (d.status ≡ block → S)
          → (d.status ≡ block) ⊎ (has_no_gas big_int runs_short denom balances ≡ true)
          → S
      still none_empty f (inl blocked) = f blocked
      still none_empty f (inr empty) = cc (none_empty, empty)

  -- What is shown of a verdict on a draft.
  abbrev Reads : Text → EvaluateReadinessInputs → Draft → Type 0
  Reads denom i d =
      ((d.status ≡ block)
        ↔ (IsMissing i.size i ⊎ (has_no_gas big_int runs_short denom i.wallet_balances ≡ true)))
      × ((d.status ≡ ok) ↔ (d.reasons ≡ []))

  walk_rules-Reads :
      (denom : Text) (floor : ℤ) (i : EvaluateReadinessInputs)
      → Reads denom i (walk_rules big_int runs_short denom floor i)
  unfolding walk_rules sku_rule
  walk_rules-Reads denom floor i =
      let costs = summarize_recurring_costs i.lease_items in
      let d1 = sku_gate i.size i begin in
      let d2 = gas_rule big_int runs_short denom floor i.wallet_balances d1 in
      let d3 = credit_rule big_int runs_short i.lease_items costs i.credits d2 in
      let gate = sku_gate_lem i.size i in
      let gas = gas_rule_lem denom floor i.wallet_balances d1 in
      let credit = credit_rule-Mild i.lease_items costs i.credits d2 in
      let last = unpriced_rule-Mild costs.unpriced_item_count d3 in
      (
        (
          λ h. lift gate.1.0 (gas.1.0 (credit.1.0 (last.1.0 h))),
          λ h. last.1.1 (credit.1.1 (gas.1.1 (lift gate.1.1 h))),
        ),
        last.0 (credit.0 (gas.0 gate.0)),
      )
    where
      lift : {A B C : Type 0} → (A → B) → A ⊎ C → B ⊎ C
      lift f (inl a) = inl (f a)
      lift f (inr c) = inr c

  floor-Reads :
      (i : EvaluateReadinessInputs) (denom : Text) (d : Draft) (floor : Option ℤ)
      → (elim floor [
        | none ↦ none
        | some least ↦ some (walk_rules big_int runs_short denom least i)
      ])
        ≡ some d
      → Reads denom i d
  floor-Reads i denom d none h = cc h
  floor-Reads i denom d (some least) h =
      subst (λ e. Reads denom i e)
        (some-injective (walk_rules big_int runs_short denom least i) d h)
        (walk_rules-Reads denom least i)

  pub evaluate_readiness-Reads :
      (i : EvaluateReadinessInputs) (denom : Text) (d : Draft)
      → gas_denom i.gas_price ≡ some denom
      → evaluate_readiness big_int runs_short i ≡ some d
      → ((d.status ≡ block)
          ↔ (IsMissing i.size i ⊎ (has_no_gas big_int runs_short denom i.wallet_balances ≡ true)))
        × ((d.status ≡ ok) ↔ (d.reasons ≡ []))
  unfolding evaluate_readiness
  evaluate_readiness-Reads i denom d priced h =
      floor-Reads i denom d (warn_floor big_int runs_short i.gas_warn_floor)
        (rw (evaluate_readiness, priced) at h)
