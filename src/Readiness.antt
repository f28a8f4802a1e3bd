-- ===== src/Readiness.antt =====
-- packages/agent-core/src/internals/evaluate-readiness.ts and recurring-costs.ts: may a deployment go
-- ahead. A reason is a constructor with the values that its sentence shows; the wording, with the
-- denomination symbols, is left out. The runtime's `BigInt(s)` and the test that `Number(s)` is finite,
-- positive and below 24 are parameters.
pub mod GasPrice
pub mod Costs
pub mod Usable
pub mod Totals
pub mod Blocking
pub mod Verdict
pub mod Tests
use mathlib.Core.Option
use manifest_mcp_mono.Common.{
  ℕ, ◌+◌, ◌*◌, ◌/◌, Bool, true, false, List, [], ◌∷◌, ◌++◌, ◌&&◌, ◌||◌, not, Option, none, some,
  Text, codes, same_text, find, any, if◌then◌else◌, ltb, ◌==◌, ℤ, pos, negsuc, ltb_ℤ, is_zero,
  or_else, get_or_else, pos_part, is_none, map,
}
use GasPrice.{gas_denom}
use Costs.{
  Coin, BillingUnit, LeaseItem, Total, RecurringCosts, summarize_recurring_costs, hours_per_period,
}

pub data Status : Type 0 where
  ok warn block : Status

pub data ReadinessAction : Type 0 where
  pick_different_sku request_faucet topup_wallet fund_credit : ReadinessAction

pub data Reason : Type 0 where
  not_offered : (size : Text) (provider : Option Text) → Reason
  not_in_list : (size : Text) (available : List Text) → Reason
  no_gas : (denom : Text) → Reason
  low_gas : (amount floor : ℤ) (denom : Text) → Reason
  no_credit_account : Reason
  unfunded : (denom : Text) (held : List Text) → Reason
  short_runtime : (tenths credit amount : ℕ) (denom : Text) → Reason
  short_burn : (hours : Text) → Reason
  unpriced : (count : ℕ) → Reason

pub record SkuOffer : Type 0 where
  pub name : Text
  pub provider_uuid : Text

pub record Credits : Type 0 where
  pub available_balances : Option (List Coin)
  pub balances : Option (List Coin)
  pub current_balance : Option (List Coin)
  pub hours_remaining : Option Text

-- The inputs that decide; those that are only passed on or only worded are left out.
pub record EvaluateReadinessInputs : Type 0 where
  pub size : Option Text
  pub wallet_balances : List Coin
  pub credits : Option Credits
  pub lease_items : List LeaseItem
  pub available_sku_names : List Text
  pub sku_candidates : Option (List SkuOffer)
  pub requested_provider_uuid : Option Text
  pub gas_price : Text
  pub gas_warn_floor : Option ℤ

-- `status`, `reasons` and the set `actions`, in the order of insertion.
pub record Draft : Type 0 where
  pub status : Status
  pub reasons : List Reason
  pub actions : List ReadinessAction

pub same_action : ReadinessAction → ReadinessAction → Bool
same_action pick_different_sku pick_different_sku = true
same_action request_faucet request_faucet = true
same_action topup_wallet topup_wallet = true
same_action fund_credit fund_credit = true
same_action _ _ = false

-- `actions.add(a)`
pub add_action : ReadinessAction → List ReadinessAction → List ReadinessAction
unfolding same_action
add_action a actions = if any (same_action a) actions then actions else actions ++ a ∷ []

abbrev pub downgrade : Status → Status
downgrade ok = warn
downgrade warn = warn
downgrade block = block

abbrev pub warned : Reason → List ReadinessAction → Draft → Draft
warned r actions d = record {
  status = downgrade d.status;
  reasons = d.reasons ++ r ∷ [];
  actions = actions;
}

abbrev pub refused : Reason → List ReadinessAction → Draft → Draft
refused r actions d = record { status = block; reasons = d.reasons ++ r ∷ []; actions = actions }

-- Rule 1. The candidates decide where they are given, else the plain list of names.
abbrev pub offers : Text → Option Text → SkuOffer → Bool
offers size none c = same_text c.name size
offers size (some provider) c = same_text c.name size && same_text c.provider_uuid provider

abbrev pub available : Text → EvaluateReadinessInputs → Bool
available size i = elim i.sku_candidates [
  | some candidates ↦ any (offers size i.requested_provider_uuid) candidates
  | none ↦ any (same_text size) i.available_sku_names
]

abbrev pub unavailable_reason : Text → EvaluateReadinessInputs → Reason
unavailable_reason size i = elim i.sku_candidates [
  | some candidates ↦ not_offered size i.requested_provider_uuid
  | none ↦ not_in_list size i.available_sku_names
]

pub sku_gate : Option Text → EvaluateReadinessInputs → Draft → Draft
unfolding add_action
sku_gate none i d = d
sku_gate (some size) i d =
    if available size i
    then d
    else refused (unavailable_reason size i) (add_action pick_different_sku d.actions) d

pub sku_rule : EvaluateReadinessInputs → Draft → Draft
unfolding sku_gate
sku_rule i d = sku_gate i.size i d

module _ (big_int : Text → Option ℤ) (runs_short : Text → Bool) where
  -- `asBigInt`: what is no integer counts as 0.
  abbrev pub as_big_int : Text → ℤ
  as_big_int s = get_or_else (big_int s) (pos 0)

  abbrev pub coin_of : Text → List Coin → Option Coin
  coin_of denom = find (λ c. same_text c.denom denom)

  abbrev pub gas_amount : Text → List Coin → ℤ
  gas_amount denom balances = elim (coin_of denom balances) [
    | none ↦ pos 0
    | some c ↦ as_big_int c.amount
  ]

  abbrev pub is_empty : List Coin → Bool
  is_empty [] = true
  is_empty (c ∷ cs) = false

  abbrev pub has_no_gas : Text → List Coin → Bool
  has_no_gas denom balances = is_empty balances || is_zero (gas_amount denom balances)

  -- Rule 2.
  pub gas_rule : Text → ℤ → List Coin → Draft → Draft
  unfolding add_action
  gas_rule denom floor balances d =
      if has_no_gas denom balances
      then refused (no_gas denom) (add_action topup_wallet (add_action request_faucet d.actions)) d
      else if ltb_ℤ (gas_amount denom balances) floor
      then warned (low_gas (gas_amount denom balances) floor denom)
          (add_action topup_wallet d.actions) d
      else d

  -- The balances that count: available, else the older gross ones, else the estimator's.
  abbrev pub credit_balances : Credits → List Coin
  credit_balances c =
      get_or_else (or_else c.available_balances (or_else c.balances c.current_balance)) []

  -- Tenths of an hour that the credit lasts, rounded to the nearest.
  pub runtime_tenths : ℕ → ℕ → ℕ → ℕ
  runtime_tenths credit hours amount = (credit * hours * 10 + amount / 2) / amount

  abbrev pub hours_remaining_warn_floor : ℕ
  hours_remaining_warn_floor = 24

  -- The loop's round for a denomination with a cost, where the account holds it or not.
  pub credit_round : BillingUnit → List Coin → Total → Option Coin → Draft → Draft
  unfolding add_action runtime_tenths
  credit_round unit balances t none d =
      warned (unfunded t.denom (map (λ c. c.denom) balances)) (add_action fund_credit d.actions) d
  credit_round unit balances t (some entry) d =
      let credit = pos_part (as_big_int entry.amount) in
      let hours = hours_per_period unit in
      if ltb (credit * hours) (t.amount * hours_remaining_warn_floor)
      then warned (short_runtime (runtime_tenths credit hours t.amount) credit t.amount t.denom)
          (add_action fund_credit d.actions) d
      else d

  pub credit_rounds : BillingUnit → List Coin → List Total → Draft → Draft
  unfolding credit_round
  credit_rounds unit balances [] d = d
  credit_rounds unit balances (t ∷ ts) d =
      credit_rounds unit balances ts
        (if t.amount == 0 then d else credit_round unit balances t (coin_of t.denom balances) d)

  abbrev pub no_items : List LeaseItem → Bool
  no_items [] = true
  no_items (i ∷ is) = false

  pub burn_rule : List LeaseItem → Option Text → Draft → Draft
  unfolding add_action
  burn_rule items none d = d
  burn_rule items (some hours) d =
      if no_items items && runs_short hours
      then warned (short_burn hours) (add_action fund_credit d.actions) d
      else d

  -- Rule 3.
  pub credit_rule : List LeaseItem → RecurringCosts → Option Credits → Draft → Draft
  unfolding add_action credit_rounds burn_rule
  credit_rule items costs none d = warned no_credit_account (add_action fund_credit d.actions) d
  credit_rule items costs (some credits) d =
      burn_rule items credits.hours_remaining
        (credit_rounds costs.unit (credit_balances credits) costs.totals d)

  pub unpriced_rule : ℕ → Draft → Draft
  unpriced_rule count d = if ltb 0 count then warned (unpriced count) d.actions d else d

  -- A negative override is refused; every denomination's own floor is 50000. The source looks it up in
  -- a plain object, where a denomination named like a member of Object.prototype finds that instead.
  pub warn_floor : Option ℤ → Option ℤ
  warn_floor none = some (pos 50000)
  warn_floor (some floor) = if ltb_ℤ floor (pos 0) then none else some floor

  pub walk_rules : Text → ℤ → EvaluateReadinessInputs → Draft
  unfolding sku_rule gas_rule credit_rule unpriced_rule summarize_recurring_costs
  walk_rules denom floor i =
      let costs = summarize_recurring_costs i.lease_items in
      unpriced_rule costs.unpriced_item_count (
        credit_rule i.lease_items costs i.credits (
          gas_rule denom floor i.wallet_balances
            (sku_rule i (record { status = ok; reasons = []; actions = [] }))))

  -- None is the TypeError on a malformed gas price or floor.
  pub evaluate_readiness : EvaluateReadinessInputs → Option Draft
  unfolding walk_rules warn_floor gas_denom
  evaluate_readiness i = elim (gas_denom i.gas_price) [
    | none ↦ none
    | some denom ↦ elim (warn_floor i.gas_warn_floor) [
      | none ↦ none
      | some floor ↦ some (walk_rules denom floor i)
    ]
  ]
