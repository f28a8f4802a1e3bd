-- ===== src/Readiness/Tests.antt =====
-- A deployment billed by the day with one hourly item, and an empty wallet.
use manifest_mcp_mono.Common.{
  ◌≡◌, ◌⊎◌, ◌↔◌, refl, Bool, true, false, List, [], ◌∷◌, Option, none, some, Text, codes, ℤ, pos,
  same_text, is_decimal, decimal,
}
use manifest_mcp_mono.Readiness.Costs.{
  BillingUnit, hour, day, unknown, LeaseItem, priced, summarize_recurring_costs,
}
use manifest_mcp_mono.Readiness.GasPrice.{gas_denom}
use manifest_mcp_mono.Readiness.Totals.{total_of, BilledBy, Sums, summarize-exact}
use manifest_mcp_mono.Readiness.Verdict.{IsUnavailable, HoldsGas, evaluate_readiness-status}
use manifest_mcp_mono.Readiness.{
  ok, warn, block, topup_wallet, request_faucet, pick_different_sku, not_in_list, no_gas,
  EvaluateReadinessInputs, Draft, evaluate_readiness, fund_credit, no_credit_account, short_runtime,
  unpriced,
}

abbrev read_int : Text → Option ℤ
read_int s = if_decimal (is_decimal s)
  where
    if_decimal : Bool → Option ℤ
    if_decimal true = some (pos (decimal s))
    if_decimal false = none

abbrev never_short : Text → Bool
never_short s = false

abbrev priced_at : BillingUnit → LeaseItem
priced_at unit = record {
  price = some (record { denom = codes "upwr"; amount = codes "5" });
  billing_unit = unit;
  quantity = some 2;
}

abbrev cart : List LeaseItem
cart = priced_at day ∷ priced_at hour ∷ priced_at unknown ∷ []

cart_total : total_of (codes "upwr") (summarize_recurring_costs cart).totals ≡ 250
unfolding summarize_recurring_costs priced same_text
cart_total = refl

summarize-exact_example :
    BilledBy (summarize_recurring_costs cart).unit cart
    × Sums
        (codes "upwr")
        (summarize_recurring_costs cart).unit
        cart
        (total_of (codes "upwr") (summarize_recurring_costs cart).totals)
        (summarize_recurring_costs cart).unpriced_item_count
summarize-exact_example = summarize-exact (codes "upwr") cart

abbrev penniless : EvaluateReadinessInputs
penniless = record {
  size = some (codes "large");
  wallet_balances = [];
  credits = none;
  lease_items = cart;
  available_sku_names = codes "small" ∷ [];
  sku_candidates = none;
  requested_provider_uuid = none;
  gas_price = codes "1upwr";
  gas_warn_floor = none;
}

abbrev verdict : Draft
verdict = record {
  status = block;
  reasons =
      not_in_list (codes "large") (codes "small" ∷ [])
      ∷ no_gas (codes "upwr")
      ∷ no_credit_account
      ∷ unpriced 1
      ∷ [];
  actions = pick_different_sku ∷ request_faucet ∷ topup_wallet ∷ fund_credit ∷ [];
}

abbrev funded : EvaluateReadinessInputs
funded = record penniless {
  size = none;
  wallet_balances = record { denom = codes "upwr"; amount = codes "60000" } ∷ [];
  lease_items = priced_at hour ∷ [];
  credits = some (record {
    available_balances = some (record { denom = codes "upwr"; amount = codes "35" } ∷ []);
    balances = none;
    current_balance = none;
    hours_remaining = none;
  });
}

-- 35 in credit at 10 an hour are 3.5 hours.
verdict_short :
    evaluate_readiness read_int never_short funded
    ≡ some (record {
      status = warn;
      reasons = short_runtime 35 35 10 (codes "upwr") ∷ [];
      actions = fund_credit ∷ [];
    })
unfolding evaluate_readiness priced same_text
verdict_short = refl

gas_price_read : gas_denom penniless.gas_price ≡ some (codes "upwr")
unfolding gas_denom
gas_price_read = refl

verdict_computed : evaluate_readiness read_int never_short penniless ≡ some verdict
unfolding evaluate_readiness priced same_text
verdict_computed = refl

evaluate_readiness-status_example :
    ((verdict.status ≡ block) ↔ (
      IsUnavailable penniless
      ⊎ (¬ HoldsGas read_int never_short (codes "upwr") penniless.wallet_balances)))
    × ((verdict.status ≡ ok) ↔ (verdict.reasons ≡ []))
evaluate_readiness-status_example =
    evaluate_readiness-status read_int never_short penniless (codes "upwr") verdict gas_price_read
      verdict_computed
