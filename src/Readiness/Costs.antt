-- ===== src/Readiness/Costs.antt =====
-- packages/agent-core/src/internals/recurring-costs.ts: the recurring cost of a deployment, one total for
-- each denomination.
use manifest_mcp_mono.Common.{
  ℕ, ◌+◌, ◌*◌, Bool, true, false, List, [], ◌∷◌, ◌&&◌, not, Option, none, some, Text, same_text,
  is_decimal, decimal, is_space, any, if◌then◌else◌, ltb,
}

pub record Coin : Type 0 where
  pub denom : Text
  pub amount : Text

-- A SKU's billing unit; an unknown one is `undefined` in the source.
pub data BillingUnit : Type 0 where
  hour day unknown : BillingUnit

-- `quantity` is a natural number that `Number.isSafeInteger` accepts, or none for any other number.
pub record LeaseItem : Type 0 where
  pub price : Option Coin
  pub billing_unit : BillingUnit
  pub quantity : Option ℕ

pub record Total : Type 0 where
  pub denom : Text
  pub amount : ℕ

pub record RecurringCosts : Type 0 where
  pub unit : BillingUnit
  pub totals : List Total
  pub unpriced_item_count : ℕ

abbrev pub is_day : BillingUnit → Bool
is_day day = true
is_day hour = false
is_day unknown = false

abbrev pub is_known : BillingUnit → Bool
is_known day = true
is_known hour = true
is_known unknown = false

-- `!denom.trim()`
unfoldable pub is_blank : Text → Bool
unfolding is_space
is_blank [] = true
is_blank (c ∷ s) = is_space c && is_blank s

-- The quantity and price of an item that can be priced.
unfoldable pub priced : LeaseItem → Option Total
unfolding is_decimal is_blank decimal
priced item = elim item.price [
  | none ↦ none
  | some price ↦ elim item.quantity [
    | none ↦ none
    | some quantity ↦
        if is_decimal price.amount
          && not (is_blank price.denom)
          && is_known item.billing_unit
          && ltb 0 quantity
        then some (record { denom = price.denom; amount = decimal price.amount * quantity })
        else none
  ]
]

unfoldable pub period : List LeaseItem → BillingUnit
period items = if any (λ i. is_day i.billing_unit) items then day else hour

-- An hourly price in a deployment that is billed by the day.
abbrev pub multiplier : BillingUnit → BillingUnit → ℕ
multiplier day hour = 24
multiplier _ _ = 1

-- `totals.set(denom, (totals.get(denom) ?? 0n) + amount)`: a new denomination goes to the end.
unfoldable pub add_total : Text → ℕ → List Total → List Total
add_total denom amount [] = record { denom = denom; amount = 0 + amount } ∷ []
add_total denom amount (t ∷ ts) =
    if same_text t.denom denom
    then record t { amount = t.amount + amount } ∷ ts
    else t ∷ add_total denom amount ts

-- One round of the loop, from the item's own cost.
unfoldable pub add_priced : Option Total → BillingUnit → RecurringCosts → RecurringCosts
unfolding add_total
add_priced none unit c = record c { unpriced_item_count = c.unpriced_item_count + 1 }
add_priced (some t) unit c = record c {
  totals = add_total t.denom (t.amount * multiplier c.unit unit) c.totals;
}

unfoldable pub add_item : LeaseItem → RecurringCosts → RecurringCosts
unfolding add_priced
add_item item c = add_priced (priced item) item.billing_unit c

unfoldable pub add_items : List LeaseItem → RecurringCosts → RecurringCosts
unfolding add_item
add_items [] c = c
add_items (item ∷ items) c = add_items items (add_item item c)

unfoldable pub summarize_recurring_costs : List LeaseItem → RecurringCosts
unfolding add_items period
summarize_recurring_costs items =
    add_items items (record { unit = period items; totals = []; unpriced_item_count = 0 })

abbrev pub hours_per_period : BillingUnit → ℕ
hours_per_period day = 24
hours_per_period _ = 1
