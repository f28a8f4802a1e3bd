-- ===== src/Readiness/Totals.antt =====
-- The totals of a deployment are the exact sums of its priced items.
use manifest_mcp_mono.Common.{
  ℕ, suc, ◌+◌, ◌*◌, ◌≡◌, ◌≢◌, ◌⊎◌, ◌↔◌, inl, inr, refl, true, false, List, [], ◌∷◌, In, any, Option,
  none, some, Text, same_text, same_text_iff, decimal, Bool-cases, Option-cases, if◌then◌else◌,
  arith, ap, sym, ◌∙◌,
}
use manifest_mcp_mono.Readiness.Costs.{
  Coin, BillingUnit, hour, day, unknown, is_day, LeaseItem, Total, RecurringCosts, priced, period,
  multiplier, add_total, add_priced, add_item, add_items, summarize_recurring_costs,
}
use manifest_mcp_mono.Readiness.Usable.{Usable, PricedAs, priced-PricedAs, priced-none}
use mathlib.Core.Path.{subst}

-- What the map of totals holds for a denomination; 0 where it has no entry.
abbrev pub total_of : Text → List Total → ℕ
total_of d [] = 0
total_of d (t ∷ ts) = if same_text t.denom d then t.amount else total_of d ts

-- The cost of one item in a denomination, in the deployment's billing unit; 0 if it has no price.
abbrev pub cost_of : Text → BillingUnit → BillingUnit → Option Total → ℕ
cost_of d unit own none = 0
cost_of d unit own (some t) = if same_text t.denom d then t.amount * multiplier unit own else 0

abbrev pub is_unpriced : Option Total → ℕ
is_unpriced none = 1
is_unpriced (some t) = 0

pub sum_in : Text → BillingUnit → List LeaseItem → ℕ
sum_in d unit [] = 0
sum_in d unit (item ∷ items) = cost_of d unit item.billing_unit (priced item) + sum_in d unit items

pub unpriced_in : List LeaseItem → ℕ
unpriced_in [] = 0
unpriced_in (item ∷ items) = is_unpriced (priced item) + unpriced_in items

total_of-add_total :
    (d e : Text) (n : ℕ) (ts : List Total)
    → total_of d (add_total e n ts) ≡ total_of d ts + (if same_text e d then n else 0)
unfolding add_total
total_of-add_total d e n [] = ground arith
total_of-add_total d e n (t ∷ ts) = ground (
  arith,
  total_of-add_total d e n ts,
  same_text_iff t.denom e,
  same_text_iff t.denom d,
  same_text_iff e d,
)

add_priced_lem :
    (d : Text) (p : Option Total) (own : BillingUnit) (c : RecurringCosts)
    → (total_of d (add_priced p own c).totals ≡ total_of d c.totals + cost_of d c.unit own p)
      × ((add_priced p own c).unpriced_item_count ≡ c.unpriced_item_count + is_unpriced p)
      × ((add_priced p own c).unit ≡ c.unit)
unfolding add_priced
add_priced_lem d none own c = (omega arith, omega arith, refl)
add_priced_lem d (some t) own c =
    (total_of-add_total d t.denom (t.amount * multiplier c.unit own) c.totals, omega arith, refl)

add_items_lem :
    (d : Text) (items : List LeaseItem) (c : RecurringCosts)
    → (total_of d (add_items items c).totals ≡ total_of d c.totals + sum_in d c.unit items)
      × ((add_items items c).unpriced_item_count ≡ c.unpriced_item_count + unpriced_in items)
      × ((add_items items c).unit ≡ c.unit)
unfolding add_items add_item sum_in unpriced_in
add_items_lem d [] c = (omega arith, omega arith, refl)
add_items_lem d (item ∷ items) c =
    let (one, count, unit) = add_priced_lem d (priced item) item.billing_unit c in
    let (all, counts, units) =
      add_items_lem d items (add_priced (priced item) item.billing_unit c) in
    (omega (arith, ap (λ u. sum_in d u items) unit), omega arith, units ∙ unit)

summarize_sums :
    (d : Text) (items : List LeaseItem)
    → (total_of d (summarize_recurring_costs items).totals ≡ sum_in d (period items) items)
      × ((summarize_recurring_costs items).unpriced_item_count ≡ unpriced_in items)
      × ((summarize_recurring_costs items).unit ≡ period items)
unfolding summarize_recurring_costs
summarize_sums d items =
    let (a, b, c) =
      add_items_lem d items
        (record { unit = period items; totals = []; unpriced_item_count = 0 }) in
    (omega arith, omega arith, c)

-- How often a price counts in a deployment that is billed by `unit`: 24 times where the deployment is
-- billed by the day and the price is by the hour, else once.
abbrev pub Counts : (unit own : BillingUnit) → ℕ → Type 0
Counts unit own n =
    ((unit ≡ day) × (own ≡ hour) × (n ≡ 24)) ⊎ (((unit ≡ hour) ⊎ (own ≡ day)) × (n ≡ 1))

-- The sum of the costs of the items in one denomination, and the number of the items without a usable
-- price, when the deployment is billed by `unit`.
pub data Sums (d : Text) (unit : BillingUnit) : List LeaseItem → ℕ → ℕ → Type 0 where
  no_item : Sums d unit [] 0 0
  counted :
      {item : LeaseItem} {items : List LeaseItem} {price : Coin} {quantity times sum count : ℕ}
      → Usable item price quantity
      → price.denom ≡ d
      → Counts unit item.billing_unit times
      → Sums d unit items sum count
      → Sums d unit (item ∷ items) (decimal price.amount * quantity * times + sum) count
  elsewhere :
      {item : LeaseItem} {items : List LeaseItem} {price : Coin} {quantity sum count : ℕ}
      → Usable item price quantity
      → price.denom ≢ d
      → Sums d unit items sum count
      → Sums d unit (item ∷ items) sum count
  unusable :
      {item : LeaseItem} {items : List LeaseItem} {sum count : ℕ}
      → ((price : Coin) (quantity : ℕ) → ¬ Usable item price quantity)
      → Sums d unit items sum count
      → Sums d unit (item ∷ items) sum (suc count)

multiplier-Counts :
    (unit own : BillingUnit)
    → (unit ≡ hour) ⊎ (unit ≡ day)
    → (own ≡ hour) ⊎ (own ≡ day)
    → Counts unit own (multiplier unit own)
multiplier-Counts unit own (inl u) (inl o) = rw (u, o) (inr (inl refl, refl))
multiplier-Counts unit own (inl u) (inr o) = rw (u, o) (inr (inl refl, refl))
multiplier-Counts unit own (inr u) (inl o) = rw (u, o) (inl (refl, refl, refl))
multiplier-Counts unit own (inr u) (inr o) = rw (u, o) (inr (inr refl, refl))

zero_add : (n : ℕ) → n ≡ 0 + n
zero_add n = omega arith

one_add : (n : ℕ) → suc n ≡ 1 + n
one_add n = omega arith

module _ {d : Text} {unit : BillingUnit} {items : List LeaseItem} {sum count : ℕ} where
  found-Sums :
      (item : LeaseItem) (t : Total)
      → (unit ≡ hour) ⊎ (unit ≡ day)
      → PricedAs item t
      → Sums d unit items sum count
      → Sums d unit (item ∷ items) (cost_of d unit item.billing_unit (some t) + sum) count
  found-Sums item t known p rest = elim (Bool-cases (same_text t.denom d)) [
    | inl here ↦
        let cost : decimal p.price.amount * p.quantity * multiplier unit item.billing_unit
            ≡ cost_of d unit item.billing_unit (some t) =
          rw (here, p.amount_is) refl in
        let named = sym p.denom_is ∙ (same_text_iff t.denom d).0 here in
        let times = multiplier-Counts unit item.billing_unit known p.usable.billed in
        subst (λ n. Sums d unit (item ∷ items) (n + sum) count) cost
          (counted p.usable named times rest)
    | inr away ↦
        let other : p.price.denom ≢ d =
          λ e. cc (away, (same_text_iff t.denom d).1 (p.denom_is ∙ e)) in
        rw away (
          subst (λ n. Sums d unit (item ∷ items) n count) (zero_add sum)
            (elsewhere p.usable other rest))
  ]

  item-Sums :
      (item : LeaseItem)
      → (unit ≡ hour) ⊎ (unit ≡ day)
      → Sums d unit items sum count
      → Sums d unit
          (item ∷ items)
          (cost_of d unit item.billing_unit (priced item) + sum)
          (is_unpriced (priced item) + count)
  item-Sums item known rest = elim (Option-cases (priced item)) [
    | inl gone ↦ rw gone (
        subst (λ n. Sums d unit (item ∷ items) n (1 + count)) (zero_add sum)
          (subst (Sums d unit (item ∷ items) sum) (one_add count)
            (unusable (λ price quantity. priced-none item price quantity gone) rest)))
    | inr (t, found) ↦ rw found (
        subst (Sums d unit (item ∷ items) (cost_of d unit item.billing_unit (some t) + sum))
          (zero_add count) (found-Sums item t known (priced-PricedAs item t found) rest))
  ]

sum_in-Sums :
    (d : Text) (unit : BillingUnit) (items : List LeaseItem)
    → (unit ≡ hour) ⊎ (unit ≡ day)
    → Sums d unit items (sum_in d unit items) (unpriced_in items)
unfolding sum_in unpriced_in
sum_in-Sums d unit [] known = no_item
sum_in-Sums d unit (item ∷ items) known = item-Sums item known (sum_in-Sums d unit items known)

-- What a deployment is billed by: the day where an item has a price by the day, else the hour.
abbrev pub BilledBy : BillingUnit → List LeaseItem → Type 0
BilledBy unit items =
    ((unit ≡ day) × ((i : LeaseItem) × In i items × (i.billing_unit ≡ day)))
    ⊎ ((unit ≡ hour) × ((i : LeaseItem) → In i items → i.billing_unit ≢ day))

is_day_iff : (u : BillingUnit) → (is_day u ≡ true) ↔ (u ≡ day)
is_day_iff day = (λ h. refl, λ h. refl)
is_day_iff hour = (λ h. cc h, λ h. cc h)
is_day_iff unknown = (λ h. cc h, λ h. cc h)

any_day :
    (items : List LeaseItem)
    → any (λ i. is_day i.billing_unit) items ≡ true
    → (i : LeaseItem) × In i items × (i.billing_unit ≡ day)
any_day [] h = cc h
any_day (i ∷ items) h = elim (Bool-cases (is_day i.billing_unit)) [
  | inl daily ↦ (i, inl refl, (is_day_iff i.billing_unit).0 daily)
  | inr other ↦ let (j, m, daily) = any_day items (rw other at h) in (j, inr m, daily)
]

no_day :
    (items : List LeaseItem) (i : LeaseItem)
    → any (λ i. is_day i.billing_unit) items ≡ false
    → In i items
    → i.billing_unit ≢ day
no_day [] i h m q = elim m [ ]
no_day (j ∷ items) i h (inl e) q =
    let daily = (is_day_iff j.billing_unit).1 (ap (λ k. k.billing_unit) (sym e) ∙ q) in
    ground (arith, daily, h)
no_day (j ∷ items) i h (inr m) q = no_day items i (ground (arith, h)) m q

period-BilledBy : (items : List LeaseItem) → BilledBy (period items) items
unfolding period
period-BilledBy items = elim (Bool-cases (any (λ i. is_day i.billing_unit) items)) [
  | inl daily ↦ rw daily (inl (refl, any_day items daily))
  | inr hourly ↦ rw hourly (inr (refl, λ i m. no_day items i hourly m))
]

billed_known :
    (unit : BillingUnit) (items : List LeaseItem)
    → BilledBy unit items
    → (unit ≡ hour) ⊎ (unit ≡ day)
billed_known unit items (inl (daily, _)) = inr daily
billed_known unit items (inr (hourly, _)) = inl hourly

-- A deployment is billed by the day exactly where an item has a price by the day, else by the hour.
-- The total of every denomination is the exact sum of price times quantity over the items with a usable
-- price in it, an hourly price counted 24 times in a deployment billed by the day, and the items left
-- out are exactly those without a usable price.
pub summarize-exact :
    (d : Text) (items : List LeaseItem)
    → BilledBy (summarize_recurring_costs items).unit items
      × Sums d
          (summarize_recurring_costs items).unit
          items
          (total_of d (summarize_recurring_costs items).totals)
          (summarize_recurring_costs items).unpriced_item_count
summarize-exact d items =
    let (total, count, unit) = summarize_sums d items in
    let billed = period-BilledBy items in
    let sums = sum_in-Sums d (period items) items (billed_known (period items) items billed) in
    rw (total, count, unit) (billed, sums)
