-- ===== src/Readiness/Usable.antt =====
-- When recurring-costs.ts of agent-core can price an item, said without its tests.
use manifest_mcp_mono.Common.{
  ℕ, ◌*◌, ◌<◌, ◌≤◌, ◌≡◌, ◌≢◌, ◌⊎◌, inl, inr, refl, ap, sym, ◌∙◌, Bool, true, false, ◌&&◌, not, [],
  ◌∷◌, In, none, some, Text, all_digits, is_decimal, decimal, is_digit, is_space, Bool-cases,
  Option-cases, ltb, arith,
}
use mathlib.Core.Option.{some-injective}
use mathlib.Core.Path.{subst}
use manifest_mcp_mono.Readiness.Costs.{
  Coin, BillingUnit, hour, day, unknown, LeaseItem, Total, is_known, is_blank, priced,
}

-- One digit or more, and nothing else.
pub record IsDigits (s : Text) : Type 0 where
  pub some_digit : s ≢ []
  pub each : (c : ℕ) → In c s → (48 ≤ c) × (c ≤ 57)

-- A text with a character that is no white space.
pub record IsNamed (s : Text) : Type 0 where
  pub character : ℕ
  pub within : In character s
  pub visible : is_space character ≡ false

-- An item with this price and quantity that can be priced: digits for its amount, a denomination, a
-- quantity above 0, and a price by the hour or by the day.
pub record Usable (item : LeaseItem) (price : Coin) (quantity : ℕ) : Type 0 where
  pub price_is : item.price ≡ some price
  pub quantity_is : item.quantity ≡ some quantity
  pub positive : 0 < quantity
  pub digits : IsDigits price.amount
  pub named : IsNamed price.denom
  pub billed : (item.billing_unit ≡ hour) ⊎ (item.billing_unit ≡ day)

digit_range : (c : ℕ) → is_digit c ≡ true → (48 ≤ c) × (c ≤ 57)
digit_range c h = ground (arith, h)

range_digit : (c : ℕ) → (48 ≤ c) × (c ≤ 57) → is_digit c ≡ true
range_digit c h = ground (arith, h)

all_digits-each : (s : Text) (c : ℕ) → all_digits s ≡ true → In c s → (48 ≤ c) × (c ≤ 57)
unfolding all_digits
all_digits-each [] c h m = elim m [ ]
all_digits-each (d ∷ s) c h (inl e) =
    subst (λ x. (48 ≤ x) × (x ≤ 57)) (sym e) (digit_range d (ground (arith, h)))
all_digits-each (d ∷ s) c h (inr m) = all_digits-each s c (ground (arith, h)) m

each_all_digits : (s : Text) → ((c : ℕ) → In c s → (48 ≤ c) × (c ≤ 57)) → all_digits s ≡ true
unfolding all_digits
each_all_digits [] h = refl
each_all_digits (d ∷ s) h =
    rw (range_digit d (h d (inl refl)), each_all_digits s (λ c m. h c (inr m))) refl

is_decimal-IsDigits : (s : Text) → is_decimal s ≡ true → IsDigits s
unfolding is_decimal
is_decimal-IsDigits [] h = cc h
is_decimal-IsDigits (c ∷ s) h = record {
  some_digit = λ e. cc e;
  each = λ d m. all_digits-each (c ∷ s) d h m;
}

IsDigits-is_decimal : (s : Text) → IsDigits s → is_decimal s ≡ true
unfolding is_decimal
IsDigits-is_decimal [] v = absurd (v.some_digit refl)
IsDigits-is_decimal (c ∷ s) v = each_all_digits (c ∷ s) v.each

is_blank-IsNamed : (s : Text) → is_blank s ≡ false → IsNamed s
unfolding is_blank
is_blank-IsNamed [] h = cc h
is_blank-IsNamed (c ∷ s) h = elim (Bool-cases (is_space c)) [
  | inr ink ↦ record { character = c; within = inl refl; visible = ink }
  | inl space ↦
      let v = is_blank-IsNamed s (rw space at h) in
      record { character = v.character; within = inr v.within; visible = v.visible }
]

IsNamed-is_blank : (s : Text) (c : ℕ) → In c s → is_space c ≡ false → is_blank s ≡ false
unfolding is_blank
IsNamed-is_blank [] c m h = elim m [ ]
IsNamed-is_blank (d ∷ s) c (inl e) h = rw (ap is_space (sym e) ∙ h) refl
IsNamed-is_blank (d ∷ s) c (inr m) h = ground (arith, IsNamed-is_blank s c m h)

is_known_cases : (u : BillingUnit) → is_known u ≡ true → (u ≡ hour) ⊎ (u ≡ day)
is_known_cases hour h = inl refl
is_known_cases day h = inr refl
is_known_cases unknown h = cc h

cases_is_known : (u : BillingUnit) → (u ≡ hour) ⊎ (u ≡ day) → is_known u ≡ true
cases_is_known u (inl e) = rw e refl
cases_is_known u (inr e) = rw e refl

-- The price that the code finds is that of a usable item.
pub record PricedAs (item : LeaseItem) (t : Total) : Type 0 where
  pub price : Coin
  pub quantity : ℕ
  pub usable : Usable item price quantity
  pub denom_is : t.denom ≡ price.denom
  pub amount_is : t.amount ≡ decimal price.amount * quantity

-- The tests on the price and the quantity of an item, in one.
is_usable : LeaseItem → Coin → ℕ → Bool
is_usable item price quantity =
    is_decimal price.amount
    && not (is_blank price.denom)
    && is_known item.billing_unit
    && ltb 0 quantity

is_usable-Usable :
    (item : LeaseItem) (price : Coin) (quantity : ℕ)
    → item.price ≡ some price
    → item.quantity ≡ some quantity
    → is_usable item price quantity ≡ true
    → Usable item price quantity
unfolding is_usable
is_usable-Usable item price quantity p q h = record {
  price_is = p;
  quantity_is = q;
  positive = ground (arith, h);
  digits = is_decimal-IsDigits price.amount (ground (arith, h));
  named = is_blank-IsNamed price.denom (ground (arith, h));
  billed = is_known_cases item.billing_unit (ground (arith, h));
}

Usable-is_usable :
    (item : LeaseItem) (price : Coin) (quantity : ℕ)
    → Usable item price quantity
    → is_usable item price quantity ≡ true
unfolding is_usable
Usable-is_usable item price quantity v =
    let digits = IsDigits-is_decimal price.amount v.digits in
    let named = IsNamed-is_blank price.denom v.named.character v.named.within v.named.visible in
    let known = cases_is_known item.billing_unit v.billed in
    let above : ltb 0 quantity ≡ true = ground (arith, v.positive) in
    rw (digits, named, known, above) refl

abbrev total_for : Coin → ℕ → Total
total_for price quantity = record { denom = price.denom; amount = decimal price.amount * quantity }

priced_usable :
    (item : LeaseItem) (price : Coin) (quantity : ℕ)
    → item.price ≡ some price
    → item.quantity ≡ some quantity
    → is_usable item price quantity ≡ true
    → priced item ≡ some (total_for price quantity)
unfolding priced is_usable
priced_usable item price quantity p q h = rw (p, q, h) refl

priced_unusable :
    (item : LeaseItem) (price : Coin) (quantity : ℕ)
    → item.price ≡ some price
    → item.quantity ≡ some quantity
    → is_usable item price quantity ≡ false
    → priced item ≡ none
unfolding priced is_usable
priced_unusable item price quantity p q h = rw (p, q, h) refl

priced_priceless : (item : LeaseItem) → item.price ≡ none → priced item ≡ none
unfolding priced
priced_priceless item p = rw p refl

priced_uncounted :
    (item : LeaseItem) (price : Coin)
    → item.price ≡ some price
    → item.quantity ≡ none
    → priced item ≡ none
unfolding priced
priced_uncounted item price p q = rw (p, q) refl

pub priced-PricedAs : (item : LeaseItem) (t : Total) → priced item ≡ some t → PricedAs item t
priced-PricedAs item t h = elim (Option-cases item.price) [
  | inl priceless ↦ cc (priced_priceless item priceless, h)
  | inr (price, p) ↦ elim (Option-cases item.quantity) [
    | inl uncounted ↦ cc (priced_uncounted item price p uncounted, h)
    | inr (quantity, q) ↦ elim (Bool-cases (is_usable item price quantity)) [
      | inr useless ↦ cc (priced_unusable item price quantity p q useless, h)
      | inl usable ↦
          let same =
            some-injective (total_for price quantity) t
              (sym (priced_usable item price quantity p q usable) ∙ h) in
          record {
            price = price;
            quantity = quantity;
            usable = is_usable-Usable item price quantity p q usable;
            denom_is = ap (λ u. u.denom) (sym same);
            amount_is = ap (λ u. u.amount) (sym same);
          }
    ]
  ]
]

pub priced-none :
    (item : LeaseItem) (price : Coin) (quantity : ℕ)
    → priced item ≡ none
    → ¬ Usable item price quantity
priced-none item price quantity h v = cc (
  h,
  priced_usable item price quantity v.price_is v.quantity_is
      (Usable-is_usable item price quantity v),
)
