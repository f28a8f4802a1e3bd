-- ===== src/Common/Results.antt =====
-- The outcome of code that throws: a value, or what was thrown.
use mathlib.Core.Path.{◌≡◌, refl}

pub data Result {ℓ κ} (E : Type ℓ) (A : Type κ) : Type (ℓ ⊔ κ) where
  ok : A → Result E A
  err : E → Result E A

infixl 5 ◌>>=◌
abbrev pub ◌>>=◌ {ℓ κ ℓ'} :
    {E : Type ℓ} {A : Type κ} {B : Type ℓ'} → Result E A → (A → Result E B) → Result E B
ok a >>= f = f a
err e >>= f = err e

infixl 5 ◌>>◌
abbrev pub ◌>>◌ {ℓ κ} : {E : Type ℓ} {B : Type κ} → Result E (Unit {0}) → Result E B → Result E B
m >> next = m >>= λ _. next

-- A chain that ends well went well at each step.
pub >>=-ok {ℓ κ ℓ'} :
    {E : Type ℓ} {A : Type κ} {B : Type ℓ'} (m : Result E A) (f : A → Result E B) (b : B)
    → m >>= f ≡ ok b
    → (a : A) × (m ≡ ok a) × (f a ≡ ok b)
>>=-ok (ok a) f b h = (a, refl, h)
>>=-ok (err e) f b h = cc h

pub ok-injective {ℓ κ} :
    {E : Type ℓ} {A : Type κ} (x y : A) (r : Result E A) → r ≡ ok x → r ≡ ok y → x ≡ y
ok-injective x y r h k = cc (h, k)

pub err-injective {ℓ κ} :
    {E : Type ℓ} {A : Type κ} (d e : E) (r : Result E A) → r ≡ err d → r ≡ err e → d ≡ e
err-injective d e r h k = cc (h, k)
