-- ===== src/Retry.antt =====
-- packages/core/src/retry.ts and internals/error-chain.ts: the values that a retry decision looks at.
-- Errors are objects on a heap, which is a list, and refer to one another by `cause`; an address
-- outside of the list is a value that is no `Error`. A property whose getter throws reads `throws`.
-- Text is the list of its UTF-16 units. Numeric statuses are natural numbers.
pub mod Message
pub mod Chain
pub mod Verdict
pub mod Loop
pub mod Permanence
pub mod Attempts
pub mod Tests
use manifest_mcp_mono.Common.{ℕ, ◌≡◌, refl, ◌⊎◌, inl, inr, Bool, List, Option, Text}

-- The result of looking at an error: a value, or an exception of a getter.
pub data Inspect {ℓ} (A : Type ℓ) : Type ℓ where
  value : A → Inspect A
  throws : Inspect A

infixl 5 ◌>>=◌
abbrev pub ◌>>=◌ {ℓ κ} : {A : Type ℓ} {B : Type κ} → Inspect A → (A → Inspect B) → Inspect B
value a >>= f = f a
throws >>= f = throws

pub Inspect-cases {ℓ} : {A : Type ℓ} (m : Inspect A) → (m ≡ throws) ⊎ ((a : A) × (m ≡ value a))
Inspect-cases throws = inl refl
Inspect-cases (value a) = inr (a, refl)

-- The entries of `details` that the policy reads; `partial` and `was_sent` are the tests `=== true`.
pub record Details : Type 0 where
  pub operation : Text
  pub outcome : Text
  pub has_idempotency_key : Bool
  pub http_status : Option ℕ
  pub grpc_code : Option ℕ
  pub transport_code : Text
  pub partial : Bool
  pub was_sent : Bool

-- The lexical verdict that a boundary keeps for a message which it redacts.
pub record MessageVerdict : Type 0 where
  pub display_message : Text
  pub permanent : Bool
  pub transient : Bool

-- An `Error`. `inspection_failed` and `redacted` are its entries in the module's WeakSet and WeakMap;
-- `is_manifest` is `instanceof ManifestMCPError`; a `code` that is no string reads as the empty text.
pub record ErrorObject : Type 0 where
  pub is_manifest : Bool
  pub inspection_failed : Bool
  pub redacted : Option MessageVerdict
  pub name : Inspect Text
  pub error_code : Inspect Text
  pub message : Inspect Text
  pub details : Inspect (Option Details)
  pub cause : Inspect ℕ

abbrev pub Heap : Type 0
Heap = List ErrorObject
