-- ===== src/Gas.antt =====
-- packages/core/src/transactions/utils.ts: which gas limit and fee a transaction is signed with. The
-- runtime's floating-point numbers and CosmJS's `calculateFee` are the parameter; what the client's
-- `simulate` answers to a memo is an argument.
pub mod Ceiling
pub mod Signing
pub mod Tests
use manifest_mcp_mono.Common.{
  ℕ, suc, ◌≡◌, Bool, true, false, ◌&&◌, ◌||◌, not, List, [], ◌∷◌, Option, none, some, Text, ltb,
  leb, length, ℤ, pos, negsuc, pos_part, get_or_else, is_some, if◌then◌else◌, is_decimal, decimal,
  Result, ok, err, ◌>>=◌,
}

-- `Number.MAX_SAFE_INTEGER`
abbrev pub max_safe_integer : ℕ
max_safe_integer = 9007199254740991

abbrev pub default_max_gas : ℕ
default_max_gas = 50000000

abbrev pub max_memo_length : ℕ
max_memo_length = 256

-- A number given for a ceiling: an integer, or any other.
pub data Number : Type 0 where
  int : ℤ → Number
  no_integer : Number

-- `gas` is none where the fee is no object or its `gas` no text.
pub record StdFee : Type 0 where
  pub amount : Text
  pub gas : Option Text

-- The errors, with the numbers in their details. The code is GAS_LIMIT_EXCEEDED for the two that
-- exceed the ceiling, TX_FAILED for the memo and INVALID_CONFIG for the others thrown here.
pub data GasError : Type 0 where
  bad_ceiling bad_fee_gas fee_and_multiplier bad_multiplier needs_gas_price : GasError
  explicit_exceeds : (gas ceiling : ℕ) → GasError
  simulated_exceeds : (estimate : Option ℤ) (ceiling : ℕ) → GasError
  memo_too_long : (len : ℕ) → GasError
  simulate_fails : (e : Text) → GasError
  no_fee : GasError

-- What is not under the repository. `ceil_product g m` is `Math.ceil(g * m)`, none where it is not
-- finite; `calculate_fee` is none where it throws. Its fee states the limit that it was given.
pub record Runtime : Type 1 where
  pub Float : Type 0
  pub default_gas_multiplier : Float
  pub is_finite_from_one : Float → Bool
  pub ceil_product : Float → Float → Option ℤ
  pub calculate_fee : Option ℤ → Text → Option StdFee
  pub calculate_fee-gas :
      (limit : ℤ) (price : Text) (fee : StdFee)
      → calculate_fee (some limit) price ≡ some fee
      → (t : Text) × (fee.gas ≡ some t) × (decimal t ≡ pos_part limit)

-- `ManifestMCPConfig`, `TxOptions` and the caller's own overrides, in what they say on gas.
pub record Config (F : Type 0) : Type 0 where
  pub gas_price : Option Text
  pub gas_multiplier : Option F
  pub max_gas : Option Number

pub record TxOptions (F : Type 0) : Type 0 where
  pub multiplier : F
  pub price : Text
  pub ceiling : Option Number

pub record TxExtras : Type 0 where
  pub fee : Option StdFee
  pub memo : Option Text

pub data Fee : Type 0 where
  auto : Fee
  std : StdFee → Fee

-- `undefined` and -1 switch the ceiling off; whatever is no positive safe integer is refused.
pub resolve_gas_ceiling : Option Number → Result GasError (Option ℕ)
resolve_gas_ceiling none = ok none
resolve_gas_ceiling (some no_integer) = err bad_ceiling
resolve_gas_ceiling (some (int (negsuc n))) = if leb n 0 then ok none else err bad_ceiling
resolve_gas_ceiling (some (int (pos n))) =
    if leb n max_safe_integer && ltb 0 n then ok (some n) else err bad_ceiling

-- `/^[0-9]+$/`, then a positive safe integer.
pub parse_explicit_fee_gas : Option Text → Result GasError ℕ
parse_explicit_fee_gas none = err bad_fee_gas
parse_explicit_fee_gas (some t) =
    if is_decimal t && leb (decimal t) max_safe_integer && ltb 0 (decimal t)
    then ok (decimal t)
    else err bad_fee_gas

pub within : ℕ → Option ℕ → Result GasError ℕ
within gas none = ok gas
within gas (some ceiling) = if ltb ceiling gas then err (explicit_exceeds gas ceiling) else ok gas

pub assert_explicit_fee_within_ceiling : StdFee → Option Number → Result GasError ℕ
unfolding resolve_gas_ceiling parse_explicit_fee_gas within
assert_explicit_fee_within_ceiling fee max_gas = resolve_gas_ceiling max_gas >>= λ ceiling.
    parse_explicit_fee_gas fee.gas >>= λ gas. within gas ceiling

pub validate_memo : Text → Result GasError Text
validate_memo memo =
    if ltb max_memo_length (length memo) then err (memo_too_long (length memo)) else ok memo

-- `config.maxGas ?? DEFAULT_MAX_GAS`
abbrev pub config_ceiling : Option Number → Option Number
config_ceiling max_gas = some (get_or_else max_gas (int (pos default_max_gas)))

-- A price is missing where it is `undefined` or empty.
abbrev pub is_missing : Option Text → Bool
is_missing none = true
is_missing (some []) = true
is_missing (some (c ∷ s)) = false

module _ (runtime : Runtime) where
  open runtime use {Float, default_gas_multiplier, is_finite_from_one, ceil_product, calculate_fee}

  abbrev pub bad_override : Option Float → Bool
  bad_override none = false
  bad_override (some m) = not (is_finite_from_one m)

  pub simulated_options :
      Config Float → Option Text → Option Float → Result GasError (Option (TxOptions Float))
  simulated_options config none multiplier =
      if is_some multiplier then err needs_gas_price else ok none
  simulated_options config (some []) multiplier =
      if is_some multiplier then err needs_gas_price else ok none
  simulated_options config (some (c ∷ s)) multiplier = ok (
      some (record {
        multiplier =
            get_or_else multiplier (get_or_else config.gas_multiplier default_gas_multiplier);
        price = c ∷ s;
        ceiling = config_ceiling config.max_gas;
      }))

  -- None is `undefined`: the client's own `auto`, or an explicit fee.
  pub resolve_broadcast_gas_options :
      Config Float → Option StdFee → Option Float → Result GasError (Option (TxOptions Float))
  unfolding simulated_options assert_explicit_fee_within_ceiling
  resolve_broadcast_gas_options config (some fee) (some multiplier) = err fee_and_multiplier
  resolve_broadcast_gas_options config (some fee) none =
      assert_explicit_fee_within_ceiling fee (config_ceiling config.max_gas) >>= λ _. ok none
  resolve_broadcast_gas_options config none multiplier =
      if bad_override multiplier
      then err bad_multiplier
      else simulated_options config config.gas_price multiplier

  -- The last test of `buildGasFee`: the limit is finite and no larger than the ceiling.
  pub clamp : Option ℕ → Option ℤ → Result GasError (Option ℤ)
  clamp none limit = ok limit
  clamp (some ceiling) none = err (simulated_exceeds none ceiling)
  clamp (some ceiling) (some limit) =
      if ltb ceiling (pos_part limit)
      then err (simulated_exceeds (some limit) ceiling)
      else ok (some limit)

  abbrev pub fee_or_throw : Option StdFee → Result GasError Fee
  fee_or_throw none = err no_fee
  fee_or_throw (some fee) = ok (std fee)

  pub build_gas_fee :
      (Text → Result GasError Float) → Option (TxOptions Float) → Text → Result GasError Fee
  unfolding resolve_gas_ceiling clamp
  build_gas_fee simulate none memo = ok auto
  build_gas_fee simulate (some o) memo = resolve_gas_ceiling o.ceiling >>= λ ceiling.
      simulate memo >>= λ estimate. clamp ceiling (ceil_product estimate o.multiplier) >>= λ limit.
      fee_or_throw (calculate_fee limit o.price)

  pub fee_for :
      (Text → Result GasError Float)
      → Option StdFee
      → Option (TxOptions Float)
      → Text
      → Result GasError Fee
  unfolding build_gas_fee
  fee_for simulate (some fee) options memo = ok (std fee)
  fee_for simulate none options memo = build_gas_fee simulate options memo

  -- The fee and the memo that the transaction is signed with.
  pub resolve_tx_fee_and_memo :
      (Text → Result GasError Float)
      → Option (TxOptions Float)
      → Text
      → TxExtras
      → Result GasError (Fee × Text)
  unfolding fee_for validate_memo
  resolve_tx_fee_and_memo simulate options built_memo extras =
      validate_memo (get_or_else extras.memo built_memo) >>= λ memo.
      fee_for simulate extras.fee options memo >>= λ fee. ok (fee, memo)
