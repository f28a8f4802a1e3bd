-- ===== src/Gas/Ceiling.antt =====
-- The ceiling holds on every path that ends in a fee.
use mathlib.Core.Path.{Path, subst}
use manifest_mcp_mono.Common.{
  ℕ, ◌≤◌, ◌≡◌, refl, ap, sym, ◌∙◌, [], ◌∷◌, Option, none, some, Text, ℤ, pos, pos_part, arith,
  Result, ok, >>=-ok, decimal, get_or_else,
}
use manifest_mcp_mono.Gas.{
  Number, int, StdFee, GasError, Runtime, Config, TxOptions, TxExtras, Fee, std,
  resolve_gas_ceiling, parse_explicit_fee_gas, within, assert_explicit_fee_within_ceiling,
  validate_memo, config_ceiling, simulated_options, resolve_broadcast_gas_options, clamp,
  fee_or_throw, build_gas_fee, fee_for, resolve_tx_fee_and_memo,
}

-- The gas limit that a fee states, at most `limit`.
abbrev pub IsWithin : StdFee → ℕ → Type 0
IsWithin fee limit = (t : Text) × (fee.gas ≡ some t) × (decimal t ≤ limit)

resolve_gas_ceiling_pos :
    (n : ℕ) (c : Option ℕ) → resolve_gas_ceiling (some (int (pos n))) ≡ ok c → c ≡ some n
unfolding resolve_gas_ceiling
resolve_gas_ceiling_pos n c h = ground (arith, h)

within-le : (gas n m : ℕ) → within gas (some n) ≡ ok m → gas ≤ n
unfolding within
within-le gas n m h = ground (arith, h)

parse_explicit_fee_gas-decimal :
    (g : Option Text) (n : ℕ)
    → parse_explicit_fee_gas g ≡ ok n
    → (t : Text) × (g ≡ some t) × (decimal t ≡ n)
unfolding parse_explicit_fee_gas
parse_explicit_fee_gas-decimal none n h = cc h
parse_explicit_fee_gas-decimal (some t) n h = (t, refl, ground (arith, h))

assert_explicit_fee-IsWithin :
    (fee : StdFee) (limit gas : ℕ)
    → assert_explicit_fee_within_ceiling fee (some (int (pos limit))) ≡ ok gas
    → IsWithin fee limit
unfolding assert_explicit_fee_within_ceiling
assert_explicit_fee-IsWithin fee limit gas h =
    let (c, ceiling, h1) = >>=-ok _ _ gas h in
    let (n, read, h2) = >>=-ok (parse_explicit_fee_gas fee.gas) _ gas h1 in
    let (t, given, is_n) = parse_explicit_fee_gas-decimal fee.gas n read in
    let e = resolve_gas_ceiling_pos limit c ceiling in
    let le = within-le n limit gas (rw e at h2) in (t, given, omega (arith, is_n, le))

module _ (runtime : Runtime) where
  open runtime use {Float, calculate_fee, calculate_fee-gas}

  simulated_options-ceiling :
      (config : Config Float) (price : Option Text) (m : Option Float) (o : TxOptions Float)
      → simulated_options runtime config price m ≡ ok (some o)
      → o.ceiling ≡ config_ceiling config.max_gas
  unfolding simulated_options
  simulated_options-ceiling config none m o h = ground (arith, h)
  simulated_options-ceiling config (some []) m o h = ground (arith, h)
  simulated_options-ceiling config (some (c ∷ s)) m o h = sym (ap ceiling_of h)
    where
      ceiling_of : Result GasError (Option (TxOptions Float)) → Option Number
      ceiling_of (ok (some p)) = p.ceiling
      ceiling_of _ = o.ceiling

  clamp-le :
      (n : ℕ) (limit kept : Option ℤ)
      → clamp runtime (some n) limit ≡ ok kept
      → (z : ℤ) × (kept ≡ some z) × (pos_part z ≤ n)
  unfolding clamp
  clamp-le n none kept h = cc h
  clamp-le n (some z) kept h = (z, ground (arith, h), ground (arith, h))

  fee_or_throw-std :
      (limit : Option ℤ) (price : Text) (fee : StdFee)
      → fee_or_throw runtime (calculate_fee limit price) ≡ ok (std fee)
      → calculate_fee limit price ≡ some fee
  fee_or_throw-std limit price fee = of_fee (calculate_fee limit price)
    where
      of_fee : (f : Option StdFee) → fee_or_throw runtime f ≡ ok (std fee) → f ≡ some fee
      of_fee none h = cc h
      of_fee (some f) h = cc h

  build_gas_fee-IsWithin :
      (simulate : Text → Result GasError Float) (o : TxOptions Float) (memo : Text) (fee : StdFee)
      (limit : ℕ)
      → o.ceiling ≡ some (int (pos limit))
      → build_gas_fee runtime simulate (some o) memo ≡ ok (std fee)
      → IsWithin fee limit
  unfolding build_gas_fee
  build_gas_fee-IsWithin simulate o memo fee limit set h =
      let (c, ceiling, h1) = >>=-ok (resolve_gas_ceiling o.ceiling) _ (std fee) h in
      let (estimate, _, h2) = >>=-ok (simulate memo) _ (std fee) h1 in
      let (kept, clamped, h3) = >>=-ok (clamp runtime c _) _ (std fee) h2 in
      let e = resolve_gas_ceiling_pos limit c (rw set at ceiling) in
      let (z, is_z, le) = clamp-le limit _ kept (rw e at clamped) in
      let made = fee_or_throw-std kept o.price fee h3 in
      let (t, given, same) = calculate_fee-gas z o.price fee (rw is_z at made) in
      (t, given, omega (arith, same, le))

  fee_of-IsWithin :
      (config : Config Float) (fee : Option StdFee) (m : Option Float)
      (options : Option (TxOptions Float)) (simulate : Text → Result GasError Float) (memo : Text)
      (limit : ℕ) (signed : StdFee)
      → config_ceiling config.max_gas ≡ some (int (pos limit))
      → resolve_broadcast_gas_options runtime config fee m ≡ ok options
      → fee_for runtime simulate fee options memo ≡ ok (std signed)
      → IsWithin signed limit
  unfolding resolve_broadcast_gas_options fee_for build_gas_fee
  fee_of-IsWithin config (some fee) (some m) options simulate memo limit signed set h k = cc h
  fee_of-IsWithin config (some fee) none options simulate memo limit signed set h k =
      let (gas, passed, _) =
        >>=-ok (assert_explicit_fee_within_ceiling fee (config_ceiling config.max_gas)) _ options
          h in
      let within_limit = assert_explicit_fee-IsWithin fee limit gas (rw set at passed) in
      subst (λ f. IsWithin f limit) {x = fee} {y = signed} (cc k) within_limit
  fee_of-IsWithin config none m none simulate memo limit signed set h k = cc k
  fee_of-IsWithin config none m (some o) simulate memo limit signed set h k =
      build_gas_fee-IsWithin simulate o memo signed limit
        (simulated_options-ceiling config config.gas_price m o (ground (arith, h)) ∙ set) k

  -- Whatever the caller overrides and the client simulates: if the options of a broadcast resolve and
  -- then its fee and memo do, a fee that is not left to the client states a gas limit of at most the
  -- configured ceiling, which is 50000000 where the configuration has none.
  pub signed_fee-IsWithin :
      (config : Config Float) (m : Option Float) (extras : TxExtras)
      (options : Option (TxOptions Float)) (simulate : Text → Result GasError Float)
      (built_memo memo : Text) (limit : ℕ) (signed : StdFee)
      → config_ceiling config.max_gas ≡ some (int (pos limit))
      → resolve_broadcast_gas_options runtime config extras.fee m ≡ ok options
      → resolve_tx_fee_and_memo runtime simulate options built_memo extras ≡ ok (std signed, memo)
      → IsWithin signed limit
  unfolding resolve_tx_fee_and_memo
  signed_fee-IsWithin config m extras options simulate built_memo memo limit signed set h k =
      let (used, _, k1) =
        >>=-ok (validate_memo (get_or_else extras.memo built_memo)) _ (std signed, memo) k in
      let (fee, paid, same) =
        >>=-ok (fee_for runtime simulate extras.fee options used) _ (std signed, memo) k1 in
      fee_of-IsWithin config extras.fee m options simulate used limit signed set h
        (rw (fee_is fee used same) at paid)
    where
      fee_is :
          (fee : Fee) (used : Text)
          → Path (Result GasError (Fee × Text)) (ok (fee, used)) (ok (std signed, memo))
          → fee ≡ std signed
      fee_is fee used same = cc same
