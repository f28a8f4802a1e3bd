-- ===== src/Gas/Signing.antt =====
-- What a transaction is signed with is what was asked for.
use mathlib.Core.Path.{Path}
use manifest_mcp_mono.Common.{
  ◌≤◌, ◌≡◌, ◌≢◌, refl, ap, sym, ◌∙◌, true, [], ◌∷◌, Option, none, some, Text, arith, Result, ok,
  >>=-ok, get_or_else, length,
}
use manifest_mcp_mono.Gas.{
  StdFee, GasError, Runtime, Config, TxOptions, TxExtras, Fee, auto, std, resolve_gas_ceiling,
  validate_memo, is_missing, simulated_options, resolve_broadcast_gas_options, clamp, fee_or_throw,
  build_gas_fee, fee_for, resolve_tx_fee_and_memo, max_memo_length,
}

validate_memo_lem :
    (memo m : Text) → validate_memo memo ≡ ok m → (m ≡ memo) × (length m ≤ max_memo_length)
unfolding validate_memo
validate_memo_lem memo m h = ground (arith, h)

module _ (runtime : Runtime) where
  open runtime use {Float, calculate_fee}

  unpriced_lem :
      (config : Config Float) (m : Option Float)
      → resolve_broadcast_gas_options runtime config none m ≡ ok none
      → (is_missing config.gas_price ≡ true) × (m ≡ none)
  unfolding resolve_broadcast_gas_options simulated_options
  unpriced_lem config m h = by_price config.gas_price m (ground (arith, h))
    where
      by_price :
          (price : Option Text) (m : Option Float)
          → simulated_options runtime config price m ≡ ok none
          → (is_missing price ≡ true) × (m ≡ none)
      by_price none none h = (refl, refl)
      by_price none (some f) h = cc h
      by_price (some []) none h = (refl, refl)
      by_price (some []) (some f) h = cc h
      by_price (some (c ∷ s)) m h = cc h

  never_auto :
      (simulate : Text → Result GasError Float) (o : TxOptions Float) (memo : Text)
      → build_gas_fee runtime simulate (some o) memo ≢ ok auto
  unfolding build_gas_fee
  never_auto simulate o memo h =
      let (c, _, h1) = >>=-ok (resolve_gas_ceiling o.ceiling) _ auto h in
      let (estimate, _, h2) = >>=-ok (simulate memo) _ auto h1 in
      let (kept, _, h3) = >>=-ok (clamp runtime c _) _ auto h2 in
      stated (calculate_fee kept o.price) h3
    where
      stated : (f : Option StdFee) → fee_or_throw runtime f ≢ ok auto
      stated none h = cc h
      stated (some f) h = cc h

  fee_for_lem :
      (config : Config Float) (m : Option Float) (asked : Option StdFee)
      (options : Option (TxOptions Float)) (simulate : Text → Result GasError Float) (memo : Text)
      (fee : Fee)
      → resolve_broadcast_gas_options runtime config asked m ≡ ok options
      → fee_for runtime simulate asked options memo ≡ ok fee
      → ((f : StdFee) → asked ≡ some f → fee ≡ std f)
        × (fee ≡ auto → (is_missing config.gas_price ≡ true) × (m ≡ none))
  unfolding fee_for
  fee_for_lem config m (some given) options simulate memo fee h k =
      (λ f same. cc (k, same), λ is_auto. cc (k, is_auto))
  fee_for_lem config m none none simulate memo fee h k =
      (λ f same. cc same, λ _. unpriced_lem config m h)
  fee_for_lem config m none (some o) simulate memo fee h k =
      (λ f same. cc same, λ is_auto. absurd (never_auto simulate o memo (k ∙ ap ok is_auto)))

  -- The memo that a transaction is signed with is the caller's, or else the route's, and has at most
  -- 256 units; an explicit fee is signed as it is; and a fee is left to the client only where the
  -- configuration has no gas price and the caller no multiplier.
  pub signed_as_asked :
      (config : Config Float) (m : Option Float) (extras : TxExtras)
      (options : Option (TxOptions Float)) (simulate : Text → Result GasError Float)
      (built_memo memo : Text) (fee : Fee)
      → resolve_broadcast_gas_options runtime config extras.fee m ≡ ok options
      → resolve_tx_fee_and_memo runtime simulate options built_memo extras ≡ ok (fee, memo)
      → (memo ≡ get_or_else extras.memo built_memo)
        × (length memo ≤ max_memo_length)
        × ((f : StdFee) → extras.fee ≡ some f → fee ≡ std f)
        × (fee ≡ auto → (is_missing config.gas_price ≡ true) × (m ≡ none))
  unfolding resolve_tx_fee_and_memo
  signed_as_asked config m extras options simulate built_memo memo fee h k =
      let (used, valid, k1) =
        >>=-ok (validate_memo (get_or_else extras.memo built_memo)) _ (fee, memo) k in
      let (paid, priced, same) =
        >>=-ok (fee_for runtime simulate extras.fee options used) _ (fee, memo) k1 in
      let (is_built, short) = validate_memo_lem (get_or_else extras.memo built_memo) used valid in
      let same_fee = fee_of paid used same in
      let same_memo = memo_of paid used same in
      let (wins, left) =
        fee_for_lem config m extras.fee options simulate used fee h (rw same_fee at priced) in
      (sym same_memo ∙ is_built, rw same_memo at short, wins, left)
    where
      fee_of :
          (paid : Fee) (used : Text)
          → Path (Result GasError (Fee × Text)) (ok (paid, used)) (ok (fee, memo))
          → paid ≡ fee
      fee_of paid used same = cc same

      memo_of :
          (paid : Fee) (used : Text)
          → Path (Result GasError (Fee × Text)) (ok (paid, used)) (ok (fee, memo))
          → used ≡ memo
      memo_of paid used same = cc same
