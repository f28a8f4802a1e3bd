-- ===== src/Gas/Tests.antt =====
-- The gas guards with numbers in tenths for the runtime's floats.
use manifest_mcp_mono.Common.{
  ℕ, ◌+◌, ◌*◌, ◌/◌, ◌≡◌, refl, Option, none, some, Text, codes, ℤ, pos, negsuc, pos_part,
  is_decimal, arith, leb, ◌==◌, if◌then◌else◌, Result, ok, err, decimal,
}
use manifest_mcp_mono.Gas.{
  int, StdFee, GasError, fee_and_multiplier, explicit_exceeds, simulated_exceeds, bad_ceiling,
  Runtime, Config, TxOptions, TxExtras, std, resolve_broadcast_gas_options, resolve_tx_fee_and_memo,
  assert_explicit_fee_within_ceiling,
}
use manifest_mcp_mono.Gas.Ceiling.{IsWithin, signed_fee-IsWithin}

abbrev fee_150000 : StdFee
fee_150000 = record { amount = codes "1"; gas = some (codes "150000") }

-- A fee calculator that knows one limit.
calculate : Option ℤ → Text → Option StdFee
calculate none price = none
calculate (some (negsuc n)) price = none
calculate (some (pos n)) price = if n == 150000 then some fee_150000 else none

calculate-gas :
    (limit : ℤ) (price : Text) (fee : StdFee)
    → calculate (some limit) price ≡ some fee
    → (t : Text) × (fee.gas ≡ some t) × (decimal t ≡ pos_part limit)
unfolding calculate decimal
calculate-gas (negsuc n) price fee h = cc h
calculate-gas (pos n) price fee h = (codes "150000", ground (arith, h), ground (arith, h))

abbrev tenths : Runtime
tenths = record {
  Float = ℕ;
  default_gas_multiplier = 15;
  is_finite_from_one = leb 10;
  ceil_product = λ g m. some (pos ((g * m + 99) / 100));
  calculate_fee = calculate;
  calculate_fee-gas = calculate-gas;
}

abbrev config : Config ℕ
config = record { gas_price = some (codes "1umfx"); gas_multiplier = none; max_gas = none }

abbrev options : TxOptions ℕ
options = record { multiplier = 15; price = codes "1umfx"; ceiling = some (int (pos 50000000)) }

abbrev plain : TxExtras
plain = record { fee = none; memo = some (codes "rent") }

simulate : Text → Result GasError ℕ
simulate memo = ok 1000000

simulate_huge : Text → Result GasError ℕ
simulate_huge memo = ok 1000000000000

options_computed : resolve_broadcast_gas_options tenths config none none ≡ ok (some options)
unfolding resolve_broadcast_gas_options
options_computed = refl

paid_computed :
    resolve_tx_fee_and_memo tenths simulate (some options) (codes "") plain
    ≡ ok (std fee_150000, codes "rent")
unfolding resolve_tx_fee_and_memo simulate calculate
paid_computed = refl

-- 10^11 simulated units at 1.5 are refused, and so is an explicit fee beyond the ceiling.
refusals :
    (resolve_tx_fee_and_memo tenths simulate_huge (some options) (codes "") plain
      ≡ err (simulated_exceeds (some (pos 150000000000)) 50000000))
    × (assert_explicit_fee_within_ceiling fee_150000 (some (int (pos 149999)))
        ≡ err (explicit_exceeds 150000 149999))
    × (assert_explicit_fee_within_ceiling fee_150000 (some (int (pos 0))) ≡ err bad_ceiling)
    × (assert_explicit_fee_within_ceiling fee_150000 (some (int (negsuc 0))) ≡ ok 150000)
    × (resolve_broadcast_gas_options tenths config (some fee_150000) (some 15)
        ≡ err fee_and_multiplier)
unfolding resolve_tx_fee_and_memo assert_explicit_fee_within_ceiling resolve_broadcast_gas_options
    simulate_huge calculate decimal is_decimal
refusals = (refl, refl, refl, refl, refl)

signed_fee-IsWithin_example : IsWithin fee_150000 50000000
signed_fee-IsWithin_example =
    signed_fee-IsWithin tenths config none plain (some options) simulate (codes "") (codes "rent")
      50000000 fee_150000 refl options_computed paid_computed
