-- ===== src/Runtime/Charges/Tests.antt =====
-- The longest and heaviest normal extrinsic.
use polkadot_confidential_of.Base.{ℕ, ◌+◌, ◌*◌, ◌≤◌, ◌≡◌, refl, arith}
use polkadot_confidential_of.Runtime.{unit, micro_unit}
use polkadot_confidential_of.Runtime.Fees.{extrinsic_base_weight}
use polkadot_confidential_of.Runtime.Fees.Memory.{pair_weights, pair_weights-WeightLaws}
use polkadot_confidential_of.Runtime.Limits.{normal, normal_limit}
use polkadot_confidential_of.Runtime.Limits.Memory.{pair_builder, pair_builder-BuilderLaws}
use polkadot_confidential_of.Runtime.Charges.{length_to_fee, weight_to_fee, runtime_block_length}
use polkadot_confidential_of.Runtime.Charges.Laws.{IsBillionths, fees_lem}
use polkadot_confidential_of.Runtime.Charges.Memory.{plain_charging, plain_charging-ChargingLaws}

abbrev by_length : ℕ → ℕ
by_length = length_to_fee pair_weights pair_builder plain_charging

abbrev by_weight : ℕ × ℕ → ℕ
by_weight = weight_to_fee pair_weights pair_builder plain_charging

abbrev heaviest : ℕ × ℕ
heaviest = normal_limit pair_weights pair_builder

fits : 3932160 ≤ runtime_block_length pair_weights pair_builder plain_charging normal
unfolding runtime_block_length
fits = omega arith

fees_lem_example :
    (by_length 3932160 ≡ 10 * micro_unit * 3932160)
    × IsBillionths 8000000 heaviest.0 (by_weight heaviest)
    × (by_weight (extrinsic_base_weight pair_weights) ≡ micro_unit)
    × (by_weight heaviest ≤ by_length 1200)
    × (by_length 3932160 + by_weight heaviest ≤ 40 * unit)
fees_lem_example =
    fees_lem pair_weights pair_builder plain_charging pair_weights-WeightLaws
      pair_builder-BuilderLaws plain_charging-ChargingLaws refl refl 3932160 fits heaviest
      (omega arith)
