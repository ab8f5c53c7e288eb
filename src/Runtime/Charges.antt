-- ===== src/Runtime/Charges.antt =====
-- What an extrinsic is charged for, and how long it may be: `RuntimeBlockLength` and the configuration
-- of the pallet for transaction payments in runtime/src/configs/mod.rs. The types that turn lengths
-- and weights into fees are in frame-support: they are the parameter `Charging`.
pub mod Laws
pub mod Memory
mod Tests
use polkadot_confidential_of.Base.{ℕ, ◌*◌, List}
use polkadot_confidential_of.Runtime.{micro_unit}
use polkadot_confidential_of.Runtime.Fees.{Weights, Coefficient, polynomial}
use polkadot_confidential_of.Runtime.Limits.{Builder, DispatchClass, normal_dispatch_ratio}

pub record Charging (x : Weights) : Type 1 where
  pub BlockLength : Type 0
  pub max_with_normal_ratio : ℕ → x.Perbill → BlockLength
  pub max_length : BlockLength → DispatchClass → ℕ
  pub constant_multiplier : ℕ → ℕ → ℕ  -- `ConstantMultiplier::weight_to_fee`
  pub polynomial_fee : List (Coefficient x) → x.Weight → ℕ  -- `WeightToFee::weight_to_fee`

abbrev pub transaction_byte_fee : ℕ
transaction_byte_fee = 10 * micro_unit

module _ (x : Weights) (b : Builder x) (c : Charging x) where
  unfoldable pub runtime_block_length : c.BlockLength
  runtime_block_length = c.max_with_normal_ratio (5 * 1024 * 1024) (normal_dispatch_ratio x b)

  -- `LengthToFee` and `WeightToFee` of the configuration.
  unfoldable pub length_to_fee : ℕ → ℕ
  length_to_fee length = c.constant_multiplier transaction_byte_fee length

  unfoldable pub weight_to_fee : x.Weight → ℕ
  weight_to_fee weight = c.polynomial_fee (polynomial x) weight
