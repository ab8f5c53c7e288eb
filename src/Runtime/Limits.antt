-- ===== src/Runtime/Limits.antt =====
-- runtime/src/configs/mod.rs and the ratios of runtime/src/lib.rs: the limits on the weight of a
-- block and of the messages in it. The builder of frame-system and the arithmetic of `Perbill` are
-- not in this repository: they are the parameter `Builder`.
pub mod Laws
pub mod Memory
mod Tests
use polkadot_confidential_of.Base.{ℕ, Option, some, List, [], ◌∷◌, Ended}
use polkadot_confidential_of.Runtime.Fees.{
  Weights, saturating_mul, block_execution_weight, extrinsic_base_weight,
}

-- frame-support's `DispatchClass`
pub data DispatchClass : Type 0 where
  normal operational mandatory : DispatchClass

-- `DispatchClass::all()`
abbrev pub all_classes : List DispatchClass
all_classes = normal ∷ operational ∷ mandatory ∷ []

-- frame-system's `WeightsPerClass`, as far as the code sets it.
pub record ClassWeights (Weight : Type 0) : Type 0 where
  pub base_extrinsic : Weight
  pub max_total : Option Weight
  pub reserved : Option Weight

-- `of ratio w` is `ratio * w`; `sub` is the `-` and `div` the `saturating_div` of weights.
pub record Builder (x : Weights) : Type 1 where
  pub from_percent : ℕ → x.Perbill
  pub of : x.Perbill → x.Weight → x.Weight
  pub sub : x.Weight → x.Weight → x.Weight
  pub div : x.Weight → ℕ → x.Weight
  pub per_second : ℕ  -- WEIGHT_REF_TIME_PER_SECOND
  pub max_pov_size : ℕ
  pub Limits : Type 0
  pub builder : Limits
  pub base_block : x.Weight → Limits → Limits
  pub for_class :
      List DispatchClass → (ClassWeights x.Weight → ClassWeights x.Weight) → Limits → Limits
  pub avg_block_initialization : x.Perbill → Limits → Limits
  pub BlockWeights : Type 0
  pub build_or_panic : Limits → Ended ⊥ BlockWeights
  pub max_block : BlockWeights → x.Weight

module _ (x : Weights) (b : Builder x) where
  open x use {Weight, Perbill, from_parts}
  open b use {from_percent, of, sub, div, builder, base_block, for_class, avg_block_initialization}

  abbrev pub average_on_initialize_ratio : Perbill
  average_on_initialize_ratio = from_percent 5

  abbrev pub normal_dispatch_ratio : Perbill
  normal_dispatch_ratio = from_percent 75

  unfoldable pub maximum_block_weight : Weight
  maximum_block_weight = from_parts (saturating_mul b.per_second 2) b.max_pov_size

  abbrev pub normal_limit : Weight
  normal_limit = of normal_dispatch_ratio maximum_block_weight

  -- `RuntimeBlockWeights`, before it is built.
  unfoldable pub block_limits : b.Limits
  block_limits = avg_block_initialization average_on_initialize_ratio (
      for_class (operational ∷ [])
        (λ weights. record weights {
          max_total = some maximum_block_weight;
          reserved = some (sub maximum_block_weight normal_limit);
        })
        (for_class (normal ∷ []) (λ weights. record weights { max_total = some normal_limit })
          (for_class all_classes
            (λ weights. record weights { base_extrinsic = extrinsic_base_weight x })
            (base_block (block_execution_weight x) builder))))

  abbrev pub runtime_block_weights : Ended ⊥ b.BlockWeights
  runtime_block_weights = b.build_or_panic block_limits

  unfoldable pub reserved_xcmp_weight : Weight
  reserved_xcmp_weight = div maximum_block_weight 4

  unfoldable pub reserved_dmp_weight : Weight
  reserved_dmp_weight = div maximum_block_weight 4

  -- `MessageQueueServiceWeight`, for the weights that were built.
  unfoldable pub message_queue_service_weight : b.BlockWeights → Weight
  message_queue_service_weight weights = of (from_percent 35) (b.max_block weights)
