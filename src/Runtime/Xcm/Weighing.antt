-- ===== src/Runtime/Xcm/Weighing.antt =====
-- The `Weigher` of runtime/src/configs/xcm_config.rs with its constants, beside the
-- weight that the queue for messages may spend. `FixedWeightBounds` is in staging-xcm-builder, which is not in this repository: it
-- is the parameter `Bounds`.
use polkadot_confidential_of.Base.{
  ℕ, ◌+◌, ◌*◌, ◌≤◌, ◌<◌, ◌≡◌, ◌⊎◌, ◌↔◌, ap, inl, inr, Option, none, some, arith, returned,
}
use native.Mathlib.Decide.{dec_le}
use polkadot_confidential_of.Runtime.Fees.{Weights, WeightLaws, u64_max, saturating_mul}
use polkadot_confidential_of.Runtime.Limits.{
  Builder, block_limits, maximum_block_weight, message_queue_service_weight,
}
use polkadot_confidential_of.Runtime.Limits.Laws.{BuilderLaws, max_block-eq}

within-or_more : (n limit : ℕ) → (n ≤ limit) ⊎ (limit < n)
within-or_more n limit = elim (dec_le n limit) [ yes h ↦ inl h | no h ↦ inr (omega arith) ]

module _ (x : Weights) where
  open x use {Weight, from_parts, ref_time, proof_size}

  unfoldable pub unit_weight_cost : Weight
  unit_weight_cost = from_parts 1000000000 (64 * 1024)

  abbrev pub max_instructions : ℕ
  max_instructions = 100

  -- The weight of a message, for the weight of an instruction and the limit on their number.
  pub record Bounds : Type 1 where
    pub Message : Type 0
    pub fixed_weight_bounds : Weight → ℕ → Message → Option Weight

  unfoldable pub weigher : (b : Bounds) → b.Message → Option Weight
  weigher b = b.fixed_weight_bounds unit_weight_cost max_instructions

  -- The documented weight of a message: one unit for each instruction, those of nested messages
  -- included, and what the calls in it ask for; there is none with too many instructions, or where
  -- the sum overflows.
  pub record BoundsLaws (b : Bounds) : Type 0 where
    pub count : b.Message → ℕ
    pub called : b.Message → Weight
    pub weighed :
        (u : Weight) (n : ℕ) (m : b.Message)
        → count m ≤ n
        → count m * ref_time u + ref_time (called m) ≤ u64_max
        → count m * proof_size u + proof_size (called m) ≤ u64_max
        → (v : Weight) × (b.fixed_weight_bounds u n m ≡ some v)
          × (ref_time v ≡ count m * ref_time u + ref_time (called m))
          × (proof_size v ≡ count m * proof_size u + proof_size (called m))
    pub too_many :
        (u : Weight) (n : ℕ) (m : b.Message) → n < count m → b.fixed_weight_bounds u n m ≡ none

  abbrev pub FitsIn : Weight → Weight → Type 0
  FitsIn v w = (ref_time v ≤ ref_time w) × (proof_size v ≤ proof_size w)

  module _ (laws : WeightLaws x) (b : Builder x) (limits : BuilderLaws x b) (bounds : Bounds)
      (weighs : BoundsLaws bounds) where
    open weighs use {count, called}

    -- `MessageQueueServiceWeight` is seven tenths of a second and 1.75 mebibytes of proof.
    queue_lem :
        b.per_second ≡ 1000000000000
        → b.max_pov_size ≡ 5 * 1024 * 1024
        → (w : b.BlockWeights) → b.build_or_panic (block_limits x b) ≡ returned w
        → (ref_time (message_queue_service_weight x b w) ≡ 700000000000)
          × (proof_size (message_queue_service_weight x b w) ≡ 1835008)
    unfolding maximum_block_weight message_queue_service_weight
    queue_lem second pov w built =
        let (same, same') = max_block-eq x b limits w built in
        let time = laws.ref_from_parts (saturating_mul b.per_second 2) b.max_pov_size in
        let proof = laws.proof_from_parts (saturating_mul b.per_second 2) b.max_pov_size in
        let of_queue = limits.ref_of 35 (b.max_block w) (omega arith) in
        let of_queue' = limits.proof_of 35 (b.max_block w) (omega arith) in
        (omega arith, omega arith)

    -- With a second of 10^12 units and a proof limit of five mebibytes, a message whose calls
    -- ask for no weight is not weighed if it has more than 100 instructions; else it is, and the
    -- time and the proof of its weight are both within MessageQueueServiceWeight exactly if
    -- there are at most 28.
    pub weigher_lem :
        b.per_second ≡ 1000000000000
        → b.max_pov_size ≡ 5 * 1024 * 1024
        → (w : b.BlockWeights) → b.build_or_panic (block_limits x b) ≡ returned w
        → (m : bounds.Message) → ref_time (called m) ≡ 0
        → proof_size (called m) ≡ 0
        → ((max_instructions < count m) × (weigher bounds m ≡ none))
          ⊎ ((count m ≤ max_instructions)
              × ((v : Weight) × (weigher bounds m ≡ some v)
                  × (FitsIn v (message_queue_service_weight x b w) ↔ (count m ≤ 28))))
    unfolding weigher unit_weight_cost
    weigher_lem second pov w built m no_time no_proof =
        let queue = queue_lem second pov w built in
        let time = ap (λ n. count m * n) (laws.ref_from_parts 1000000000 (64 * 1024)) in
        let proof = ap (λ n. count m * n) (laws.proof_from_parts 1000000000 (64 * 1024)) in
        elim (within-or_more (count m) max_instructions) [
          | inr more ↦ inl (more, weighs.too_many _ _ m more)
          | inl fits ↦
              let (v, weighed, v_time, v_proof) =
                weighs.weighed unit_weight_cost max_instructions m fits (omega arith)
                  (omega arith) in
              let fits_queue : FitsIn v (message_queue_service_weight x b w) ↔ (count m ≤ 28) =
                (λ h. let (a, c) = h in omega arith, λ few. (omega arith, omega arith)) in
              inr (fits, (v, weighed, fits_queue))
        ]
