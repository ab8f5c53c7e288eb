-- ===== src/Runtime/Limits/Laws.antt =====
-- What the limits of a block add up to.
use polkadot_confidential_of.Base.{
  ℕ, ◌+◌, ◌-◌, ◌*◌, ◌/◌, ◌≤◌, ◌≡◌, Bool, true, false, Option, none, some, List, [], ◌∷◌, arith,
  if◌then◌else◌, returned,
}
use polkadot_confidential_of.Runtime.Fees.{Weights, extrinsic_base_weight}
use polkadot_confidential_of.Runtime.Limits.{
  DispatchClass, normal, operational, mandatory, ClassWeights, Builder, maximum_block_weight,
  normal_limit, block_limits, reserved_xcmp_weight, reserved_dmp_weight,
  message_queue_service_weight,
}

abbrev pub same_class : DispatchClass → DispatchClass → Bool
same_class normal normal = true
same_class normal operational = false
same_class normal mandatory = false
same_class operational normal = false
same_class operational operational = true
same_class operational mandatory = false
same_class mandatory normal = false
same_class mandatory operational = false
same_class mandatory mandatory = true

abbrev pub among : DispatchClass → List DispatchClass → Bool
among k [] = false
among k (j ∷ js) = if same_class k j then true else among k js

module _ (x : Weights) (b : Builder x) where
  open x use {Weight, ref_time, proof_size}
  open b use {Limits}

  -- `m` is `p` per cent of `n`, rounded to a nearest number.
  abbrev pub IsPercent : ℕ → ℕ → ℕ → Type 0
  IsPercent p n m = (100 * m ≤ p * n + 50) × (p * n ≤ 100 * m + 50)

  -- A limit that is no more than `m`.
  abbrev pub Within : Weight → Option Weight → Type 0
  Within m none = Unit
  Within m (some v) = (ref_time v ≤ ref_time m) × (proof_size v ≤ proof_size m)

  -- What frame-system and sp-arithmetic document, for ratios of at most 100 per cent.
  pub record BuilderLaws : Type 0 where
    pub class : Limits → DispatchClass → ClassWeights Weight
    pub class_for :
        (ks : List DispatchClass) (f : ClassWeights Weight → ClassWeights Weight) (l : Limits)
        (k : DispatchClass)
        → class (b.for_class ks f l) k ≡ (if among k ks then f (class l k) else class l k)
    pub class_base :
        (w : Weight) (l : Limits) (k : DispatchClass) → class (b.base_block w l) k ≡ class l k
    pub class_avg :
        (r : x.Perbill) (l : Limits) (k : DispatchClass)
        → class (b.avg_block_initialization r l) k ≡ class l k
    -- Mandatory calls have no limit from the start.
    pub class_mandatory : (class b.builder mandatory).max_total ≡ none
    -- The built weights have the largest limit of a class.
    pub max_built :
        (l : Limits) (w : b.BlockWeights) (m : Weight)
        → b.build_or_panic l ≡ returned w
        → (class l operational).max_total ≡ some m
        → Within m (class l normal).max_total
        → Within m (class l mandatory).max_total
        → (ref_time (b.max_block w) ≡ ref_time m) × (proof_size (b.max_block w) ≡ proof_size m)
    pub ref_of :
        (p : ℕ) (w : Weight)
        → p ≤ 100
        → IsPercent p (ref_time w) (ref_time (b.of (b.from_percent p) w))
    pub proof_of :
        (p : ℕ) (w : Weight)
        → p ≤ 100
        → IsPercent p (proof_size w) (proof_size (b.of (b.from_percent p) w))
    pub ref_sub : (v w : Weight) → ref_time (b.sub v w) ≡ ref_time v - ref_time w
    pub proof_sub : (v w : Weight) → proof_size (b.sub v w) ≡ proof_size v - proof_size w
    pub ref_div : (w : Weight) → ref_time (b.div w 4) ≡ ref_time w / 4
    pub proof_div : (w : Weight) → proof_size (b.div w 4) ≡ proof_size w / 4

  module _ (laws : BuilderLaws) where
    open laws use {class}

    -- The limits of each class, as they were set.
    pub record Divided (l : Limits) : Type 0 where
      pub base : (k : DispatchClass) → (class l k).base_extrinsic ≡ extrinsic_base_weight x
      pub normal_total : (class l normal).max_total ≡ some (normal_limit x b)
      pub operational_total : (class l operational).max_total ≡ some (maximum_block_weight x b)
      pub mandatory_total : (class l mandatory).max_total ≡ none
      pub operational_reserved :
          (class l operational).reserved
          ≡ some (b.sub (maximum_block_weight x b) (normal_limit x b))

    base-Divided :
        (k : DispatchClass) → (class (block_limits x b) k).base_extrinsic ≡ extrinsic_base_weight x
    unfolding block_limits
    base-Divided normal = simp (laws.class_avg, laws.class_for)
    base-Divided operational = simp (laws.class_avg, laws.class_for)
    base-Divided mandatory = simp (laws.class_avg, laws.class_for)

    block_limits-Divided : Divided (block_limits x b)
    unfolding block_limits
    block_limits-Divided = record {
      base = base-Divided;
      normal_total = simp (laws.class_avg, laws.class_for);
      operational_total = simp (laws.class_avg, laws.class_for);
      mandatory_total =
          simp (laws.class_avg, laws.class_for, laws.class_base, laws.class_mandatory);
      operational_reserved = simp (laws.class_avg, laws.class_for);
    }

    pub max_block-eq :
        (w : b.BlockWeights)
        → b.build_or_panic (block_limits x b) ≡ returned w
        → (ref_time (b.max_block w) ≡ ref_time (maximum_block_weight x b))
          × (proof_size (b.max_block w) ≡ proof_size (maximum_block_weight x b))
    max_block-eq w built =
        let m = maximum_block_weight x b in
        let d = block_limits-Divided in
        let within : Within m (class (block_limits x b) normal).max_total =
          let of_time = laws.ref_of 75 m (omega arith) in
          let of_proof = laws.proof_of 75 m (omega arith) in
          rw d.normal_total (omega arith, omega arith) in
        let unlimited : Within m (class (block_limits x b) mandatory).max_total =
          rw d.mandatory_total tt in
        laws.max_built (block_limits x b) w m built d.operational_total within unlimited

    -- Every class has the base weight of an extrinsic, mandatory calls have no limit, normal
    -- ones have three quarters of a block, to the nearest unit, and together with the reserve of
    -- the operational ones they make up the block; in block weights that were built, the weights
    -- for messages from the relay chain, from siblings and in the queue fit a block together.
    -- Each holds of time and of proof size.
    pub block_weights_lem :
        (w : b.BlockWeights)
        → b.build_or_panic (block_limits x b) ≡ returned w
        → let m = maximum_block_weight x b in
          let reserved = b.sub m (normal_limit x b) in
          let xcmp = reserved_xcmp_weight x b in
          let dmp = reserved_dmp_weight x b in
          let queue = message_queue_service_weight x b w in
          Divided (block_limits x b)
          × IsPercent 75 (ref_time m) (ref_time (normal_limit x b))
          × IsPercent 75 (proof_size m) (proof_size (normal_limit x b))
          × (ref_time (normal_limit x b) + ref_time reserved ≡ ref_time m)
          × (proof_size (normal_limit x b) + proof_size reserved ≡ proof_size m)
          × (ref_time xcmp + ref_time dmp + ref_time queue ≤ ref_time m)
          × (proof_size xcmp + proof_size dmp + proof_size queue ≤ proof_size m)
    unfolding message_queue_service_weight reserved_xcmp_weight reserved_dmp_weight
    block_weights_lem w built =
        let m = maximum_block_weight x b in
        let of_time = laws.ref_of 75 m (omega arith) in
        let of_proof = laws.proof_of 75 m (omega arith) in
        let (same, same') = max_block-eq w built in
        let of_queue = laws.ref_of 35 (b.max_block w) (omega arith) in
        let of_queue' = laws.proof_of 35 (b.max_block w) (omega arith) in
        (
          block_limits-Divided,
          of_time,
          of_proof,
          omega (arith, laws.ref_sub m (normal_limit x b)),
          omega (arith, laws.proof_sub m (normal_limit x b)),
          omega (arith, laws.ref_div m),
          omega (arith, laws.proof_div m),
        )
