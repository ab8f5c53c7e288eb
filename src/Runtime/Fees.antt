-- ===== src/Runtime/Fees.antt =====
-- Weights and fees: runtime/src/weights, pallets/template/src/weights.rs, the weight attributes of
-- the template pallet's calls, and `WeightToFee` of runtime/src/lib.rs. `Weight`, `RuntimeDbWeight`,
-- `Perbill` and the time constants belong to frame-support: they are the parameter `Weights`.
pub mod Laws
pub mod Memory
use polkadot_confidential_of.Base.{
  ℕ, ◌+◌, ◌-◌, ◌*◌, ◌/◌, ◌%◌, ◌^◌, ◌≤◌, ◌<◌, ◌≡◌, Bool, false, min, List, [], ◌∷◌,
}
use polkadot_confidential_of.Runtime.{milli_unit}

abbrev pub u64_max : ℕ
u64_max = 2 ^ 64 - 1

-- Rust's `u64::saturating_mul` and `saturating_add`.
abbrev pub saturating_mul : ℕ → ℕ → ℕ
saturating_mul a b = min (a * b) u64_max

abbrev pub saturating_sum : ℕ → ℕ → ℕ
saturating_sum a b = min (a + b) u64_max

pub record Weights : Type 1 where
  pub Weight : Type 0
  pub Perbill : Type 0
  pub from_parts : ℕ → ℕ → Weight
  pub add : Weight → Weight → Weight  -- `+`
  pub saturating_add : Weight → Weight → Weight
  pub DbWeight : Type 0
  pub db_weight : ℕ → ℕ → DbWeight  -- `RuntimeDbWeight { read, write }`
  pub reads : DbWeight → ℕ → Weight
  pub writes : DbWeight → ℕ → Weight
  pub reads_writes : DbWeight → ℕ → ℕ → Weight
  pub from_rational : ℕ → ℕ → Perbill
  pub ref_time : Weight → ℕ
  pub proof_size : Weight → ℕ
  pub nanos : ℕ  -- WEIGHT_REF_TIME_PER_NANOS

module _ (x : Weights) where
  open x use {
    Weight, Perbill, from_parts, saturating_add, DbWeight, db_weight, reads, writes, reads_writes,
    from_rational, ref_time, proof_size, nanos,
  }

  unfoldable pub rocks_db_weight : DbWeight
  rocks_db_weight = db_weight (25000 * nanos) (100000 * nanos)

  unfoldable pub parity_db_weight : DbWeight
  parity_db_weight = db_weight (8000 * nanos) (50000 * nanos)

  unfoldable pub block_execution_weight : Weight
  block_execution_weight = from_parts (saturating_mul nanos 5000000) 0

  unfoldable pub extrinsic_base_weight : Weight
  extrinsic_base_weight = from_parts (saturating_mul nanos 125000) 0

  -- The benchmarked weights, for a database: `SubstrateWeight` takes the runtime's, `()` takes
  -- RocksDB's.
  unfoldable pub benchmarked_do_something : DbWeight → Weight
  benchmarked_do_something db = saturating_add (from_parts 9000000 0) (writes db 1)

  unfoldable pub benchmarked_cause_error : DbWeight → Weight
  benchmarked_cause_error db =
      saturating_add (saturating_add (from_parts 6000000 1489) (reads db 1)) (writes db 1)

  -- The weights that the calls are annotated with.
  unfoldable pub annotated_do_something : DbWeight → Weight
  annotated_do_something db = x.add (from_parts 10000 0) (writes db 1)

  unfoldable pub annotated_cause_error : DbWeight → Weight
  annotated_cause_error db = x.add (from_parts 10000 0) (reads_writes db 1 1)

  -- frame-support's `WeightToFeeCoefficient`
  pub record Coefficient : Type 0 where
    pub degree : ℕ
    pub negative : Bool
    pub coeff_frac : Perbill
    pub coeff_integer : ℕ

  abbrev pub numerator : ℕ
  numerator = milli_unit / 10

  abbrev pub denominator : ℕ
  denominator = 100 * ref_time extrinsic_base_weight

  unfoldable pub polynomial : List Coefficient
  polynomial =
      record {
        degree = 1;
        negative = false;
        coeff_frac = from_rational (numerator % denominator) denominator;
        coeff_integer = numerator / denominator;
      }
      ∷ []

-- What frame-support is documented to do.
module _ (x : Weights) where
  open x use {
    Weight, Perbill, from_parts, saturating_add, DbWeight, db_weight, reads, writes, reads_writes,
    from_rational, ref_time,
  }

  pub record WeightLaws : Type 0 where
    pub ref_from_parts : (r p : ℕ) → ref_time (from_parts r p) ≡ r
    pub proof_from_parts : (r p : ℕ) → x.proof_size (from_parts r p) ≡ p
    pub ref_add :
        (v w : Weight)
        → ref_time v + ref_time w ≤ u64_max
        → ref_time (x.add v w) ≡ ref_time v + ref_time w
    pub ref_saturating_add :
        (v w : Weight) → ref_time (saturating_add v w) ≡ saturating_sum (ref_time v) (ref_time w)
    pub ref_reads : (r w n : ℕ) → ref_time (reads (db_weight r w) n) ≡ saturating_mul r n
    pub ref_writes : (r w n : ℕ) → ref_time (writes (db_weight r w) n) ≡ saturating_mul w n
    pub ref_reads_writes :
        (db : DbWeight) (r w : ℕ)
        → ref_time (reads_writes db r w)
          ≡ saturating_sum (ref_time (reads db r)) (ref_time (writes db w))
