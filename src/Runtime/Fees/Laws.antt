-- ===== src/Runtime/Fees/Laws.antt =====
-- Bounds on the weights, the charge for the template's calls, and the fee polynomial.
use polkadot_confidential_of.Base.{
  ℕ, ◌+◌, ◌*◌, ◌/◌, ◌%◌, ◌^◌, ◌≤◌, ◌<◌, ◌≡◌, refl, ap, ◌∙◌, false, [], ◌∷◌, arith,
}
use native.Mathlib.Nat.{div-add-mod, mul_comm}
use polkadot_confidential_of.Runtime.{milli_unit, micro_unit}
use polkadot_confidential_of.Runtime.Fees.{
  u64_max, Weights, WeightLaws, rocks_db_weight, parity_db_weight, block_execution_weight,
  extrinsic_base_weight, benchmarked_do_something, benchmarked_cause_error, annotated_do_something,
  annotated_cause_error, Coefficient, numerator, denominator, polynomial,
}

-- A quotient and remainder of the numerator add up to it.
charge :
    (base : ℕ)
    → base * (milli_unit / 10 / (100 * base) * (100 * base) + milli_unit / 10 % (100 * base))
      ≡ 100 * base * micro_unit
charge base =
    let q = milli_unit / 10 / (100 * base) in
    let r = milli_unit / 10 % (100 * base) in
    let whole : q * (100 * base) + r ≡ milli_unit / 10 =
      ap (λ n. n + r) (mul_comm q (100 * base)) ∙ div-add-mod (milli_unit / 10) (100 * base) in
    ap (λ n. base * n) whole ∙ omega arith

module _ (x : Weights) where
  open x use {Weight, DbWeight, reads, writes, ref_time, nanos}

  -- From one microsecond to one millisecond for one read and one write.
  abbrev pub IsSane : DbWeight → Type 0
  IsSane db =
      (1000 * nanos ≤ ref_time (reads db 1))
      × (ref_time (reads db 1) ≤ 1000000 * nanos)
      × (1000 * nanos ≤ ref_time (writes db 1))
      × (ref_time (writes db 1) ≤ 1000000 * nanos)

  module _ (laws : WeightLaws x) where
    -- For every unit of time with at most 2 ^ 32 parts in a nanosecond, the weights of both
    -- databases, of a block and of an extrinsic are in the ranges that the tests beside them
    -- name.
    pub weights-IsSane :
        nanos ≤ 2 ^ 32
        → IsSane (rocks_db_weight x)
          × IsSane (parity_db_weight x)
          × (100 * (1000 * nanos) ≤ ref_time (block_execution_weight x))
          × (ref_time (block_execution_weight x) ≤ 50 * (1000000 * nanos))
          × (10 * (1000 * nanos) ≤ ref_time (extrinsic_base_weight x))
          × (ref_time (extrinsic_base_weight x) ≤ 1000000 * nanos)
    unfolding rocks_db_weight parity_db_weight block_execution_weight extrinsic_base_weight
    weights-IsSane small = omega (arith, laws.ref_from_parts, laws.ref_reads, laws.ref_writes)

    -- On every database whose weights do not overflow, both calls of the template pallet are
    -- annotated with less time than was measured for them.
    pub annotated-lt-benchmarked :
        (db : DbWeight)
        → 9000000 + ref_time (reads db 1) + ref_time (writes db 1) ≤ u64_max
        → (ref_time (annotated_do_something x db) < ref_time (benchmarked_do_something x db))
          × (ref_time (annotated_cause_error x db) < ref_time (benchmarked_cause_error x db))
    unfolding annotated_do_something annotated_cause_error benchmarked_do_something
        benchmarked_cause_error
    annotated-lt-benchmarked db small =
        omega
          (arith, laws.ref_from_parts, laws.ref_add, laws.ref_saturating_add, laws.ref_reads_writes)

  -- The fee polynomial is one positive term of degree one, whose coefficient, as the fraction
  -- that it is built from, takes the base weight of an extrinsic to one MICRO_UNIT.
  pub polynomial_lem :
      (c : Coefficient x) × (polynomial x ≡ c ∷ [])
      × (c.degree ≡ 1)
      × (c.negative ≡ false)
      × (c.coeff_frac ≡ x.from_rational (numerator x % denominator x) (denominator x))
      × (ref_time (extrinsic_base_weight x)
            * (c.coeff_integer * denominator x + numerator x % denominator x)
          ≡ denominator x * micro_unit)
      × (100 * micro_unit ≡ milli_unit / 10)
  unfolding polynomial
  polynomial_lem = (
    record {
      degree = 1;
      negative = false;
      coeff_frac = x.from_rational (numerator x % denominator x) (denominator x);
      coeff_integer = numerator x / denominator x;
    },
    refl,
    refl,
    refl,
    refl,
    charge (ref_time (extrinsic_base_weight x)),
    refl,
  )
