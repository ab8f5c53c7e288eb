-- ===== src/Runtime/Charges/Laws.antt =====
-- What the weight and the length of an extrinsic cost at most.
use polkadot_confidential_of.Base.{
  ℕ, ◌+◌, ◌-◌, ◌*◌, ◌/◌, ◌%◌, ◌^◌, ◌≤◌, ◌<◌, ◌≡◌, ap, false, [], ◌∷◌, arith,
}
use polkadot_confidential_of.Runtime.{unit, milli_unit, micro_unit}
use polkadot_confidential_of.Runtime.Fees.{
  Weights, WeightLaws, Coefficient, saturating_mul, extrinsic_base_weight, polynomial, numerator,
  denominator,
}
use polkadot_confidential_of.Runtime.Limits.{Builder, normal, maximum_block_weight, normal_limit}
use polkadot_confidential_of.Runtime.Limits.Laws.{BuilderLaws, IsPercent}
use polkadot_confidential_of.Runtime.Charges.{
  Charging, runtime_block_length, length_to_fee, weight_to_fee,
}

abbrev pub u128_max : ℕ
u128_max = 2 ^ 128 - 1

-- `m` is `parts` billionths of `n`, rounded to a nearest number.
abbrev pub IsBillionths : ℕ → ℕ → ℕ → Type 0
IsBillionths parts n m =
    (2 * 1000000000 * m ≤ 2 * (parts * n) + 1000000000)
    × (2 * (parts * n) ≤ 2 * 1000000000 * m + 1000000000)

module _ (x : Weights) (b : Builder x) (c : Charging x) where
  open x use {Weight, ref_time}

  -- What frame-support and frame-system document.
  pub record ChargingLaws : Type 0 where
    pub normal_length :
        (n p : ℕ)
        → p ≤ 100
        → IsPercent x b p n (c.max_length (c.max_with_normal_ratio n (b.from_percent p)) normal)
    pub multiplied : (fee n : ℕ) → fee * n ≤ u128_max → c.constant_multiplier fee n ≡ fee * n
    -- A fraction is kept in billionths.
    pub linear_fee :
        (p q k : ℕ) (w : Weight)
        → p < q
        → k * ref_time w + ref_time w ≤ u128_max
        → let term : Coefficient x = record {
          degree = 1;
          negative = false;
          coeff_frac = x.from_rational p q;
          coeff_integer = k;
        } in
          (m : ℕ) × (c.polynomial_fee (term ∷ []) w ≡ k * ref_time w + m)
          × IsBillionths (1000000000 * p / q) (ref_time w) m

  module _ (laws : WeightLaws x) (limits : BuilderLaws x b) (charges : ChargingLaws) where
    base_lem : x.nanos ≡ 1000 → ref_time (extrinsic_base_weight x) ≡ 125000000
    unfolding extrinsic_base_weight
    base_lem nano = omega (arith, laws.ref_from_parts)

    -- With a picosecond as the unit of time, a unit of weight costs 8 thousandths of a unit of
    -- balance.
    pub weight_to_fee_lem :
        x.nanos ≡ 1000
        → (w : Weight) → ref_time w ≤ u128_max
        → IsBillionths 8000000 (ref_time w) (weight_to_fee x b c w)
    unfolding weight_to_fee polynomial
    weight_to_fee_lem nano w fits =
        let base = base_lem nano in
        let parts =
          ap (λ n. 1000000000 * (milli_unit / 10 % (100 * n)) / (100 * n) * ref_time w) base in
        let whole = ap (λ n. milli_unit / 10 / (100 * n) * ref_time w) base in
        let rest = ap (λ n. milli_unit / 10 % (100 * n)) base in
        let (m, fee, (below, above)) =
          charges.linear_fee (numerator x % denominator x) (denominator x)
            (numerator x / denominator x) w (omega arith) (omega arith) in
        (omega arith, omega arith)

    normal_time : b.per_second ≡ 1000000000000 → ref_time (normal_limit x b) ≡ 1500000000000
    unfolding maximum_block_weight
    normal_time second =
        let whole = laws.ref_from_parts (saturating_mul b.per_second 2) b.max_pov_size in
        let part = limits.ref_of 75 (maximum_block_weight x b) (omega arith) in omega arith

    -- With the picosecond as the unit of time, a byte of an extrinsic costs ten MICRO_UNITs and
    -- a unit of weight 8 thousandths of a unit of balance, to the nearest unit, so that the base
    -- weight costs one MICRO_UNIT. For an extrinsic that fits the length and the time of normal
    -- ones, the weight costs no more than 1200 bytes do, and both together no more than 40
    -- UNITs.
    pub fees_lem :
        x.nanos ≡ 1000
        → b.per_second ≡ 1000000000000
        → (length : ℕ) → length ≤ c.max_length (runtime_block_length x b c) normal
        → (weight : Weight) → ref_time weight ≤ ref_time (normal_limit x b)
        → (length_to_fee x b c length ≡ 10 * micro_unit * length)
          × IsBillionths 8000000 (ref_time weight) (weight_to_fee x b c weight)
          × (weight_to_fee x b c (extrinsic_base_weight x) ≡ micro_unit)
          × (weight_to_fee x b c weight ≤ length_to_fee x b c 1200)
          × (length_to_fee x b c length + weight_to_fee x b c weight ≤ 40 * unit)
    unfolding runtime_block_length length_to_fee
    fees_lem nano second length short weight light =
        let whole = normal_time second in
        let longest = charges.normal_length (5 * 1024 * 1024) 75 (omega arith) in
        let some_bytes = charges.multiplied (10 * micro_unit) 1200 (omega arith) in
        let bytes = charges.multiplied (10 * micro_unit) length (omega arith) in
        let base = base_lem nano in
        let (least, least') = weight_to_fee_lem nano (extrinsic_base_weight x) (omega arith) in
        let (below, above) = weight_to_fee_lem nano weight (omega arith) in
        (bytes, (below, above), omega arith, omega arith, omega arith)
