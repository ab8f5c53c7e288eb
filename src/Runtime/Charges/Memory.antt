-- ===== src/Runtime/Charges/Memory.antt =====
-- Lengths by the class, and fees that are linear in the weight, which show that the assumptions can
-- be met. Every term of a polynomial counts as a positive one of degree one.
use polkadot_confidential_of.Base.{ℕ, ◌+◌, ◌*◌, ◌/◌, ◌≡◌, List, [], ◌∷◌, min, arith}
use polkadot_confidential_of.Runtime.Fees.{Coefficient}
use polkadot_confidential_of.Runtime.Fees.Memory.{pair_weights}
use polkadot_confidential_of.Runtime.Limits.{DispatchClass, normal, operational, mandatory}
use polkadot_confidential_of.Runtime.Limits.Memory.{pair_builder}
use polkadot_confidential_of.Runtime.Charges.{Charging}
use polkadot_confidential_of.Runtime.Charges.Laws.{u128_max, IsBillionths, ChargingLaws}

abbrev pub lengths : ℕ → ℕ × ℕ → DispatchClass → ℕ
lengths n r normal = (r.0 * n + 50) / 100
lengths n r operational = n
lengths n r mandatory = n

abbrev pub linear : List (Coefficient pair_weights) → ℕ × ℕ → ℕ
linear [] w = 0
linear (c ∷ cs) w =
    c.coeff_integer * w.0
    + (1000000000 * c.coeff_frac.0 / c.coeff_frac.1 * w.0 + 500000000) / 1000000000
    + linear cs w

abbrev pub plain_charging : Charging pair_weights
plain_charging = record {
  BlockLength = DispatchClass → ℕ;
  max_with_normal_ratio = lengths;
  max_length = λ l k. l k;
  constant_multiplier = λ fee n. min (fee * n) u128_max;
  polynomial_fee = linear;
}

linear_lem :
    (p q k t : ℕ)
    → (m : ℕ) × (k * t + (1000000000 * p / q * t + 500000000) / 1000000000 + 0 ≡ k * t + m)
      × IsBillionths (1000000000 * p / q) t m
linear_lem p q k t =
    ((1000000000 * p / q * t + 500000000) / 1000000000, omega arith, (omega arith, omega arith))

pub plain_charging-ChargingLaws : ChargingLaws pair_weights pair_builder plain_charging
plain_charging-ChargingLaws = record {
  normal_length = λ n p fits. (omega arith, omega arith);
  multiplied = λ fee n fits. omega arith;
  linear_fee = λ p q k w less fits. linear_lem p q k w.0;
}
