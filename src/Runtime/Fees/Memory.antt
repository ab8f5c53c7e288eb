-- ===== src/Runtime/Fees/Memory.antt =====
-- Weights as pairs of a time and a proof size, which show that the assumptions can be met.
use polkadot_confidential_of.Base.{ℕ, ◌+◌, refl}
use polkadot_confidential_of.Runtime.Fees.{Weights, WeightLaws, saturating_mul, saturating_sum}

abbrev pub pair_weights : Weights
pair_weights = record {
  Weight = ℕ × ℕ;
  Perbill = ℕ × ℕ;
  from_parts = λ r p. (r, p);
  add = λ v w. (v.0 + w.0, v.1 + w.1);
  saturating_add = λ v w. (saturating_sum v.0 w.0, saturating_sum v.1 w.1);
  DbWeight = ℕ × ℕ;
  db_weight = λ r w. (r, w);
  reads = λ db n. (saturating_mul db.0 n, 0);
  writes = λ db n. (saturating_mul db.1 n, 0);
  reads_writes = λ db r w. (saturating_sum (saturating_mul db.0 r) (saturating_mul db.1 w), 0);
  from_rational = λ p q. (p, q);
  ref_time = λ w. w.0;
  proof_size = λ w. w.1;
  nanos = 1000;
}

pub pair_weights-WeightLaws : WeightLaws pair_weights
pair_weights-WeightLaws = record {
  ref_from_parts = λ r p. refl;
  proof_from_parts = λ r p. refl;
  ref_add = λ v w small. refl;
  ref_saturating_add = λ v w. refl;
  ref_reads = λ r w n. refl;
  ref_writes = λ r w n. refl;
  ref_reads_writes = λ db r w. refl;
}
