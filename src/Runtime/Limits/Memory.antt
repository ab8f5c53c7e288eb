-- ===== src/Runtime/Limits/Memory.antt =====
-- Limits as functions of the class, over weights that are pairs, which show that the assumptions can
-- be met.
use polkadot_confidential_of.Base.{
  ℕ, ◌+◌, ◌-◌, ◌*◌, ◌/◌, ◌≡◌, refl, ap, sym, ◌∙◌, Option, none, some, Ended, returned, failed,
  panicked, leb, if◌then◌else◌, arith,
}
use polkadot_confidential_of.Runtime.Fees.Memory.{pair_weights}
use polkadot_confidential_of.Runtime.Limits.{
  DispatchClass, normal, operational, mandatory, ClassWeights, Builder,
}
use polkadot_confidential_of.Runtime.Limits.Laws.{among, Within, BuilderLaws}

abbrev pub Pair : Type 0
Pair = ℕ × ℕ

abbrev pub PairLimits : Type 0
PairLimits = DispatchClass → ClassWeights Pair

abbrev pub initial : DispatchClass → Option Pair
initial normal = some (0, 0)
initial operational = some (0, 0)
initial mandatory = none

abbrev pub larger : ℕ → ℕ → ℕ
larger a b = if leb a b then b else a

abbrev pub at_least : Option Pair → Pair → Pair
at_least none v = v
at_least (some u) v = (larger u.0 v.0, larger u.1 v.1)

abbrev pub largest : Option Pair → Option Pair → Option Pair → Pair
largest a c d = at_least a (at_least c (at_least d (0, 0)))

abbrev pub pair_builder : Builder pair_weights
pair_builder = record {
  from_percent = λ p. (p, 100);
  of = λ r w. ((r.0 * w.0 + 50) / 100, (r.0 * w.1 + 50) / 100);
  sub = λ v w. (v.0 - w.0, v.1 - w.1);
  div = λ w n. (w.0 / n, w.1 / n);
  per_second = 1000000000000;
  max_pov_size = 5242880;
  Limits = PairLimits;
  builder = λ k. record { base_extrinsic = (0, 0); max_total = initial k; reserved = initial k };
  base_block = λ w l. l;
  for_class = λ ks f l k. if among k ks then f (l k) else l k;
  avg_block_initialization = λ r l. l;
  BlockWeights = PairLimits;
  build_or_panic = λ l. returned l;
  max_block = λ l. largest (l normal).max_total (l mandatory).max_total (l operational).max_total;
}

largest_lem :
    (a c : Option Pair) (m : Pair)
    → Within pair_weights pair_builder m a
    → Within pair_weights pair_builder m c
    → largest a c (some m) ≡ m
largest_lem none none m h k = ground arith
largest_lem none (some v) m h k = ground arith
largest_lem (some u) none m h k = ground arith
largest_lem (some u) (some v) m h k = ground arith

limits_of : Ended ⊥ PairLimits → PairLimits
limits_of (returned l) = l
limits_of (failed e) = elim e [ ]
limits_of (panicked msg) =
    λ k. record { base_extrinsic = (0, 0); max_total = none; reserved = none }

built_same : (l w : PairLimits) → Path (Ended ⊥ PairLimits) (returned l) (returned w) → w ≡ l
unfolding limits_of
built_same l w e = ap limits_of (sym e)

pub max_built :
    (l w : PairLimits) (m : Pair)
    → Path (Ended ⊥ PairLimits) (returned l) (returned w)
    → (l operational).max_total ≡ some m
    → Within pair_weights pair_builder m (l normal).max_total
    → Within pair_weights pair_builder m (l mandatory).max_total
    → pair_builder.max_block w ≡ m
max_built l w m e at h k =
    ap pair_builder.max_block (built_same l w e)
    ∙ ap (largest (l normal).max_total (l mandatory).max_total) at
    ∙ largest_lem (l normal).max_total (l mandatory).max_total m h k

pub pair_builder-BuilderLaws : BuilderLaws pair_weights pair_builder
pair_builder-BuilderLaws = record {
  class = λ l. l;
  class_for = λ ks f l k. refl;
  class_base = λ w l k. refl;
  class_avg = λ r l k. refl;
  class_mandatory = refl;
  max_built = λ l w m e at h k.
      let same = max_built l w m e at h k in (ap (λ v. v.0) same, ap (λ v. v.1) same);
  ref_of = λ p w h. (omega arith, omega arith);
  proof_of = λ p w h. (omega arith, omega arith);
  ref_sub = λ v w. refl;
  proof_sub = λ v w. refl;
  ref_div = λ w. refl;
  proof_div = λ w. refl;
}
