-- ===== src/Runtime/Limits/Tests.antt =====
-- The limits in numbers, with two seconds of time and five mebibytes of proof in a block.
use polkadot_confidential_of.Base.{ℕ, ◌+◌, ◌≤◌, ◌≡◌, refl, some}
use polkadot_confidential_of.Runtime.Fees.Memory.{pair_weights}
use polkadot_confidential_of.Runtime.Limits.{
  normal, maximum_block_weight, normal_limit, block_limits, reserved_xcmp_weight,
  reserved_dmp_weight, message_queue_service_weight,
}
use polkadot_confidential_of.Runtime.Limits.Laws.{Divided, IsPercent, block_weights_lem}
use polkadot_confidential_of.Runtime.Limits.Memory.{
  PairLimits, pair_builder, pair_builder-BuilderLaws,
}

abbrev limits : PairLimits
limits = block_limits pair_weights pair_builder

three_quarters : (limits normal).max_total ≡ some (1500000000000, 3932160)
unfolding block_limits maximum_block_weight
three_quarters = refl

abbrev whole : ℕ × ℕ
whole = maximum_block_weight pair_weights pair_builder

abbrev allowed : ℕ × ℕ
allowed = normal_limit pair_weights pair_builder

block_weights_lem_example :
    let queue = message_queue_service_weight pair_weights pair_builder limits in
    let xcmp = reserved_xcmp_weight pair_weights pair_builder in
    let dmp = reserved_dmp_weight pair_weights pair_builder in
    Divided pair_weights pair_builder pair_builder-BuilderLaws limits
    × IsPercent pair_weights pair_builder 75 whole.0 allowed.0
    × IsPercent pair_weights pair_builder 75 whole.1 allowed.1
    × (allowed.0 + (pair_builder.sub whole allowed).0 ≡ whole.0)
    × (allowed.1 + (pair_builder.sub whole allowed).1 ≡ whole.1)
    × (xcmp.0 + dmp.0 + queue.0 ≤ whole.0)
    × (xcmp.1 + dmp.1 + queue.1 ≤ whole.1)
block_weights_lem_example =
    block_weights_lem pair_weights pair_builder pair_builder-BuilderLaws limits refl
