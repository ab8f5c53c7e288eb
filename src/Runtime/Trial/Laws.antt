-- ===== src/Runtime/Trial/Laws.antt =====
-- How a trial ends.
use polkadot_confidential_of.Base.{◌≡◌, refl, Bool, Ended, returned, failed, panicked, arith}
use polkadot_confidential_of.Runtime.Fees.{Weights}
use polkadot_confidential_of.Runtime.Limits.{Builder, block_limits, maximum_block_weight}
use polkadot_confidential_of.Runtime.Limits.Laws.{BuilderLaws, max_block-eq}
use polkadot_confidential_of.Runtime.Trial.{Trials, on_runtime_upgrade, execute_block}

module _ (x : Weights) (b : Builder x) (c : Trials x) (limits : BuilderLaws x b) where
  open x use {Weight, ref_time, proof_size}
  open c use {World, TryRuntimeError}

  abbrev pub IsWhole : Weight → Type 0
  IsWhole m =
      (ref_time m ≡ ref_time (maximum_block_weight x b))
      × (proof_size m ≡ proof_size (maximum_block_weight x b))

  -- How a trial ends, by how the executive ended.
  abbrev pub Tried :
      Ended TryRuntimeError Weight × World → Ended ⊥ (Weight × Weight) × World → Type 0
  Tried (returned v, w) r = (m : Weight) × (r ≡ (returned (v, m), w)) × IsWhole m
  Tried (failed e, w) r = r ≡ (panicked (c.unwrapped e), w)
  Tried (panicked msg, w) r = r ≡ (panicked msg, w)

  abbrev pub Executed : Ended TryRuntimeError Weight × World → Ended ⊥ Weight × World → Type 0
  Executed (returned v, w) r = r ≡ (returned v, w)
  Executed (failed e, w) r = r ≡ (panicked (c.unwrapped e), w)
  Executed (panicked msg, w) r = r ≡ (panicked msg, w)

  upgrade-Tried :
      (weights : b.BlockWeights)
      → b.build_or_panic (block_limits x b) ≡ returned weights
      → (w : World) (checks : c.UpgradeCheckSelect) (r : Ended TryRuntimeError Weight × World)
      → c.try_runtime_upgrade checks w ≡ r
      → Tried r (on_runtime_upgrade x b c checks w)
  unfolding on_runtime_upgrade
  upgrade-Tried weights built w checks (returned v, w') e =
      (b.max_block weights, ground arith, max_block-eq x b limits weights built)
  upgrade-Tried weights built w checks (failed err, w') e = ground arith
  upgrade-Tried weights built w checks (panicked msg, w') e = ground arith

  block-Executed :
      (w : World) (block : c.Block) (root signature : Bool) (select : c.TryStateSelect)
      (r : Ended TryRuntimeError Weight × World)
      → c.try_execute_block block root signature select w ≡ r
      → Executed r (execute_block x b c block root signature select w)
  unfolding execute_block
  block-Executed w block root signature select (returned v, w') e = ground arith
  block-Executed w block root signature select (failed err, w') e = ground arith
  block-Executed w block root signature select (panicked msg, w') e = ground arith

  -- If the block weights can be built, a trial of an upgrade ends with the weight of the upgrade
  -- and the maximal weight of a block, and a trial of a block with its weight; where the
  -- executive ends with an error or a panic, each ends in a panic. The state is that of the
  -- executive.
  pub trials_lem :
      (weights : b.BlockWeights)
      → b.build_or_panic (block_limits x b) ≡ returned weights
      → (w : World) (checks : c.UpgradeCheckSelect) (block : c.Block) (root signature : Bool)
        (select : c.TryStateSelect)
      → Tried (c.try_runtime_upgrade checks w) (on_runtime_upgrade x b c checks w)
        × Executed
            (c.try_execute_block block root signature select w)
            (execute_block x b c block root signature select w)
  trials_lem weights built w checks block root signature select = (
    upgrade-Tried weights built w checks (c.try_runtime_upgrade checks w) refl,
    block-Executed w block root signature select (c.try_execute_block block root signature select w)
        refl,
  )
