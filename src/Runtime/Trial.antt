-- ===== src/Runtime/Trial.antt =====
-- The api of runtime/src/apis.rs for trying an upgrade, which builds with the feature try-runtime
-- have. frame-executive does the work: it is the parameter `Trials`. Both methods unwrap its result,
-- so that an error ends the call in a panic.
pub mod Laws
use polkadot_confidential_of.Base.{
  Bool, String, Result, ok, err, Ended, Exec, attempt, pure, panic, ◌>>=◌,
}
use polkadot_confidential_of.Runtime.Fees.{Weights}
use polkadot_confidential_of.Runtime.Limits.{Builder, runtime_block_weights}

pub record Trials (x : Weights) : Type 1 where
  pub World : Type 0
  pub Block : Type 0
  pub UpgradeCheckSelect : Type 0
  pub TryStateSelect : Type 0
  pub TryRuntimeError : Type 0
  pub unwrapped : TryRuntimeError → String  -- the message of the panic
  pub try_runtime_upgrade : UpgradeCheckSelect → Exec World TryRuntimeError x.Weight
  pub try_execute_block : Block → Bool → Bool → TryStateSelect → Exec World TryRuntimeError x.Weight

module _ (x : Weights) (b : Builder x) (c : Trials x) where
  open c use {World, TryRuntimeError}

  -- `.unwrap()`
  abbrev pub unwrap : Exec World TryRuntimeError x.Weight → Exec World ⊥ x.Weight
  unwrap call = attempt call >>= by_result
    where
      by_result : Result x.Weight TryRuntimeError → Exec World ⊥ x.Weight
      by_result (ok weight) = pure weight
      by_result (err e) = panic (c.unwrapped e)

  -- `RuntimeBlockWeights::get()`
  abbrev pub block_weights : Exec World ⊥ b.BlockWeights
  block_weights w = (runtime_block_weights x b, w)

  unfoldable pub on_runtime_upgrade : c.UpgradeCheckSelect → Exec World ⊥ (x.Weight × x.Weight)
  on_runtime_upgrade checks = do
    weight ← unwrap (c.try_runtime_upgrade checks)
    weights ← block_weights
    pure (weight, b.max_block weights)

  unfoldable pub execute_block : c.Block → Bool → Bool → c.TryStateSelect → Exec World ⊥ x.Weight
  execute_block block state_root_check signature_check select =
      unwrap (c.try_execute_block block state_root_check signature_check select)
