-- ===== src/Runtime/Xcm/Assets.antt =====
-- What messages do with assets, in runtime/src/configs/xcm_config.rs: the transactor, which keeps the
-- assets of locations in accounts of this chain, and the trader, which sells weight. `FungibleAdapter`,
-- `IsConcrete` and `UsingComponents` are in staging-xcm-builder, which is not in this repository: they
-- are the parameters `Adapters` and `Traders`.
use polkadot_confidential_of.Base.{ℕ, Option, Exec}
use polkadot_confidential_of.Runtime.Fees.{Weights}
use polkadot_confidential_of.Runtime.Limits.{Builder}
use polkadot_confidential_of.Runtime.Charges.{Charging, weight_to_fee}
use polkadot_confidential_of.Runtime.Xcm.{
  LocationTypes, Location, relay_location, Converters, location_to_account_id,
}

-- How much of an asset there is.
pub data Fungibility (Instance : Type 0) : Type 0 where
  fungible : ℕ → Fungibility Instance
  non_fungible : Instance → Fungibility Instance

module _ (t : LocationTypes) where
  pub record Asset (Instance : Type 0) : Type 0 where
    pub id : Location t
    pub fun : Fungibility Instance

  -- `AssetTransactor` of staging-xcm-executor: how assets leave a location and come to one.
  pub record Transactor (World Error Instance : Type 0) : Type 0 where
    pub withdraw_asset : Asset Instance → Location t → Exec World Error (Unit {0})
    pub deposit_asset : Asset Instance → Location t → Exec World Error (Unit {0})

  -- `Checking` says which account keeps track of teleports.
  pub record Adapters : Type 1 where
    pub Instance : Type 0
    pub World : Type 0
    pub Error : Type 0
    pub Currency : Type 0
    pub Checking : Type 0
    pub balances : Currency
    pub no_account : Checking
    pub is_concrete : Location t → Asset Instance → Option ℕ
    pub fungible_adapter :
        Currency
        → (Asset Instance → Option ℕ)
        → (Location t → Option t.AccountId)
        → Checking
        → Transactor World Error Instance

  -- `LocalAssetTransactor`
  unfoldable pub local_asset_transactor :
      (a : Adapters) → Converters t → Transactor a.World a.Error a.Instance
  local_asset_transactor a c =
      a.fungible_adapter a.balances (a.is_concrete (relay_location t)) (location_to_account_id t c)
        a.no_account

  -- A trader for a message takes a fee for its weight out of the assets that it holds, and answers
  -- with the rest, or `none` if they are too few.
  pub record Traders (x : Weights) : Type 1 where
    pub Holding : Type 0
    pub using_components : (x.Weight → ℕ) → Location t → x.Weight → Holding → Option Holding

  -- `Trader`
  unfoldable pub trader :
      (x : Weights)
      → Builder x
      → Charging x
      → (s : Traders x) → x.Weight
      → s.Holding
      → Option s.Holding
  trader x b c s = s.using_components (weight_to_fee x b c) (relay_location t)
