-- ===== src/Runtime/Xcm/AssetTests.antt =====
-- Assets that move between two accounts, and the price of a message.
use polkadot_confidential_of.Base.{
  ℕ, ◌+◌, ◌*◌, ◌<◌, ◌≤◌, ◌≡◌, ◌≢◌, refl, Option, none, some, returned, arith,
}
use polkadot_confidential_of.Runtime.{micro_unit}
use polkadot_confidential_of.Runtime.Fees.Memory.{pair_weights, pair_weights-WeightLaws}
use polkadot_confidential_of.Runtime.Limits.Memory.{pair_builder, pair_builder-BuilderLaws}
use polkadot_confidential_of.Runtime.Charges.Memory.{plain_charging, plain_charging-ChargingLaws}
use polkadot_confidential_of.Runtime.Xcm.{
  Location, relay_location, sovereign_account, signed, location_to_account_id, to_dispatch_origin,
}
use polkadot_confidential_of.Runtime.Xcm.Memory.{numbers, plain_converters, counted, counted_laws}
use polkadot_confidential_of.Runtime.Xcm.Outgoing.{account_location}
use polkadot_confidential_of.Runtime.Xcm.Weighing.{weigher}
use polkadot_confidential_of.Runtime.Xcm.Assets.{fungible, Asset, local_asset_transactor, trader}
use polkadot_confidential_of.Runtime.Xcm.Accounts.{Moved, withdraw-deposit}
use polkadot_confidential_of.Runtime.Xcm.Prices.{trader_lem}
use polkadot_confidential_of.Runtime.Xcm.AssetMemory.{
  Accounts, with_balance, plain_adapters, plain_adapters_laws, plain_traders, plain_traders_laws,
  held_at,
}

abbrev all_rich : Accounts
all_rich a = 10000000000

abbrev four_paid : Accounts
four_paid = with_balance 4 9999999993 all_rich

abbrev five_has : Accounts
five_has = with_balance 5 10000000007 four_paid

abbrev seven : Asset numbers ℕ
seven = record { id = relay_location numbers; fun = fungible 7 }

out :
    (local_asset_transactor numbers plain_adapters plain_converters).withdraw_asset seven
      (account_location numbers 4)
      all_rich
    ≡ (returned tt, four_paid)
unfolding local_asset_transactor location_to_account_id
out = refl

back :
    (local_asset_transactor numbers plain_adapters plain_converters).deposit_asset seven
      (account_location numbers 5)
      four_paid
    ≡ (returned tt, five_has)
unfolding local_asset_transactor location_to_account_id
back = refl

withdraw-deposit_example :
    (n : ℕ) × (from : ℕ) × (into : ℕ) × (seven
      ≡ record { id = relay_location numbers; fun = fungible n })
    × (to_dispatch_origin numbers plain_converters (account_location numbers 4) sovereign_account
        ≡ some (signed from))
    × (to_dispatch_origin numbers plain_converters (account_location numbers 5) sovereign_account
        ≡ some (signed into))
    × Moved numbers plain_adapters plain_converters plain_adapters_laws all_rich five_has n from
        into
withdraw-deposit_example =
    withdraw-deposit numbers plain_adapters plain_converters plain_adapters_laws seven
      (account_location numbers 4) (account_location numbers 5) all_rich four_paid five_has out back

-- Three instructions, and no calls.
abbrev short : ℕ × (ℕ × ℕ)
short = (3, (0, 0))

abbrev sold : ℕ × ℕ → ℕ → Option ℕ
sold = trader numbers pair_weights pair_builder plain_charging plain_traders

trader_lem_example :
    (v : ℕ × ℕ) × (weigher pair_weights counted short ≡ some v)
    × ((h : ℕ) → h < 8 * micro_unit * 3 → sold v h ≡ none)
    × ((h : ℕ)
        → 8 * micro_unit * 3 ≤ h
        → (rest : ℕ) × (sold v h ≡ some rest)
          × (rest + 8 * micro_unit * 3 ≡ h)
          × ((l : Location numbers)
              → l ≢ relay_location numbers
              → held_at rest l.parents l.interior ≡ held_at h l.parents l.interior))
trader_lem_example =
    trader_lem numbers pair_weights pair_builder plain_charging plain_traders
      pair_weights-WeightLaws pair_builder-BuilderLaws plain_charging-ChargingLaws
      plain_traders_laws counted counted_laws refl short refl refl (omega arith) (omega arith)
