-- ===== src/Node/ChainSpec/Tests.antt =====
-- Witness of the agreement of the specifications with the presets.
use polkadot_confidential_of.Base.{◌≡◌, refl, some, List, [], returned}
use polkadot_confidential_of.Runtime.Genesis.{
  GenesisConfig, expect_value, local_testnet_genesis, development_config_genesis,
}
use polkadot_confidential_of.Runtime.Genesis.Memory.{seed_keys, plain_serde}
use polkadot_confidential_of.Node.Memory.{number_specs, number_specs-SpecLaws}
use polkadot_confidential_of.Node.ChainSpec.{
  Extensions, Setting, try_get, unit_properties, last_properties, development_config,
  local_testnet_config,
}
use polkadot_confidential_of.Node.ChainSpec.Presets.{configs-presets}

configs-presets_example :
    (dev : Extensions × List Setting) × (local_testnet : Extensions × List Setting)
    × (e : Extensions) × (c : GenesisConfig seed_keys) × (development_config number_specs
        ≡ returned dev)
    × (local_testnet_config number_specs ≡ returned local_testnet)
    × (try_get number_specs dev ≡ some e)
    × (try_get number_specs local_testnet ≡ some e)
    × (e.relay_chain ≡ "rococo-local")
    × (development_config_genesis seed_keys plain_serde
        ≡ expect_value seed_keys plain_serde (some c) "Could not build genesis config.")
    × (local_testnet_genesis seed_keys plain_serde
        ≡ expect_value seed_keys plain_serde (some c) "Could not build genesis config.")
    × (e.para_id ≡ c.parachain_id)
    × (last_properties [] dev.1 ≡ [])
    × (last_properties [] local_testnet.1 ≡ unit_properties)
configs-presets_example =
    configs-presets number_specs number_specs-SpecLaws seed_keys plain_serde 7 refl
