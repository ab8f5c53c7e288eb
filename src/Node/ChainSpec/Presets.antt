-- ===== src/Node/ChainSpec/Presets.antt =====
-- The chain specifications against the genesis presets of the runtime.
use polkadot_confidential_of.Base.{◌≡◌, refl, ap, some, [], returned, ◌∙◌}
use polkadot_confidential_of.Runtime.Genesis.{
  Keys, Serde, GenesisConfig, testnet_config, expect_value, local_testnet_genesis,
  development_config_genesis,
}
use polkadot_confidential_of.Runtime.Genesis.Laws.{preset_config, presets_made}
use polkadot_confidential_of.Node.ChainSpec.{
  Extensions, SpecLibrary, SpecLaws, try_get, unit_properties, built, development_settings,
  local_testnet_settings, development_config, local_testnet_config,
}

-- With a runtime, both built-in chain specifications are made; their extension names
-- rococo-local and the parachain id of the genesis presets; only the local testnet has the
-- properties of the currency, the development chain has none.
pub configs-presets :
    {ChainSpec : Type 0} (lib : SpecLibrary ChainSpec)
    → SpecLaws lib
    → (k : Keys) (serde : Serde k) (w : lib.Wasm) → lib.wasm_binary ≡ some w
    → (dev : ChainSpec) × (local_testnet : ChainSpec) × (e : Extensions) × (c : GenesisConfig k)
      × (development_config lib ≡ returned dev)
      × (local_testnet_config lib ≡ returned local_testnet)
      × (try_get lib dev ≡ some e)
      × (try_get lib local_testnet ≡ some e)
      × (e.relay_chain ≡ "rococo-local")
      × (development_config_genesis k serde
          ≡ expect_value k serde (serde.to_value c) "Could not build genesis config.")
      × (local_testnet_genesis k serde
          ≡ expect_value k serde (serde.to_value c) "Could not build genesis config.")
      × (e.para_id ≡ c.parachain_id)
      × (lib.properties dev ≡ [])
      × (lib.properties local_testnet ≡ unit_properties)
unfolding testnet_config try_get development_config local_testnet_config built
configs-presets lib laws k serde w found =
    let (made, same) = presets_made k serde in
    (
      _,
      _,
      _,
      preset_config k,
      ap (λ o. built lib o (development_settings lib)) found,
      ap (λ o. built lib o (local_testnet_settings lib)) found,
      laws.extension_kept w _ _,
      laws.extension_kept w _ _,
      refl,
      same ∙ made,
      made,
      refl,
      laws.properties_kept w _ _,
      laws.properties_kept w _ _,
    )
