-- ===== src/Node/ChainSpec.antt =====
-- node/src/chain_spec.rs: the two built-in chain specifications. The builder of sc-chain-spec is a
-- parameter, which takes the settings in the order in which the code makes them.
pub mod Presets
mod Tests
use polkadot_confidential_of.Base.{
  ℕ, ◌≡◌, String, Option, none, some, List, [], ◌∷◌, ◌++◌, Ended, returned, panicked,
}

pub record Extensions : Type 0 where
  pub relay_chain : String
  pub para_id : ℕ

-- serde_json's values, as far as the code makes them.
pub data Value : Type 0 where
  string : String → Value
  number : ℕ → Value

abbrev pub Properties : Type 0
Properties = List (String × Value)

-- sc-service's `ChainType`, as far as the code makes one.
pub data ChainType : Type 0 where
  development : ChainType
  local : ChainType

pub data Setting : Type 0 where
  with_name : String → Setting
  with_id : String → Setting
  with_chain_type : ChainType → Setting
  with_genesis_config_preset_name : String → Setting
  with_protocol_id : String → Setting
  with_properties : Properties → Setting

pub record SpecLibrary (ChainSpec : Type 0) : Type 1 where
  pub Wasm : Type 0
  pub wasm_binary : Option Wasm
  pub dev_preset : String
  pub local_testnet_preset : String
  pub build : Wasm → Extensions → List Setting → ChainSpec
  pub get_extension : ChainSpec → Option Extensions
  pub properties : ChainSpec → Properties

-- `Properties::insert` into a map that keeps the order of first insertion.
abbrev pub insert : String → Value → Properties → Properties
insert k v props = props ++ (k, v) ∷ []

-- The properties that both functions make, with three different keys.
abbrev pub unit_properties : Properties
unit_properties =
    insert "ss58Format" (number 42)
      (insert "tokenDecimals" (number 12) (insert "tokenSymbol" (string "UNIT") []))

abbrev pub extensions : Extensions
extensions = record { relay_chain = "rococo-local"; para_id = 1000 }

module _ {ChainSpec : Type 0} (lib : SpecLibrary ChainSpec) where
  open lib use {Wasm, wasm_binary, dev_preset, local_testnet_preset, build, get_extension}

  unfoldable pub try_get : ChainSpec → Option Extensions
  try_get chain_spec = get_extension chain_spec

  -- `runtime::WASM_BINARY.expect(..)`, and the build with the binary.
  pub built : Option Wasm → List Setting → Ended ⊥ ChainSpec
  built none settings = panicked "WASM binary was not built, please build it!"
  built (some wasm) settings = returned (build wasm extensions settings)

  -- The properties are made here too, and not used.
  abbrev pub development_settings : List Setting
  development_settings =
      with_name "Development"
      ∷ with_id "dev"
      ∷ with_chain_type development
      ∷ with_genesis_config_preset_name dev_preset
      ∷ []

  unfoldable pub development_config : Ended ⊥ ChainSpec
  unfolding built
  development_config = built wasm_binary development_settings

  abbrev pub local_testnet_settings : List Setting
  local_testnet_settings =
      with_name "Local Testnet"
      ∷ with_id "local_testnet"
      ∷ with_chain_type local
      ∷ with_genesis_config_preset_name local_testnet_preset
      ∷ with_protocol_id "template-local"
      ∷ with_properties unit_properties
      ∷ []

  unfoldable pub local_testnet_config : Ended ⊥ ChainSpec
  unfolding built
  local_testnet_config = built wasm_binary local_testnet_settings

-- The properties that a list of settings leaves: those set last.
abbrev pub last_properties : Properties → List Setting → Properties
last_properties props [] = props
last_properties props (with_properties new ∷ settings) = last_properties new settings
last_properties props (with_name name ∷ settings) = last_properties props settings
last_properties props (with_id id ∷ settings) = last_properties props settings
last_properties props (with_chain_type type ∷ settings) = last_properties props settings
last_properties props (with_genesis_config_preset_name name ∷ settings) =
    last_properties props settings
last_properties props (with_protocol_id id ∷ settings) = last_properties props settings

-- What the builder is documented to do.
pub record SpecLaws {ChainSpec : Type 0} (lib : SpecLibrary ChainSpec) : Type 0 where
  pub extension_kept :
      (w : lib.Wasm) (e : Extensions) (settings : List Setting)
      → lib.get_extension (lib.build w e settings) ≡ some e
  pub properties_kept :
      (w : lib.Wasm) (e : Extensions) (settings : List Setting)
      → lib.properties (lib.build w e settings) ≡ last_properties [] settings
