-- ===== src/Runtime/Genesis.antt =====
-- runtime/src/genesis_config_presets.rs. The derivation of keys from a seed, the XCM version, the
-- names of the presets and the JSON serializer are not in this repository: they are parameters.
pub mod Laws
pub mod Accepted
pub mod Memory
mod Tests
use text.Mathlib.Text.{◌==◌}
use polkadot_confidential_of.Base.{
  ℕ, ◌*◌, ◌^◌, String, Option, none, some, List, [], ◌∷◌, map, Ended, returned, failed, panicked,
  if◌then◌else◌,
}
use polkadot_confidential_of.Runtime.{existential_deposit}

pub record Keys : Type 1 where
  pub AccountId : Type 0
  pub AuraId : Type 0
  pub get_account_id_from_seed : String → AccountId
  pub get_collator_keys_from_seed : String → AuraId
  pub xcm_version : ℕ

-- `1u128 << 60`
abbrev pub endowment : ℕ
endowment = 2 ^ 60

abbrev pub seeds : List String
seeds =
    "Alice" ∷ "Bob" ∷ "Charlie" ∷ "Dave" ∷ "Eve" ∷ "Ferdie" ∷ "Alice//stash" ∷ "Bob//stash"
    ∷ "Charlie//stash" ∷ "Dave//stash" ∷ "Eve//stash" ∷ "Ferdie//stash" ∷ []

module _ (k : Keys) where
  open k use {AccountId, AuraId, get_account_id_from_seed, get_collator_keys_from_seed, xcm_version}

  pub record SessionKeys : Type 0 where
    pub aura : AuraId

  -- The fields of `RuntimeGenesisConfig` that the code sets; the others are the defaults.
  pub record GenesisConfig : Type 0 where
    pub balances : List (AccountId × ℕ)
    pub parachain_id : ℕ
    pub invulnerables : List AccountId
    pub candidacy_bond : ℕ
    pub keys : List (AccountId × AccountId × SessionKeys)
    pub safe_xcm_version : Option ℕ
    pub sudo_key : Option AccountId

  abbrev pub template_session_keys : AuraId → SessionKeys
  template_session_keys keys = record { aura = keys }

  -- The configuration that `testnet_genesis` builds.
  unfoldable pub testnet_config :
      List (AccountId × AuraId) → List AccountId → AccountId → ℕ → GenesisConfig
  testnet_config invulnerables endowed_accounts root id = record {
    balances = map (λ a. (a, endowment)) endowed_accounts;
    parachain_id = id;
    invulnerables = map (λ c. c.0) invulnerables;
    candidacy_bond = existential_deposit * 16;
    keys = map (λ c. (c.0, c.0, template_session_keys c.1)) invulnerables;
    safe_xcm_version = some xcm_version;
    sudo_key = some root;
  }

  abbrev pub collator : String → AccountId × AuraId
  collator seed = (get_account_id_from_seed seed, get_collator_keys_from_seed seed)

  -- sp-genesis-builder's names of the two presets, and serde_json's conversions.
  pub record Serde : Type 1 where
    pub Value : Type 0
    pub dev : String
    pub local_testnet : String
    pub to_value : GenesisConfig → Option Value
    pub to_text : Value → Option (List ℕ)

  module _ (serde : Serde) where
    open serde use {Value, dev, local_testnet, to_value, to_text}

    pub expect_value : {A : Type 0} → Option A → String → Ended ⊥ A
    expect_value none msg = panicked msg
    expect_value (some a) msg = returned a

    testnet_genesis : List (AccountId × AuraId) → List AccountId → AccountId → ℕ → Ended ⊥ Value
    unfolding testnet_config expect_value
    testnet_genesis invulnerables endowed_accounts root id =
        expect_value (to_value (testnet_config invulnerables endowed_accounts root id))
          "Could not build genesis config."

    pub local_testnet_genesis : Ended ⊥ Value
    unfolding testnet_genesis
    local_testnet_genesis =
        testnet_genesis (collator "Alice" ∷ collator "Bob" ∷ [])
          (map get_account_id_from_seed seeds) (get_account_id_from_seed "Alice") 1000

    pub development_config_genesis : Ended ⊥ Value
    unfolding testnet_genesis
    development_config_genesis =
        testnet_genesis (collator "Alice" ∷ collator "Bob" ∷ [])
          (map get_account_id_from_seed seeds) (get_account_id_from_seed "Alice") 1000

    -- The end of `get_preset`, after the match on the name.
    serialize : Ended ⊥ Value → Ended ⊥ (Option (List ℕ))
    unfolding expect_value
    serialize (returned patch) =
        elim (expect_value (to_text patch) "serialization to json is expected to work. qed.") [
          | returned text ↦ returned (some text)
          | failed e ↦ failed e
          | panicked msg ↦ panicked msg
        ]
    serialize (failed e) = failed e
    serialize (panicked msg) = panicked msg

    unfoldable pub get_preset : String → Ended ⊥ (Option (List ℕ))
    unfolding serialize local_testnet_genesis development_config_genesis
    get_preset id =
        if id == local_testnet
        then serialize local_testnet_genesis
        else if id == dev
        then serialize development_config_genesis
        else returned none

    unfoldable pub preset_names : List String
    preset_names = dev ∷ local_testnet ∷ []
