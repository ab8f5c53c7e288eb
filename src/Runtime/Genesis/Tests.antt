-- ===== src/Runtime/Genesis/Tests.antt =====
-- Witnesses of the laws of the genesis presets, with seeds in place of keys.
use polkadot_confidential_of.Base.{◌≡◌, String, some, List, [], ◌∷◌, map, All}
use mathlib.Core.List.{Memᴰ}
use polkadot_confidential_of.Runtime.Genesis.{
  GenesisConfig, seeds, expect_value, collator, local_testnet_genesis, development_config_genesis,
}
use polkadot_confidential_of.Runtime.Genesis.Memory.{seed_keys, plain_serde}
use polkadot_confidential_of.Runtime.Genesis.Laws.{IsConsistent}
use polkadot_confidential_of.Runtime.Genesis.Accepted.{Separates, IsAccepted, presets_agree}

everywhere : {A : Type 0} {P : A → Type 0} → ((a : A) → P a) → (as' : List A) → All P as'
everywhere p [] = tt
everywhere p (a ∷ as') = (p a, everywhere p as')

plain-Separates : (names : List String) → Separates (λ name. name) names
plain-Separates names = everywhere (λ name. everywhere (λ other same. same) names) names

presets_agree_example :
    (c : GenesisConfig seed_keys) × (local_testnet_genesis seed_keys plain_serde
      ≡ expect_value seed_keys plain_serde (some c) "Could not build genesis config.")
    × (development_config_genesis seed_keys plain_serde
        ≡ local_testnet_genesis seed_keys plain_serde)
    × IsConsistent seed_keys (collator seed_keys "Alice" ∷ collator seed_keys "Bob" ∷ []) c
    × IsAccepted seed_keys c
    × All (λ a. Memᴰ a (map (λ b. b.0) c.balances)) c.invulnerables
    × ((root : String) × (c.sudo_key ≡ some root) × Memᴰ root (map (λ b. b.0) c.balances))
    × (c.parachain_id ≡ 1000)
presets_agree_example =
    presets_agree seed_keys plain_serde (plain-Separates seeds) (plain-Separates seeds)
