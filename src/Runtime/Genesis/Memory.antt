-- ===== src/Runtime/Genesis/Memory.antt =====
-- Seeds in place of keys, and a serializer that keeps the parachain id, for the examples.
use polkadot_confidential_of.Base.{String, some, [], ◌∷◌}
use polkadot_confidential_of.Runtime.Genesis.{Keys, GenesisConfig, Serde}

abbrev pub seed_keys : Keys
seed_keys = record {
  AccountId = String;
  AuraId = String;
  get_account_id_from_seed = λ seed. seed;
  get_collator_keys_from_seed = λ seed. seed;
  xcm_version = 4;
}

abbrev pub plain_serde : Serde seed_keys
plain_serde = record {
  Value = GenesisConfig seed_keys;
  dev = "development";
  local_testnet = "local_testnet";
  to_value = λ c. some c;
  to_text = λ c. some (c.parachain_id ∷ []);
}
