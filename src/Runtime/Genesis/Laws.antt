-- ===== src/Runtime/Genesis/Laws.antt =====
-- What holds of every genesis configuration, and the names of the two presets.
use text.Mathlib.TextEquality.{eq_iff}
use text.Mathlib.TextPositions.{eq_refl}
use mathlib.Core.List.{map-map}
use polkadot_confidential_of.Base.{
  ℕ, ◌*◌, ◌^◌, ◌<◌, ◌≤◌, ◌≡◌, ◌≢◌, ◌↔◌, refl, String, none, some, List, [], ◌∷◌, map, Ended,
  returned, failed, panicked, sum, length, All, arith, Option-cases, inl, inr,
}
use polkadot_confidential_of.Runtime.{existential_deposit}
use polkadot_confidential_of.Runtime.Genesis.{
  Keys, GenesisConfig, Serde, endowment, testnet_config, collator, seeds, expect_value,
  local_testnet_genesis, development_config_genesis, serialize, get_preset, preset_names,
}

module _ (k : Keys) where
  open k use {AccountId, AuraId}

  -- What a genesis configuration must be for the chain to start: each invulnerable has session
  -- keys under its own account and validator id, with the consensus key that came with it.
  pub record IsConsistent (collators : List (AccountId × AuraId)) (c : GenesisConfig k)
      : Type 0 where
    pub accounts : map (λ e. e.0) c.keys ≡ c.invulnerables
    pub validators : map (λ e. e.1) c.keys ≡ c.invulnerables
    pub auras : map (λ e. e.2.aura) c.keys ≡ map (λ e. e.1) collators

  -- Each invulnerable collator of a genesis configuration has session keys under its own account
  -- and validator id, with the consensus key that came with it.
  pub testnet_config-IsConsistent :
      (collators : List (AccountId × AuraId)) (endowed : List AccountId) (root : AccountId) (id : ℕ)
      → IsConsistent collators (testnet_config k collators endowed root id)
  unfolding testnet_config
  testnet_config-IsConsistent collators endowed root id = record {
    accounts = map-map _ _ collators;
    validators = map-map _ _ collators;
    auras = map-map _ _ collators;
  }

  issued :
      (endowed : List AccountId)
      → sum (map {A = AccountId × ℕ} (λ b. b.1) (map (λ a. (a, endowment)) endowed))
        ≡ length endowed * 2 ^ 60
  issued [] = refl
  issued (a ∷ rest) = omega (arith, issued rest)

  -- Fewer than 2 ^ 68 endowed accounts get 2 ^ 60 each, which is no less than the existential
  -- deposit, and their sum fits a u128.
  pub testnet_config-issuance :
      (collators : List (AccountId × AuraId)) (endowed : List AccountId) (root : AccountId) (id : ℕ)
      → length endowed < 2 ^ 68
      → let total = sum (map (λ b. b.1) (testnet_config k collators endowed root id).balances) in
        (total ≡ length endowed * 2 ^ 60)
        × (total < 2 ^ 128)
        × All (λ b. existential_deposit ≤ b.1) (testnet_config k collators endowed root id).balances
  unfolding testnet_config
  testnet_config-issuance collators endowed root id few =
      (issued endowed, omega (arith, issued endowed), above endowed)
    where
      above :
          (as' : List AccountId)
          → All {A = AccountId × ℕ} (λ b. existential_deposit ≤ b.1) (map (λ a. (a, endowment)) as')
      above [] = tt
      above (a ∷ rest) = (omega arith, above rest)

  -- The configuration of both presets.
  abbrev pub preset_config : GenesisConfig k
  preset_config =
      testnet_config k (collator k "Alice" ∷ collator k "Bob" ∷ [])
        (map k.get_account_id_from_seed seeds) (k.get_account_id_from_seed "Alice") 1000

  module _ (serde : Serde k) where
    open serde use {dev, local_testnet, to_value, to_text}

    -- Both genesis presets are `preset_config`.
    pub presets_made :
        (local_testnet_genesis k serde
          ≡ expect_value k serde (to_value preset_config) "Could not build genesis config.")
        × (development_config_genesis k serde ≡ local_testnet_genesis k serde)
    unfolding local_testnet_genesis development_config_genesis testnet_config
    presets_made = (refl, refl)

    serialize-ne-none : (g : Ended ⊥ serde.Value) → serialize k serde g ≢ returned none
    unfolding serialize
    serialize-ne-none (returned v) = ground arith
    serialize-ne-none (failed e) = cc
    serialize-ne-none (panicked m) = cc

    serialize_total :
        (c : GenesisConfig k) (msg : String)
        → to_value c ≢ none
        → ((v : serde.Value) → to_text v ≢ none)
        → (t : List ℕ) × (serialize k serde (expect_value k serde (to_value c) msg)
            ≡ returned (some t))
    unfolding serialize expect_value
    serialize_total c msg values texts = elim (Option-cases (to_value c)) [
      | inl bad ↦ absurd (values bad)
      | inr (v, good) ↦ elim (Option-cases (to_text v)) [
        | inl bad ↦ absurd (texts v bad)
        | inr (t, shown) ↦ (t, ground arith)
      ]
    ]

    -- There is no preset for a name exactly if the name is not listed.
    pub get_preset-eq-none_iff :
        (id : String)
        → (get_preset k serde id ≡ returned none) ↔ All (λ n. id ≢ n) (preset_names k serde)
    unfolding get_preset preset_names
    get_preset-eq-none_iff id = ground (
      arith,
      eq_iff id local_testnet,
      eq_iff id dev,
      serialize-ne-none (local_testnet_genesis k serde),
      serialize-ne-none (development_config_genesis k serde),
    )

    -- If the configuration can be made a value and values a text, every preset that is listed
    -- has a text.
    pub get_preset-listed :
        ((c : GenesisConfig k) → to_value c ≢ none)
        → ((v : serde.Value) → to_text v ≢ none)
        → All
            (λ n. (t : List ℕ) × (get_preset k serde n ≡ returned (some t)))
            (preset_names k serde)
    unfolding get_preset preset_names
    get_preset-listed values texts =
        let (made, same) = presets_made in
        let (t, shown) =
          serialize_total preset_config "Could not build genesis config." (values preset_config)
            texts in
        let at_local : get_preset k serde local_testnet ≡ returned (some t) =
          ground (arith, eq_refl local_testnet, made, shown) in
        let at_dev : get_preset k serde dev ≡ returned (some t) =
          ground (arith, eq_refl dev, same, made, shown) in
        ((t, at_dev), ((t, at_local), tt))
