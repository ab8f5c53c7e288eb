-- ===== src/Runtime/Genesis/Accepted.antt =====
-- What the pallets demand of a genesis configuration, and that of the two presets.
use mathlib.Core.List.{Memᴰ, map-map, map-id}
use mathlib.Core.Path.{subst}
use polkadot_confidential_of.Base.{
  ℕ, ◌^◌, ◌<◌, ◌≤◌, ◌≡◌, ◌≢◌, refl, sym, ◌∙◌, some, List, [], ◌∷◌, map, sum, length, All,
  All-weaken, arith, codes, ap,
}
use polkadot_confidential_of.Runtime.{existential_deposit}
use polkadot_confidential_of.Runtime.Collators.{max_invulnerables, max_authorities}
use polkadot_confidential_of.Runtime.Genesis.{
  Keys, GenesisConfig, Serde, testnet_config, collator, seeds, expect_value, local_testnet_genesis,
  development_config_genesis,
}
use polkadot_confidential_of.Runtime.Genesis.Laws.{
  IsConsistent, testnet_config-IsConsistent, testnet_config-issuance, preset_config, presets_made,
}

-- No two elements are equal.
abbrev pub IsDistinct : {A : Type 0} → List A → Type 0
IsDistinct [] = Unit
IsDistinct (a ∷ as') = All (λ b. a ≢ b) as' × IsDistinct as'

-- Different elements have different images.
abbrev pub Separates : {A B : Type 0} → (A → B) → List A → Type 0
Separates f as' = All (λ a. All (λ b. f a ≡ f b → a ≡ b) as') as'

IsDistinct-map :
    {A B : Type 0} (f : A → B) (as' : List A)
    → Separates f as'
    → IsDistinct as'
    → IsDistinct (map f as')
IsDistinct-map f [] separated once = tt
IsDistinct-map {A} {B} f (a ∷ as') ((_, here), separated) (others, once) = (
  apart as' here others,
  IsDistinct-map f as' (All-weaken _ _ (λ b all. all.1) as' separated) once,
)
  where
    apart :
        (bs : List A)
        → All (λ b. f a ≡ f b → a ≡ b) bs
        → All (λ b. a ≢ b) bs
        → All (λ c. f a ≢ c) (map f bs)
    apart [] same ne = tt
    apart (b ∷ bs) (same, rest) (ne, others') = (λ e. ne (same e), apart bs rest others')

IsDistinct-reflects :
    {A B : Type 0} (f : A → B) (as' : List A) → IsDistinct (map f as') → IsDistinct as'
IsDistinct-reflects f [] once = tt
IsDistinct-reflects {A} f (a ∷ as') (others, once) =
    (apart as' others, IsDistinct-reflects f as' once)
  where
    apart : (bs : List A) → All (λ c. f a ≢ c) (map f bs) → All (λ b. a ≢ b) bs
    apart [] ne = tt
    apart (b ∷ bs) (ne, rest) = (λ e. ne (ap f e), apart bs rest)

codes-IsDistinct : IsDistinct (map codes seeds)
codes-IsDistinct = ground arith

seeds-IsDistinct : IsDistinct seeds
seeds-IsDistinct = IsDistinct-reflects codes seeds codes-IsDistinct

module _ (k : Keys) where
  open k use {AccountId, AuraId}

  -- What the genesis builds of pallet-balances, pallet-collator-selection, pallet-session and
  -- pallet-aura assert, in their order.
  pub record IsAccepted (c : GenesisConfig k) : Type 0 where
    pub endowed_once : IsDistinct (map (λ b. b.0) c.balances)
    pub endowed_enough : All (λ b. existential_deposit ≤ b.1) c.balances
    pub issued : sum (map (λ b. b.1) c.balances) < 2 ^ 128
    pub collators_once : IsDistinct c.invulnerables
    pub collators_few : length c.invulnerables ≤ max_invulnerables
    pub keys_once : IsDistinct (map (λ e. e.2.aura) c.keys)
    pub authorities : (0 < length c.keys) × (length c.keys ≤ max_authorities)

  length-map : {A B : Type 0} (f : A → B) (as' : List A) → length (map f as') ≡ length as'
  length-map f [] = refl
  length-map f (a ∷ as') = ground (arith, length-map f as')

  endowed-accounts :
      (collators : List (AccountId × AuraId)) (endowed : List AccountId) (root : AccountId) (id : ℕ)
      → map (λ b. b.0) (testnet_config k collators endowed root id).balances ≡ endowed
  unfolding testnet_config
  endowed-accounts collators endowed root id = map-map _ _ endowed ∙ map-id endowed

  lengths :
      (collators : List (AccountId × AuraId)) (endowed : List AccountId) (root : AccountId) (id : ℕ)
      → let c = testnet_config k collators endowed root id in
        (length c.invulnerables ≡ length collators) × (length c.keys ≡ length collators)
  unfolding testnet_config
  lengths collators endowed root id = (length-map _ collators, length-map _ collators)

  invulnerable-accounts :
      (collators : List (AccountId × AuraId)) (endowed : List AccountId) (root : AccountId) (id : ℕ)
      → (testnet_config k collators endowed root id).invulnerables ≡ map (λ c. c.0) collators
  unfolding testnet_config
  invulnerable-accounts collators endowed root id = refl

  -- The pallets accept a genesis configuration for at most twenty collators, at least one, and
  -- fewer than 2 ^ 68 endowed accounts if no account or consensus key comes twice.
  pub testnet_config-IsAccepted :
      (collators : List (AccountId × AuraId)) (endowed : List AccountId) (root : AccountId) (id : ℕ)
      → IsDistinct endowed
      → length endowed < 2 ^ 68
      → IsDistinct (map (λ c. c.0) collators)
      → IsDistinct (map (λ c. c.1) collators)
      → 0 < length collators
      → length collators ≤ max_invulnerables
      → IsAccepted (testnet_config k collators endowed root id)
  testnet_config-IsAccepted collators endowed root id once few accounts auras some_collator
        at_most =
      let (_, fits, enough) = testnet_config-issuance k collators endowed root id few in
      let (invulnerables, keys) = lengths collators endowed root id in
      let consistent = testnet_config-IsConsistent k collators endowed root id in
      record {
        endowed_once = subst IsDistinct (sym (endowed-accounts collators endowed root id)) once;
        endowed_enough = enough;
        issued = fits;
        collators_once =
            subst IsDistinct (sym (invulnerable-accounts collators endowed root id)) accounts;
        collators_few = omega (arith, invulnerables, at_most);
        keys_once = subst IsDistinct (sym consistent.auras) auras;
        authorities = (omega (arith, keys, some_collator), omega (arith, keys, at_most));
      }

  -- If different seeds of the presets give different accounts and consensus keys, both genesis
  -- presets are one configuration for parachain 1000 that the genesis builds of the pallets
  -- accept: no account is endowed twice and each holds the existential deposit, all of them
  -- together less than 2 ^ 128, and the collators and their keys are different and no more than
  -- the runtime allows. The collators have their session keys and an endowment, and the sudo
  -- account is endowed.
  pub presets_agree :
      (serde : Serde k)
      → Separates k.get_account_id_from_seed seeds
      → Separates k.get_collator_keys_from_seed seeds
      → (c : GenesisConfig k) × (local_testnet_genesis k serde
          ≡ expect_value k serde (serde.to_value c) "Could not build genesis config.")
        × (development_config_genesis k serde ≡ local_testnet_genesis k serde)
        × IsConsistent k (collator k "Alice" ∷ collator k "Bob" ∷ []) c
        × IsAccepted c
        × All (λ a. Memᴰ a (map (λ b. b.0) c.balances)) c.invulnerables
        × ((root : AccountId) × (c.sudo_key ≡ some root) × Memᴰ root (map (λ b. b.0) c.balances))
        × (c.parachain_id ≡ 1000)
  unfolding testnet_config
  presets_agree serde accounts auras =
      let (made, same) = presets_made k serde in
      let once = IsDistinct-map k.get_account_id_from_seed seeds accounts seeds-IsDistinct in
      let keys_once = IsDistinct-map k.get_collator_keys_from_seed seeds auras seeds-IsDistinct in
      (
        preset_config k,
        made,
        same,
        testnet_config-IsConsistent k _ (map k.get_account_id_from_seed seeds) _ _,
        testnet_config-IsAccepted (collator k "Alice" ∷ collator k "Bob" ∷ [])
            (map k.get_account_id_from_seed seeds) _ _ once (omega arith) ((once.0.0, tt), (tt, tt))
            ((keys_once.0.0, tt), (tt, tt)) (omega arith) (omega arith),
        (Memᴰ.head refl, (Memᴰ.tail (Memᴰ.head refl), tt)),
        (k.get_account_id_from_seed "Alice", refl, Memᴰ.head refl),
        refl,
      )
