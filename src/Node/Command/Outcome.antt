-- ===== src/Node/Command/Outcome.antt =====
-- How the command line ends: chain specifications by name, the relay chain's configuration, and the
-- start of a node.
use text.Mathlib.TextEquality.{eq_iff}
use text.Mathlib.TextPositions.{eq_refl}
use polkadot_confidential_of.Base.{
  ◌≡◌, ◌≢◌, ◌↔◌, refl, ap, String, Bool, none, some, List, [], ◌∷◌, All, Exec, Ended, returned,
  failed, panicked, Result, ok, err, arith,
}
use polkadot_confidential_of.Node.{◌>>=◌, Trace, Platform, Configuration}
use polkadot_confidential_of.Node.ChainSpec.{
  SpecLibrary, Extensions, development_config, local_testnet_config, try_get,
}
use polkadot_confidential_of.Node.Command.{load_spec, built_in}
use polkadot_confidential_of.Node.Command.RelayChain.{
  CliTypes, RelayLibrary, RelayChainCli, new_relay_chain_cli, relay_configuration, relay_chain_of,
}

built_in-ne-failed : {A : Type 0} (r : Ended ⊥ A) (e : String) → built_in r ≢ failed e
built_in-ne-failed (returned a) e = cc
built_in-ne-failed (failed x) e = elim x [ ]
built_in-ne-failed (panicked msg) e = cc

-- A chain specification cannot be loaded exactly if its id is none of the four built-in ones and
-- the file that it names cannot be read; the error is the one of the file.
pub load_spec-eq-failed_iff :
    {ChainSpec : Type 0} (lib : SpecLibrary ChainSpec)
    (from_json_file : String → Result ChainSpec String) (id e : String)
    → (load_spec lib from_json_file id ≡ failed e) ↔ (
        (from_json_file id ≡ err e)
        × All (λ n. id ≢ n) ("dev" ∷ "template-rococo" ∷ "" ∷ "local" ∷ []))
unfolding load_spec
load_spec-eq-failed_iff lib from_json_file id e = ground (
  arith,
  eq_iff id "dev",
  eq_iff id "template-rococo",
  eq_iff id "",
  eq_iff id "local",
  built_in-ne-failed (development_config lib) e,
  built_in-ne-failed (local_testnet_config lib) e,
)

module _ {p : Platform} {c : CliTypes p} (lib : RelayLibrary c) (spec : SpecLibrary p.ChainSpec)
    (config : Configuration p) (args : List String) (cli : RelayChainCli lib) where
  new-fields :
      new_relay_chain_cli lib spec config args ≡ returned cli
      → (lib.parse_from args ≡ returned cli.base)
        × (cli.chain_id ≡ relay_chain_of lib (try_get spec config.chain_spec))
        × (cli.base_path ≡ some (lib.join config.base_path "polkadot"))
  unfolding new_relay_chain_cli
  new-fields made = by_base (lib.parse_from args) refl
    where
      by_base :
          (r : Ended ⊥ lib.RunCmd)
          → lib.parse_from args ≡ r
          → (lib.parse_from args ≡ returned cli.base)
            × (cli.chain_id ≡ relay_chain_of lib (try_get spec config.chain_spec))
            × (cli.base_path ≡ some (lib.join config.base_path "polkadot"))
      by_base (returned base) h = ground arith
      by_base (failed e) h = elim e [ ]
      by_base (panicked msg) h = ground arith

  -- The relay chain configuration that is made from a parachain configuration with an extension
  -- takes its own base path and chain id if there are any, else a path below the one of the
  -- parachain and the relay chain of the extension; its role is the one that its own arguments
  -- say.
  pub new-configuration :
      (e : Extensions)
      → new_relay_chain_cli lib spec config args ≡ returned cli
      → try_get spec config.chain_spec ≡ some e
      → let own = lib.configuration cli.base in
        let made = relay_configuration lib cli in
        (lib.shared_base_path own.shared_params ≡ ok none
          → made.base_path ≡ ok (some (lib.join config.base_path "polkadot")))
        × ((path : p.FilePath)
            → lib.shared_base_path own.shared_params ≡ ok (some path)
            → made.base_path ≡ ok (some path))
        × ((dev : Bool) → own.chain_id dev ≡ ok "" → made.chain_id dev ≡ ok e.relay_chain)
        × ((dev : Bool) (id : String)
            → own.chain_id dev ≡ ok id
            → id ≢ ""
            → made.chain_id dev ≡ ok id)
        × ((dev : Bool) → made.role dev ≡ own.role dev)
  unfolding relay_configuration
  new-configuration e made found =
      let (parsed, chain, base) = new-fields made in
      (
        λ h. ground arith,
        λ path h. ground arith,
        λ dev h. ground (arith, eq_refl ""),
        λ dev id h other. ground (arith, eq_iff id ""),
        λ dev. refl,
      )

module _ {E A B : Type 0} where
  -- A chain that returned: its first part returned, and the rest did from there.
  pub bind-returned :
      (m : Exec Trace E A) (f : A → Exec Trace E B) (t : Trace) (b : B) (v : Trace)
      → (m >>= f) t ≡ (returned b, v)
      → (a : A) × (u : Trace) × (m t ≡ (returned a, u)) × (f a u ≡ (returned b, v))
  unfolding ◌>>=◌
  bind-returned m f t b v h = by_end (m t).0 refl
    where
      by_end :
          (r : Ended E A)
          → (m t).0 ≡ r
          → (a : A) × (u : Trace) × (m t ≡ (returned a, u)) × (f a u ≡ (returned b, v))
      by_end (returned a) e = (a, (m t).1, ap (λ r. (r, (m t).1)) e, ground arith)
      by_end (failed x) e = ground arith
      by_end (panicked msg) e = ground arith
