-- ===== src/Node/Command/Interface.antt =====
-- The two implementations of sc-cli's `SubstrateCli` in node/src/command.rs. What the build sets
-- (`env!`), the name of the executable and the command line of the relay chain are parameters.
use Prim.Native.String.{◌++◌}
use polkadot_confidential_of.Base.{ℕ, String, List, [], ◌∷◌, Result, Ended}
use polkadot_confidential_of.Node.ChainSpec.{SpecLibrary}
use polkadot_confidential_of.Node.Command.{load_spec}

-- The methods of `SubstrateCli` that the node implements. `LoadSpec` is the type of `load_spec`.
pub record SubstrateCli (LoadSpec : Type 0) : Type 0 where
  pub impl_name : String
  pub impl_version : String
  pub description : String
  pub author : String
  pub support_url : String
  pub copyright_start_year : ℕ
  pub load_spec : LoadSpec

module _ (substrate_cli_impl_version cargo_pkg_authors executable_name : String) where
  abbrev pub description : String
  description =
      "Parachain Collator Template\n\nThe command-line arguments provided first will be passed to the parachain node, while the arguments provided after -- will be passed to the relay chain node.\n\n"
      ++ executable_name ++ " <parachain-args> -- <relay-chain-args>"

  -- Both commands have the same texts.
  abbrev pub interface : {LoadSpec : Type 0} → LoadSpec → SubstrateCli LoadSpec
  interface load_spec = record {
    impl_name = "Parachain Collator Template";
    impl_version = substrate_cli_impl_version;
    description = description;
    author = cargo_pkg_authors;
    support_url = "https://github.com/paritytech/polkadot-sdk/issues/new";
    copyright_start_year = 2020;
    load_spec = load_spec;
  }

  module _ {ChainSpec : Type 0} where
    -- `impl SubstrateCli for Cli`
    abbrev pub cli_interface :
        SpecLibrary ChainSpec
        → (String → Result ChainSpec String)
        → SubstrateCli (String → Ended String ChainSpec)
    cli_interface lib from_json_file = interface (load_spec lib from_json_file)

    -- `impl SubstrateCli for RelayChainCli`: specifications are those of polkadot-cli's command line
    -- for the arguments.
    abbrev pub relay_interface :
        (List String → String → Ended String ChainSpec)
        → SubstrateCli (String → Ended String ChainSpec)
    relay_interface polkadot_cli = interface (polkadot_cli (executable_name ∷ []))
