-- ===== src/Node/Command.antt =====
-- node/src/cli.rs and node/src/command.rs: the command line. The parsed arguments of the client
-- libraries' own commands, and what the commands do, are parameters.
pub mod Interface
pub mod RelayChain
pub mod Driver
pub mod Run
pub mod Outcome
pub mod Parts
pub mod Start
pub mod Subcommands
pub mod Launch
pub mod Memory
mod Tests
use text.Mathlib.Text.{◌==◌}
use polkadot_confidential_of.Base.{
  String, Option, none, some, List, [], ◌∷◌, Ended, returned, failed, panicked, Result, ok, err,
  if◌then◌else◌, Bool, ◌||◌,
}
use polkadot_confidential_of.Node.ChainSpec.{SpecLibrary, development_config, local_testnet_config}

-- A built-in specification: its construction has no error of its own.
abbrev pub built_in : {A : Type 0} → Ended ⊥ A → Ended String A
built_in (returned a) = returned a
built_in (failed e) = elim e [ ]
built_in (panicked msg) = panicked msg

abbrev pub from_file : {A : Type 0} → Result A String → Ended String A
from_file (ok a) = returned a
from_file (err e) = failed e

-- `from_json_file` reads a specification from a path.
unfoldable pub load_spec :
    {ChainSpec : Type 0}
    → SpecLibrary ChainSpec
    → (String → Result ChainSpec String)
    → String
    → Ended String ChainSpec
load_spec lib from_json_file id =
    if id == "dev"
    then built_in (development_config lib)
    else if id == "template-rococo"
    then built_in (local_testnet_config lib)
    else if (id == "") || (id == "local")
    then built_in (local_testnet_config lib)
    else from_file (from_json_file id)

-- The commands of `Subcommand`, with their parsed arguments.
pub record Commands : Type 1 where
  pub BuildSpecCmd : Type 0
  pub CheckBlockCmd : Type 0
  pub ExportBlocksCmd : Type 0
  pub ExportStateCmd : Type 0
  pub ImportBlocksCmd : Type 0
  pub RevertCmd : Type 0
  pub PurgeChainCmd : Type 0
  pub ExportGenesisHeadCommand : Type 0
  pub ExportGenesisWasmCommand : Type 0
  pub PalletCmd : Type 0
  pub BlockCmd : Type 0
  pub StorageCmd : Type 0
  pub MachineCmd : Type 0
  pub OtherBenchmarkCmd : Type 0
  pub RunCmd : Type 0

module _ (c : Commands) where
  open c use {
    BuildSpecCmd, CheckBlockCmd, ExportBlocksCmd, ExportStateCmd, ImportBlocksCmd, RevertCmd,
    PurgeChainCmd, ExportGenesisHeadCommand, ExportGenesisWasmCommand, PalletCmd, BlockCmd,
    StorageCmd, MachineCmd, OtherBenchmarkCmd, RunCmd,
  }

  -- frame-benchmarking-cli's `BenchmarkCmd`.
  pub data BenchmarkCmd : Type 0 where
    pallet : PalletCmd → BenchmarkCmd
    block : BlockCmd → BenchmarkCmd
    storage : StorageCmd → BenchmarkCmd
    machine : MachineCmd → BenchmarkCmd
    other : OtherBenchmarkCmd → BenchmarkCmd

  pub data Subcommand : Type 0 where
    build_spec : BuildSpecCmd → Subcommand
    check_block : CheckBlockCmd → Subcommand
    export_blocks : ExportBlocksCmd → Subcommand
    export_state : ExportStateCmd → Subcommand
    import_blocks : ImportBlocksCmd → Subcommand
    revert : RevertCmd → Subcommand
    purge_chain : PurgeChainCmd → Subcommand
    export_genesis_head : ExportGenesisHeadCommand → Subcommand
    export_genesis_wasm : ExportGenesisWasmCommand → Subcommand
    benchmark : BenchmarkCmd → Subcommand

  pub record Cli : Type 0 where
    pub subcommand : Option Subcommand
    pub run : RunCmd
    pub no_hardware_benchmarks : Bool
    pub relay_chain_args : List String
