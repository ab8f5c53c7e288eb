-- ===== src/Node/Command/Driver.antt =====
-- What `run` of node/src/command.rs uses: the runner of sc-cli, what the commands do, and the creation
-- of the relay chain's configuration.
use polkadot_confidential_of.Base.{String, Option, Exec, Ended, Result}
use polkadot_confidential_of.Node.{Trace, Platform, Configuration}
use polkadot_confidential_of.Node.Service.Start.{Network}
use polkadot_confidential_of.Node.Command.{Commands, Subcommand}
use polkadot_confidential_of.Node.Command.RelayChain.{CliTypes, CliConfiguration}

pub record Driver (p : Platform) (c : Commands) (t : CliTypes p) (net : Network p) : Type 1 where
  pub service_error : p.Error → t.Error  -- `Into::into`
  pub input : String → t.Error
  pub config_of : Subcommand c → Trace → Ended t.Error (Configuration p)
  pub normalize : c.RunCmd → c.RunCmd
  pub node_config_of : c.RunCmd → Trace → Ended t.Error (Configuration p)
  pub collator_options : c.RunCmd → net.CollatorOptions
  pub executable_name : String
  pub create_configuration : CliConfiguration t → Trace → Ended String (Configuration p)
  pub hwbench : p.FilePath → Trace → Ended t.Error net.HwBench
  pub chain_of : c.ExportGenesisWasmCommand → Option String
  pub from_json_file : String → Result p.ChainSpec String
  pub run_build_spec :
      c.BuildSpecCmd → p.ChainSpec → p.NetworkOptions → Trace → Ended t.Error (Unit {0})
  pub run_check_block :
      c.CheckBlockCmd → p.Client → p.ImportQueue → Trace → Ended t.Error (Unit {0})
  pub run_export_blocks :
      c.ExportBlocksCmd → p.Client → p.DatabaseSource → Trace → Ended t.Error (Unit {0})
  pub run_export_state :
      c.ExportStateCmd → p.Client → p.ChainSpec → Trace → Ended t.Error (Unit {0})
  pub run_import_blocks :
      c.ImportBlocksCmd → p.Client → p.ImportQueue → Trace → Ended t.Error (Unit {0})
  pub run_revert : c.RevertCmd → p.Client → p.Backend → Trace → Ended t.Error (Unit {0})
  pub run_purge_chain :
      c.PurgeChainCmd → Configuration p → Configuration p → Trace → Ended t.Error (Unit {0})
  pub run_export_genesis_head :
      c.ExportGenesisHeadCommand → p.Client → Trace → Ended t.Error (Unit {0})
  pub run_export_genesis_wasm :
      c.ExportGenesisWasmCommand → p.ChainSpec → Trace → Ended t.Error (Unit {0})
  pub run_pallet : c.PalletCmd → p.ChainSpec → Trace → Ended t.Error (Unit {0})
  pub run_block : c.BlockCmd → p.Client → Trace → Ended t.Error (Unit {0})
  pub run_storage :
      c.StorageCmd → Configuration p → p.Client → p.Backend → Trace → Ended t.Error (Unit {0})
  pub run_machine : c.MachineCmd → Configuration p → Trace → Ended t.Error (Unit {0})
  -- The runner that `create_runner` makes, for its configuration.
  pub sync_run :
      Configuration p
      → (Configuration p → Exec Trace t.Error (Unit {0}))
      → Exec Trace t.Error (Unit {0})
  pub async_run :
      Configuration p
      → (Configuration p → Exec Trace t.Error (Exec Trace t.Error (Unit {0}) × p.TaskManager))
      → Exec Trace t.Error (Unit {0})
  pub run_node_until_exit :
      Configuration p
      → (Configuration p → Exec Trace t.Error p.TaskManager)
      → Exec Trace t.Error (Unit {0})
