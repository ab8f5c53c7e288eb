-- ===== src/Node/Command/Memory.antt =====
-- Commands that are numbers, and a driver that answers every call, for the examples.
use polkadot_confidential_of.Base.{
  ℕ, String, true, false, none, some, [], returned, failed, panicked, Ended, Exec, pure, ok, err,
}
use polkadot_confidential_of.Node.{◌>>=◌, Trace}
use polkadot_confidential_of.Node.Memory.{number_platform, number_network, collator_config}
use polkadot_confidential_of.Node.Command.{Commands, Cli}
use polkadot_confidential_of.Node.Command.RelayChain.{
  CliTypes, CliConfiguration, RelayLibrary, RelayChainCli,
}
use polkadot_confidential_of.Node.Command.Driver.{Driver}
use polkadot_confidential_of.Node.Command.Subcommands.{AsyncRun, before_future, finished}

abbrev pub number_types : CliTypes number_platform
number_types = record {
  Error = String;
  SharedParams = ℕ;
  ImportParams = ℕ;
  NetworkParams = ℕ;
  KeystoreParams = ℕ;
  RpcEndpoint = ℕ;
  PrometheusConfig = ℕ;
  Role = ℕ;
  RpcMethods = ℕ;
}

abbrev pub plain_configuration : CliConfiguration number_types
plain_configuration = record {
  shared_params = 0;
  import_params = none;
  network_params = none;
  keystore_params = none;
  base_path = ok none;
  rpc_addr = λ port. ok none;
  prometheus_config = λ port spec. ok none;
  init = returned tt;
  chain_id = λ dev. ok "";
  role = λ dev. ok 0;
  transaction_pool = λ dev. ok 0;
  trie_cache_maximum_size = ok none;
  rpc_methods = ok 0;
  rpc_max_connections = ok 100;
  rpc_cors = λ dev. ok none;
  default_heap_pages = ok none;
  force_authoring = ok false;
  disable_grandpa = ok false;
  max_runtime_instances = ok none;
  announce_block = ok true;
  telemetry_endpoints = λ spec. ok none;
  node_name = ok "relay";
}

abbrev pub plain_relay : RelayLibrary number_types
plain_relay = record {
  RunCmd = ℕ;
  configuration = λ base. plain_configuration;
  parse_from = λ args. returned 5;
  shared_base_path = λ params. ok none;
  join = λ path name. path;
}

abbrev pub plain_cli : RelayChainCli plain_relay
plain_cli = record { base = 5; chain_id = some "rococo-local"; base_path = some "/data" }

abbrev pub number_commands : Commands
number_commands = record {
  BuildSpecCmd = ℕ;
  CheckBlockCmd = ℕ;
  ExportBlocksCmd = ℕ;
  ExportStateCmd = ℕ;
  ImportBlocksCmd = ℕ;
  RevertCmd = ℕ;
  PurgeChainCmd = ℕ;
  ExportGenesisHeadCommand = ℕ;
  ExportGenesisWasmCommand = ℕ;
  PalletCmd = ℕ;
  BlockCmd = ℕ;
  StorageCmd = ℕ;
  MachineCmd = ℕ;
  OtherBenchmarkCmd = ℕ;
  RunCmd = ℕ;
}

abbrev pub plain_driver : Driver number_platform number_commands number_types number_network
plain_driver = record {
  service_error = λ e. e;
  input = λ e. e;
  config_of = λ cmd t. returned collator_config;
  normalize = λ cmd. cmd;
  node_config_of = λ cmd t. returned collator_config;
  collator_options = λ cmd. 0;
  executable_name = "node";
  create_configuration = λ cli t. returned collator_config;
  hwbench = λ path t. returned 3;
  chain_of = λ cmd. none;
  from_json_file = λ path. err "not found";
  run_build_spec = λ cmd spec network t. returned tt;
  run_check_block = λ cmd client queue t. returned tt;
  run_export_blocks = λ cmd client path t. returned tt;
  run_export_state = λ cmd client spec t. returned tt;
  run_import_blocks = λ cmd client queue t. returned tt;
  run_revert = λ cmd client backend t. returned tt;
  run_purge_chain = λ cmd config polkadot_config t. returned tt;
  run_export_genesis_head = λ cmd client t. returned tt;
  run_export_genesis_wasm = λ cmd spec t. returned tt;
  run_pallet = λ cmd spec t. returned tt;
  run_block = λ cmd client t. returned tt;
  run_storage = λ cmd config client backend t. returned tt;
  run_machine = λ cmd config t. returned tt;
  sync_run = λ config code. code config;
  async_run = λ config code. code config >>= λ made. made.0;
  run_node_until_exit = λ config code. code config >>= λ tm. pure tt;
}

-- The hardware benchmarks are switched off.
abbrev pub quiet_cli : Cli number_commands
quiet_cli = record {
  subcommand = none;
  run = 0;
  no_hardware_benchmarks = true;
  relay_chain_args = [];
}

abbrev pub RunnerResult : Type 0
RunnerResult = Ended String (Exec Trace String (Unit {0}) × number_platform.TaskManager) × Trace

-- The runner of `plain_driver` runs the future to its end.
pub plain_runs :
    (r : RunnerResult) (t : Trace) → AsyncRun r (((λ (u : Trace). r) >>= λ made. made.0) t).1
unfolding ◌>>=◌
plain_runs (returned (future, a), u) t = finished
plain_runs (failed e, u) t = before_future
plain_runs (panicked msg, u) t = before_future
