-- ===== src/Node/Memory.antt =====
-- Libraries in memory that answer every call, for the examples: a platform of numbers, whose chain
-- specifications are their extensions and settings.
use polkadot_confidential_of.Base.{
  Option, ℕ, refl, String, true, false, none, some, List, [], ◌∷◌, returned,
}
use polkadot_confidential_of.Node.{Platform, Configuration}
use polkadot_confidential_of.Node.ChainSpec.{
  Extensions, extensions, Setting, SpecLibrary, SpecLaws, last_properties,
}
use polkadot_confidential_of.Node.Service.{Libraries}
use polkadot_confidential_of.Node.Service.Start.{Network}

abbrev pub number_platform : Platform
number_platform = record {
  ChainSpec = Extensions × List Setting;
  FilePath = String;
  DatabaseSource = Option String;
  database_path = λ d. d;
  Endpoint = ℕ;
  ExecutorOptions = ℕ;
  PoolOptions = ℕ;
  NetworkOptions = ℕ;
  Registry = ℕ;
  Error = String;
  Client = ℕ;
  Backend = ℕ;
  Keystore = ℕ;
  TaskManager = ℕ;
  TransactionPool = ℕ;
  ImportQueue = ℕ;
  TelemetryWorker = ℕ;
  Telemetry = ℕ;
}

abbrev pub number_specs : SpecLibrary (Extensions × List Setting)
number_specs = record {
  Wasm = ℕ;
  wasm_binary = some 7;
  dev_preset = "development";
  local_testnet_preset = "local_testnet";
  build = λ wasm e settings. (e, settings);
  get_extension = λ c. some c.0;
  properties = λ c. last_properties [] c.1;
}

pub number_specs-SpecLaws : SpecLaws number_specs
number_specs-SpecLaws = record {
  extension_kept = λ w e settings. refl;
  properties_kept = λ w e settings. refl;
}

abbrev pub number_libraries : Libraries number_platform
number_libraries = record {
  TelemetryError = String;
  telemetry_error = λ e. e;
  telemetry_worker = λ buffer t. returned buffer;
  new_telemetry = λ worker endpoints. worker;
  full_parts = λ config telemetry executor record_import t. returned (1, 2, 3, 4);
  basic_pool = λ options authority registry task_manager client t. returned 5;
  verifying_import_queue = λ client block_import task_manager registry telemetry t. returned 6;
}

abbrev pub number_network : Network number_platform
number_network = record {
  CollatorOptions = ℕ;
  HwBench = ℕ;
  Relay = ℕ;
  CollatorPair = ℕ;
  NetworkParts = ℕ;
  Overseer = ℕ;
  Proposer = ℕ;
  RelayError = String;
  application = λ e. e;
  prepare_node_config = λ config. config;
  relay_chain_interface =
      λ polkadot config worker task_manager options hwbench t. returned (8, some 9);
  build_network = λ config client pool para_id task_manager relay queue t. returned 10;
  offchain_workers = λ client keystore backend pool network validator http t. returned tt;
  spawn_all = λ config params network t. returned tt;
  meets_reference = λ hwbench. false;
  overseer_handle = λ relay t. returned 11;
  relay_chain_tasks =
      λ client para_id relay task_manager profile queue slot overseer network t. returned tt;
  new_proposer = λ task_manager client pool registry telemetry. 12;
  aura = λ params relay key para_id overseer slot proposer network t. returned tt;
}

-- A collator with one telemetry endpoint, whose database stands at a path.
abbrev pub collator_config : Configuration number_platform
collator_config = record {
  chain_spec = (extensions, []);
  base_path = "/data";
  database = some "/data/db";
  telemetry_endpoints = some (1 ∷ []);
  default_heap_pages = some 2048;
  executor = 0;
  transaction_pool = 0;
  network = 0;
  prometheus_registry = none;
  is_authority = true;
  offchain_worker_enabled = true;
}
