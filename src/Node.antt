-- ===== src/Node.antt =====
-- The collator node, node/src: what its parts share. The node only drives client libraries. Each
-- call of a library is an action that is written to the trace, and its result is an answer of the
-- environment, which may depend on all that was done before.
pub mod ChainSpec
pub mod Memory
pub mod Rpc
pub mod Command
pub mod Traces
pub mod Returns
pub mod Extends
pub mod Service
use polkadot_confidential_of.Base.{
  ℕ, Bool, String, Option, List, [], ◌∷◌, ◌++◌, Exec, Ended, returned, failed, panicked,
}

-- sc-executor's `HeapAllocStrategy`, as far as the node makes one.
pub data HeapAllocStrategy : Type 0 where
  default_strategy : HeapAllocStrategy
  static : ℕ → HeapAllocStrategy

-- cumulus' `DARecoveryProfile`, as far as the node makes one.
pub data DaRecoveryProfile : Type 0 where
  collator : DaRecoveryProfile
  full_node : DaRecoveryProfile

pub data Action : Type 0 where
  make_telemetry_worker : (buffer : ℕ) → Action
  make_full_parts : (heap_pages : HeapAllocStrategy) (record_import : Bool) → Action
  make_pool : (authority : Bool) → Action
  make_import_queue : Action
  spawn : (essential : Bool) (name : String) (group : Option String) → Action
  connect_relay_chain : Action
  make_network : (para_id : ℕ) → Action
  make_offchain_workers : (is_validator : Bool) (enable_http_requests : Bool) → Action
  spawn_tasks : Action
  print_hwbench : Action
  warn_hardware : Action
  take_overseer : Action
  start_relay_tasks : (para_id : ℕ) (profile : DaRecoveryProfile) (slot_millis : ℕ) → Action
  make_aura : (para_id : ℕ) (slot_millis : ℕ) (authoring_millis : ℕ) (reinitialize : Bool) → Action
  start_network : Action
  make_runner : Action
  run_command : (name : String) → Action
  make_database_path : Action
  gather_hwbench : Action
  make_relay_configuration : Action
  log_collating : (authority : Bool) → Action

abbrev pub Trace : Type 0
Trace = List Action

-- A call of a library.
abbrev pub call : {E A : Type 0} → Action → (Trace → Ended E A) → Exec Trace E A
call act answer t = (answer t, t ++ act ∷ [])

-- A call whose action names some of its arguments.
abbrev pub call_on : {E A X : Type 0} → (X → Action) → (X → Trace → Ended E A) → X → Exec Trace E A
call_on act answer x = call (act x) (answer x)

-- The sequencing of `Exec` again, for long chains: it computes only where it is unfolded.
infixl 5 ◌>>=◌ ◌>>◌
unfoldable pub ◌>>=◌ : {E A B : Type 0} → Exec Trace E A → (A → Exec Trace E B) → Exec Trace E B
◌>>=◌ m f t = elim (m t).0 [
  | returned a ↦ f a (m t).1
  | failed e ↦ (failed e, (m t).1)
  | panicked msg ↦ (panicked msg, (m t).1)
]

abbrev pub ◌>>◌ : {E A B : Type 0} → Exec Trace E A → Exec Trace E B → Exec Trace E B
m >> k = m >>= λ _. k

-- The types of the libraries that the node passes around.
pub record Platform : Type 1 where
  pub ChainSpec : Type 0
  pub FilePath : Type 0
  pub DatabaseSource : Type 0
  pub database_path : DatabaseSource → Option FilePath  -- `DatabaseSource::path`
  pub Endpoint : Type 0
  pub ExecutorOptions : Type 0
  pub PoolOptions : Type 0
  pub NetworkOptions : Type 0
  pub Registry : Type 0
  pub Error : Type 0  -- sc-service's
  pub Client : Type 0
  pub Backend : Type 0
  pub Keystore : Type 0
  pub TaskManager : Type 0
  pub TransactionPool : Type 0
  pub ImportQueue : Type 0
  pub TelemetryWorker : Type 0
  pub Telemetry : Type 0

-- The fields of sc-service's `Configuration` that the node reads.
pub record Configuration (p : Platform) : Type 0 where
  pub chain_spec : p.ChainSpec
  pub base_path : p.FilePath
  pub database : p.DatabaseSource
  pub telemetry_endpoints : Option (List p.Endpoint)
  pub default_heap_pages : Option ℕ
  pub executor : p.ExecutorOptions
  pub transaction_pool : p.PoolOptions
  pub network : p.NetworkOptions
  pub prometheus_registry : Option p.Registry
  pub is_authority : Bool
  pub offchain_worker_enabled : Bool
