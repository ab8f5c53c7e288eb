-- ===== src/Node/Service.antt =====
-- node/src/service.rs: the parts of the service. The libraries' answers are the parameter
-- `Libraries`.
mod Tests
pub mod Start
pub mod Plan
pub mod Order
pub mod Answers
pub mod Liveness
use polkadot_confidential_of.Base.{
  ℕ, ◌^◌, ◌%◌, Bool, true, false, String, Option, none, some, List, [], ◌∷◌, Exec, Ended, returned,
  pure, map_err, modify, ◌++◌,
}
use polkadot_confidential_of.Node.{
  ◌>>=◌, ◌>>◌, HeapAllocStrategy, default_strategy, static, Action, make_telemetry_worker,
  make_full_parts, make_pool, make_import_queue, spawn, Trace, call, call_on, Platform,
  Configuration,
}

-- `ParachainExecutor`, as the builder is told to make it; the options hold the execution method,
-- the number of instances and the size of the cache.
pub record Executor (p : Platform) : Type 0 where
  pub options : p.ExecutorOptions
  pub onchain_heap_alloc_strategy : HeapAllocStrategy
  pub offchain_heap_alloc_strategy : HeapAllocStrategy

-- sc-service's `PartialComponents`; the block import stands on the client and the backend.
pub record Components (p : Platform) : Type 0 where
  pub backend : p.Backend
  pub client : p.Client
  pub import_queue : p.ImportQueue
  pub keystore_container : p.Keystore
  pub task_manager : p.TaskManager
  pub transaction_pool : p.TransactionPool
  pub block_import : p.Client × p.Backend
  pub telemetry : Option p.Telemetry
  pub telemetry_worker_handle : Option p.TelemetryWorker

-- What the libraries answer to the calls of `new_partial`. An answer is also how a call panics.
pub record Libraries (p : Platform) : Type 1 where
  pub TelemetryError : Type 0
  pub telemetry_error : TelemetryError → p.Error
  pub telemetry_worker : ℕ → Trace → Ended TelemetryError p.TelemetryWorker
  pub new_telemetry : p.TelemetryWorker → List p.Endpoint → p.Telemetry
  pub full_parts :
      Configuration p
      → Option p.Telemetry
      → Executor p
      → Bool
      → Trace
      → Ended p.Error (p.Client × p.Backend × p.Keystore × p.TaskManager)
  pub basic_pool :
      p.PoolOptions
      → Bool
      → Option p.Registry
      → p.TaskManager
      → p.Client
      → Trace
      → Ended p.Error p.TransactionPool
  pub verifying_import_queue :
      p.Client
      → p.Client × p.Backend
      → p.TaskManager
      → Option p.Registry
      → Option p.Telemetry
      → Trace
      → Ended p.Error p.ImportQueue

-- `.filter(|x| !x.is_empty())`
abbrev pub non_empty : {A : Type 0} → Option (List A) → Option (List A)
non_empty none = none
non_empty (some []) = none
non_empty (some (x ∷ xs)) = some (x ∷ xs)

-- `h as _` cuts the `u64` of the configuration to the `u32` of the strategy.
unfoldable pub heap_pages : Option ℕ → HeapAllocStrategy
heap_pages none = default_strategy
heap_pages (some h) = static (h % 2 ^ 32)

module _ (p : Platform) (lib : Libraries p) where
  open p use {
    Error, Client, Backend, TaskManager, ImportQueue, Telemetry, TelemetryWorker, Endpoint,
  }

  pub executor : Configuration p → Executor p
  unfolding heap_pages
  executor config = record {
    options = config.executor;
    onchain_heap_alloc_strategy = heap_pages config.default_heap_pages;
    offchain_heap_alloc_strategy = heap_pages config.default_heap_pages;
  }

  unfoldable pub start_telemetry :
      Option (List Endpoint) → Exec Trace lib.TelemetryError (Option (TelemetryWorker × Telemetry))
  start_telemetry none = pure none
  start_telemetry (some endpoints) = do
    worker ← call (make_telemetry_worker 16) (lib.telemetry_worker 16)
    pure (some (worker, lib.new_telemetry worker endpoints))

  abbrev pub telemetry_of : Option (TelemetryWorker × Telemetry) → Option Telemetry
  telemetry_of none = none
  telemetry_of (some t) = some t.1

  abbrev pub worker_of : Option (TelemetryWorker × Telemetry) → Option TelemetryWorker
  worker_of none = none
  worker_of (some t) = some t.0

  -- The worker of the telemetry runs as a task.
  unfoldable pub spawn_telemetry :
      Option (TelemetryWorker × Telemetry) → Exec Trace Error (Unit {0})
  spawn_telemetry none = pure tt
  spawn_telemetry (some t) = modify (λ acts. acts ++ spawn false "telemetry" none ∷ [])

  unfoldable pub build_import_queue :
      Client
      → Client × Backend
      → Configuration p
      → Option Telemetry
      → TaskManager
      → Exec Trace Error ImportQueue
  build_import_queue client block_import config telemetry task_manager = call make_import_queue (
      lib.verifying_import_queue client block_import task_manager config.prometheus_registry
        telemetry)

  unfoldable pub new_partial : Configuration p → Exec Trace Error (Components p)
  unfolding heap_pages executor start_telemetry spawn_telemetry build_import_queue
  new_partial config = do
    started ← map_err lib.telemetry_error (start_telemetry (non_empty config.telemetry_endpoints))
    parts ←
        call (make_full_parts (heap_pages config.default_heap_pages) true)
          (lib.full_parts config (telemetry_of started) (executor config) true)
    let (client, backend, keystore, task_manager) = parts
    spawn_telemetry started
    pool ←
        call_on make_pool
          (λ authority.
            lib.basic_pool config.transaction_pool authority config.prometheus_registry task_manager
              client)
          config.is_authority
    queue ← build_import_queue client (client, backend) config (telemetry_of started) task_manager
    pure (record {
      backend = backend;
      client = client;
      import_queue = queue;
      keystore_container = keystore;
      task_manager = task_manager;
      transaction_pool = pool;
      block_import = (client, backend);
      telemetry = telemetry_of started;
      telemetry_worker_handle = worker_of started;
    })
