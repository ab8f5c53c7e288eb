-- ===== src/Node/Service/Answers.antt =====
-- The assumption that every library answers.
use polkadot_confidential_of.Base.{ℕ, ◌≡◌, Bool, true, Option, some, returned}
use polkadot_confidential_of.Node.{DaRecoveryProfile, Trace, Platform, Configuration}
use polkadot_confidential_of.Node.Returns.{Answered}
use polkadot_confidential_of.Node.Service.{Components, Executor, Libraries}
use polkadot_confidential_of.Node.Service.Start.{Network}

-- Every library answers, and the relay chain gives an authority the key of a collator.
pub record AllAnswer (p : Platform) (lib : Libraries p) (net : Network p) : Type 0 where
  pub worker : (n : ℕ) (t : Trace) → Answered (lib.telemetry_worker n t)
  pub parts :
      (config : Configuration p) (telemetry : Option p.Telemetry) (e : Executor p) (b : Bool)
      (t : Trace)
      → Answered (lib.full_parts config telemetry e b t)
  pub pool :
      (o : p.PoolOptions) (b : Bool) (r : Option p.Registry) (tm : p.TaskManager) (c : p.Client)
      (t : Trace)
      → Answered (lib.basic_pool o b r tm c t)
  pub queue :
      (c : p.Client) (i : p.Client × p.Backend) (tm : p.TaskManager) (r : Option p.Registry)
      (telemetry : Option p.Telemetry) (t : Trace)
      → Answered (lib.verifying_import_queue c i tm r telemetry t)
  pub relay :
      (polkadot config : Configuration p) (w : Option p.TelemetryWorker) (tm : p.TaskManager)
      (o : net.CollatorOptions) (hwbench : Option net.HwBench) (t : Trace)
      → (r : net.Relay) × (k : Option net.CollatorPair) × (net.relay_chain_interface polkadot config
            w tm o hwbench t
          ≡ returned (r, k))
        × (config.is_authority ≡ true → (key : net.CollatorPair) × (k ≡ some key))
  pub network :
      (config : Configuration p) (c : p.Client) (tp : p.TransactionPool) (id : ℕ)
      (tm : p.TaskManager) (r : net.Relay) (q : p.ImportQueue) (t : Trace)
      → Answered (net.build_network config c tp id tm r q t)
  pub workers :
      (c : p.Client) (k : p.Keystore) (b : p.Backend) (tp : p.TransactionPool)
      (n : net.NetworkParts) (v http : Bool) (t : Trace)
      → Answered (net.offchain_workers c k b tp n v http t)
  pub tasks :
      (config : Configuration p) (params : Components p) (n : net.NetworkParts) (t : Trace)
      → Answered (net.spawn_all config params n t)
  pub overseer : (r : net.Relay) (t : Trace) → Answered (net.overseer_handle r t)
  pub relay_tasks :
      (c : p.Client) (id : ℕ) (r : net.Relay) (tm : p.TaskManager) (profile : DaRecoveryProfile)
      (q : p.ImportQueue) (slot : ℕ) (o : net.Overseer) (n : net.NetworkParts) (t : Trace)
      → Answered (net.relay_chain_tasks c id r tm profile q slot o n t)
  pub consensus :
      (params : Components p) (r : net.Relay) (k : net.CollatorPair) (id : ℕ) (o : net.Overseer)
      (slot : ℕ) (proposer : net.Proposer) (n : net.NetworkParts) (t : Trace)
      → Answered (net.aura params r k id o slot proposer n t)
