-- ===== src/Node/Service/Start.antt =====
-- node/src/service.rs: the consensus, and the start of a whole node.
use polkadot_confidential_of.Base.{
  ℕ, Bool, true, false, Option, none, some, [], ◌∷◌, ◌++◌, Exec, Ended, pure, map_err, expect,
  modify, if◌then◌else◌,
}
use polkadot_confidential_of.Node.{
  ◌>>=◌, ◌>>◌, DaRecoveryProfile, collator, full_node, spawn, connect_relay_chain, make_network,
  make_offchain_workers, spawn_tasks, print_hwbench, warn_hardware, take_overseer,
  start_relay_tasks, make_aura, start_network, Trace, call, call_on, Platform, Configuration,
}
use polkadot_confidential_of.Node.Service.{Components, Libraries, new_partial}

-- What else the node uses: the relay chain, the network, the offchain workers, the RPC server,
-- the hardware check and the consensus.
pub record Network (p : Platform) : Type 1 where
  pub CollatorOptions : Type 0
  pub HwBench : Type 0
  pub Relay : Type 0
  pub CollatorPair : Type 0
  pub NetworkParts : Type 0  -- the network, its controllers and its sync service
  pub Overseer : Type 0
  pub Proposer : Type 0
  pub RelayError : Type 0
  pub application : RelayError → p.Error  -- `Error::Application(Box::new(e))`
  pub prepare_node_config : Configuration p → Configuration p
  pub relay_chain_interface :
      Configuration p
      → Configuration p
      → Option p.TelemetryWorker
      → p.TaskManager
      → CollatorOptions
      → Option HwBench
      → Trace
      → Ended RelayError (Relay × Option CollatorPair)
  pub build_network :
      Configuration p
      → p.Client
      → p.TransactionPool
      → ℕ
      → p.TaskManager
      → Relay
      → p.ImportQueue
      → Trace
      → Ended p.Error NetworkParts
  pub offchain_workers :
      p.Client
      → p.Keystore
      → p.Backend
      → p.TransactionPool
      → NetworkParts
      → Bool
      → Bool
      → Trace
      → Ended p.Error (Unit {0})
  pub spawn_all : Configuration p → Components p → NetworkParts → Trace → Ended p.Error (Unit {0})
  pub meets_reference : HwBench → Bool  -- `check_hardware` of the reference hardware
  pub overseer_handle : Relay → Trace → Ended RelayError Overseer
  pub relay_chain_tasks :
      p.Client
      → ℕ
      → Relay
      → p.TaskManager
      → DaRecoveryProfile
      → p.ImportQueue
      → ℕ
      → Overseer
      → NetworkParts
      → Trace
      → Ended p.Error (Unit {0})
  pub new_proposer :
      p.TaskManager
      → p.Client
      → p.TransactionPool
      → Option p.Registry
      → Option p.Telemetry
      → Proposer
  pub aura :
      Components p
      → Relay
      → CollatorPair
      → ℕ
      → Overseer
      → ℕ
      → Proposer
      → NetworkParts
      → Trace
      → Ended p.Error (Unit {0})

abbrev pub relay_chain_slot_duration : ℕ
relay_chain_slot_duration = 6000

module _ (p : Platform) (lib : Libraries p) (net : Network p) where
  open p use {Error, Client, TaskManager, Registry, Telemetry}
  open net use {CollatorOptions, HwBench, Relay, CollatorPair, NetworkParts, Overseer}

  -- The future of the consensus is made, and spawned as an essential task.
  unfoldable pub start_consensus :
      Components p
      → Option Registry
      → Relay
      → ℕ
      → ℕ
      → CollatorPair
      → Overseer
      → NetworkParts
      → Exec Trace Error (Unit {0})
  start_consensus params registry relay slot para_id collator_key overseer announce_block = do
    let proposer =
        net.new_proposer params.task_manager params.client params.transaction_pool registry
          params.telemetry
    call_on (λ (id, slot_millis). make_aura id slot_millis 2000 false)
        (λ (id, slot_millis).
          net.aura params relay collator_key id overseer slot_millis proposer announce_block)
        (para_id, slot)
    modify (λ acts. acts ++ spawn true "aura" none ∷ [])

  unfoldable pub start_offchain_workers :
      Configuration p → Components p → NetworkParts → Exec Trace Error (Unit {0})
  start_offchain_workers config params network =
      if config.offchain_worker_enabled
      then (do
        call_on (λ (validator, http). make_offchain_workers validator http)
            (λ (validator, http).
              net.offchain_workers params.client params.keystore_container params.backend
                params.transaction_pool network validator http)
            (config.is_authority, false)
        modify (λ acts. acts ++ spawn false "offchain-workers-runner" (some "offchain-work") ∷ []))
      else pure tt

  unfoldable pub report_telemetry : Option Telemetry → Exec Trace Error (Unit {0})
  report_telemetry none = pure tt
  report_telemetry (some t) = modify (λ acts. acts ++ spawn false "telemetry_hwbench" none ∷ [])

  unfoldable pub report_hardware :
      Bool → Option HwBench → Option Telemetry → Exec Trace Error (Unit {0})
  unfolding report_telemetry
  report_hardware validator none telemetry = pure tt
  report_hardware validator (some hwbench) telemetry = do
    modify (λ acts. acts ++ print_hwbench ∷ [])
    if net.meets_reference hwbench
        then pure tt
        else (if validator then modify (λ acts. acts ++ warn_hardware ∷ []) else pure tt)
    report_telemetry telemetry

  -- Everything before the network is started.
  unfoldable pub prepare_parachain_node :
      Configuration p
      → Configuration p
      → CollatorOptions
      → ℕ
      → Option HwBench
      → Exec Trace Error (TaskManager × Client)
  unfolding start_consensus start_offchain_workers report_hardware
  prepare_parachain_node config polkadot_config collator_options para_id hwbench = do
    params ← new_partial p lib config
    relay_parts ← map_err net.application (
        call connect_relay_chain (
          net.relay_chain_interface polkadot_config config params.telemetry_worker_handle
            params.task_manager collator_options hwbench))
    let (relay, collator_key) = relay_parts
    network ←
        call_on make_network
          (λ id.
            net.build_network config params.client params.transaction_pool id params.task_manager
              relay params.import_queue)
          para_id
    start_offchain_workers config params network
    call spawn_tasks (net.spawn_all config params network)
    report_hardware config.is_authority hwbench params.telemetry
    overseer ← map_err net.application (call take_overseer (net.overseer_handle relay))
    let profile = if config.is_authority then collator else full_node
    call_on (λ (id, da_profile, slot). start_relay_tasks id da_profile slot)
        (λ (id, da_profile, slot).
          net.relay_chain_tasks params.client id relay params.task_manager da_profile
            params.import_queue slot overseer network)
        (para_id, profile, relay_chain_slot_duration)
    if config.is_authority
        then (do
          key ← expect collator_key "Command line arguments do not allow this. qed"
          start_consensus params config.prometheus_registry relay relay_chain_slot_duration para_id
              key overseer network)
        else pure tt
    pure (params.task_manager, params.client)

  unfoldable pub start_parachain_node :
      Configuration p
      → Configuration p
      → CollatorOptions
      → ℕ
      → Option HwBench
      → Exec Trace Error (TaskManager × Client)
  unfolding prepare_parachain_node
  start_parachain_node parachain_config polkadot_config collator_options para_id hwbench = do
    let config = net.prepare_node_config parachain_config
    started ← prepare_parachain_node config polkadot_config collator_options para_id hwbench
    modify (λ acts. acts ++ start_network ∷ [])
    pure started
