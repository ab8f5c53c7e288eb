-- ===== src/Node/Service/Plan.antt =====
-- The plan of a node of node/src/service.rs: the actions of its start, in their order.
use mathlib.Core.Path.{subst}
use polkadot_confidential_of.Base.{
  ℕ, ◌≡◌, refl, sym, ◌∙◌, Bool, true, false, Option, none, some, List, [], ◌∷◌, ◌++◌, append-nil,
  Exec, pure, expect, if◌then◌else◌,
}
use polkadot_confidential_of.Node.{
  ◌>>=◌, collator, full_node, make_telemetry_worker, make_full_parts, make_pool, make_import_queue,
  spawn, connect_relay_chain, make_network, make_offchain_workers, spawn_tasks, print_hwbench,
  warn_hardware, take_overseer, start_relay_tasks, make_aura, Trace, Platform, Configuration,
}
use polkadot_confidential_of.Node.Traces.{
  Does, pure-Does, panic-Does, call-Does, modify-Does, bind-Does, map_err-Does, when-Does,
  unless-Does, Any,
}
use polkadot_confidential_of.Node.Service.{
  Components, Libraries, non_empty, heap_pages, start_telemetry, spawn_telemetry,
  build_import_queue, new_partial, telemetry_of,
}
use polkadot_confidential_of.Node.Service.Start.{
  Network, relay_chain_slot_duration, start_consensus, start_offchain_workers, report_telemetry,
  report_hardware, prepare_parachain_node,
}

abbrev pub if_some : {A : Type 0} → Option A → Trace → Trace
if_some none acts = []
if_some (some a) acts = acts

abbrev pub joined : List Trace → Trace
joined [] = []
joined (acts ∷ rest) = acts ++ joined rest

-- The telemetry worker comes first, and its task starts once there is a task manager.
abbrev pub partial_parts : {p : Platform} → Configuration p → List Trace
partial_parts config =
    let telemetry = non_empty config.telemetry_endpoints in
    if_some telemetry (make_telemetry_worker 16 ∷ [])
    ∷ (make_full_parts (heap_pages config.default_heap_pages) true ∷ [])
    ∷ if_some telemetry (spawn false "telemetry" none ∷ [])
    ∷ (make_pool config.is_authority ∷ [])
    ∷ (make_import_queue ∷ [])
    ∷ []

abbrev pub partial_plan : {p : Platform} → Configuration p → Trace
partial_plan config = joined (partial_parts config)

module _ (p : Platform) (lib : Libraries p) where
  -- The components have telemetry exactly if the configuration names an endpoint.
  abbrev pub HasTelemetry : Configuration p → Components p → Type 0
  HasTelemetry config params =
      (acts : Trace)
      → if_some params.telemetry acts ≡ if_some (non_empty config.telemetry_endpoints) acts

  -- A plan may be written without its empty end.
  Same : Option (List p.Endpoint) → Option (p.TelemetryWorker × p.Telemetry) → Type 0
  Same endpoints s = (acts : Trace) → if_some s acts ≡ if_some endpoints acts

  started :
      (endpoints : Option (List p.Endpoint))
      → Does
          (Same endpoints)
          (start_telemetry p lib endpoints)
          (if_some endpoints (make_telemetry_worker 16 ∷ []))
  unfolding start_telemetry Same
  started none = pure-Does (Same none) none (λ acts. refl)
  started (some endpoints) =
      bind-Does (call-Does (make_telemetry_worker 16) (lib.telemetry_worker 16)) λ worker h.
        pure-Does (Same (some endpoints)) (some (worker, lib.new_telemetry worker endpoints))
          (λ acts. refl)

  spawned :
      (s : Option (p.TelemetryWorker × p.Telemetry)) (endpoints : Option (List p.Endpoint))
      → Same endpoints s
      → Does Any (spawn_telemetry p lib s) (if_some endpoints (spawn false "telemetry" none ∷ []))
  unfolding spawn_telemetry Same
  spawned none endpoints same =
      subst (Does Any (spawn_telemetry p lib none)) (same _) (pure-Does Any tt tt)
  spawned (some s) endpoints same =
      subst (Does Any (spawn_telemetry p lib (some s))) (same _)
        (modify-Does (spawn false "telemetry" none ∷ []))

  carried :
      (s : Option (p.TelemetryWorker × p.Telemetry)) (endpoints : Option (List p.Endpoint))
      → Same endpoints s
      → (acts : Trace) → if_some (telemetry_of p lib s) acts ≡ if_some endpoints acts
  unfolding Same
  carried none endpoints same = same
  carried (some s) endpoints same = same

  -- However the libraries answer, the parts of a node are made in a fixed order, each call only
  -- after those before it; the telemetry and its task exist exactly if the configuration names
  -- an endpoint.
  pub new_partial-Does :
      (config : Configuration p)
      → Does (HasTelemetry config) (new_partial p lib config) (partial_plan config)
  unfolding new_partial build_import_queue Same
  new_partial-Does config =
      bind-Does (map_err-Does lib.telemetry_error (started (non_empty config.telemetry_endpoints)))
        λ s same. bind-Does (call-Does _ _) λ parts _.
          bind-Does (spawned s (non_empty config.telemetry_endpoints) same) λ _ _.
            bind-Does (call-Does _ _) λ pool _. bind-Does (call-Does _ _) λ queue _.
              pure-Does (HasTelemetry config) _
                (carried s (non_empty config.telemetry_endpoints) same)

module _ {p : Platform} (net : Network p) where
  abbrev pub offchain_plan : Configuration p → Trace
  offchain_plan config =
      if config.offchain_worker_enabled
      then (make_offchain_workers config.is_authority false
          ∷ spawn false "offchain-workers-runner" (some "offchain-work")
          ∷ [])
      else []

  -- Only an authority is warned.
  abbrev pub hardware_parts : Configuration p → net.HwBench → List Trace
  hardware_parts config hwbench =
      (print_hwbench ∷ [])
      ∷ (if net.meets_reference hwbench
          then []
          else (if config.is_authority then warn_hardware ∷ [] else []))
      ∷ if_some (non_empty config.telemetry_endpoints) (spawn false "telemetry_hwbench" none ∷ [])
      ∷ []

  abbrev pub hardware_plan : Configuration p → Option net.HwBench → Trace
  hardware_plan config none = []
  hardware_plan config (some hwbench) = joined (hardware_parts config hwbench)

  abbrev pub consensus_plan : Configuration p → ℕ → Trace
  consensus_plan config para_id =
      if config.is_authority
      then make_aura para_id relay_chain_slot_duration 2000 false ∷ spawn true "aura" none ∷ []
      else []

  abbrev pub node_parts : Configuration p → ℕ → Option net.HwBench → List Trace
  node_parts config para_id hwbench =
      partial_plan config
      ∷ (connect_relay_chain ∷ [])
      ∷ (make_network para_id ∷ [])
      ∷ offchain_plan config
      ∷ (spawn_tasks ∷ [])
      ∷ hardware_plan config hwbench
      ∷ (take_overseer ∷ [])
      ∷ (start_relay_tasks para_id (if config.is_authority then collator else full_node)
            relay_chain_slot_duration
          ∷ [])
      ∷ consensus_plan config para_id
      ∷ []

  abbrev pub node_plan : Configuration p → ℕ → Option net.HwBench → Trace
  node_plan config para_id hwbench = joined (node_parts config para_id hwbench)

module _ (p : Platform) (lib : Libraries p) (net : Network p) where
  offchain_workers-Does :
      (config : Configuration p) (params : Components p) (network : net.NetworkParts)
      → Does Any (start_offchain_workers p lib net config params network) (offchain_plan net config)
  unfolding start_offchain_workers
  offchain_workers-Does config params network = when-Does config.offchain_worker_enabled (
      bind-Does (call-Does (make_offchain_workers config.is_authority false) _)
        λ _ _. modify-Does (spawn false "offchain-workers-runner" (some "offchain-work") ∷ []))

  consensus-Does :
      (params : Components p) (registry : Option p.Registry) (relay : net.Relay) (para_id : ℕ)
      (key : net.CollatorPair) (overseer : net.Overseer) (network : net.NetworkParts)
      → Does Any
          (start_consensus p lib net params registry relay relay_chain_slot_duration para_id key
            overseer network)
          (make_aura para_id relay_chain_slot_duration 2000 false ∷ spawn true "aura" none ∷ [])
  unfolding start_consensus
  consensus-Does params registry relay para_id key overseer network =
      bind-Does (call-Does (make_aura para_id relay_chain_slot_duration 2000 false) _)
        λ _ _. modify-Does (spawn true "aura" none ∷ [])

  telemetry-Does :
      (telemetry : Option p.Telemetry)
      → Does Any
          (report_telemetry p lib net telemetry)
          (if_some telemetry (spawn false "telemetry_hwbench" none ∷ []))
  unfolding report_telemetry
  telemetry-Does none = pure-Does Any tt tt
  telemetry-Does (some t) = modify-Does (spawn false "telemetry_hwbench" none ∷ [])

  hardware-Does :
      (config : Configuration p) (params : Components p)
      → HasTelemetry p lib config params
      → (hwbench : Option net.HwBench)
      → Does Any
          (report_hardware p lib net config.is_authority hwbench params.telemetry)
          (hardware_plan net config hwbench)
  unfolding report_hardware
  hardware-Does config params has none = pure-Does Any tt tt
  hardware-Does config params has (some hwbench) =
      bind-Does (modify-Does (print_hwbench ∷ [])) λ _ _.
        bind-Does
          (unless-Does (net.meets_reference hwbench)
            (when-Does config.is_authority (modify-Does (warn_hardware ∷ []))))
          λ _ _.
            subst (Does Any (report_telemetry p lib net params.telemetry))
              (has _ ∙ sym (append-nil _)) (telemetry-Does params.telemetry)

  keyed :
      (b : Bool) (key : Option net.CollatorPair)
      {f : net.CollatorPair → Exec Trace p.Error (Unit {0})} {acts : Trace}
      → ((k : net.CollatorPair) → Does Any (f k) acts)
      → Does Any
          (if b then expect key "Command line arguments do not allow this. qed" >>= f else pure tt)
          (if b then acts else [])
  keyed true none done =
      bind-Does (panic-Does Any "Command line arguments do not allow this. qed" []) λ k _. done k
  keyed true (some k) done = bind-Does (pure-Does Any k tt) λ k' _. done k'
  keyed false key done = pure-Does Any tt tt

  pub prepare-Does :
      (config polkadot_config : Configuration p) (options : net.CollatorOptions) (para_id : ℕ)
      (hwbench : Option net.HwBench)
      → Does Any
          (prepare_parachain_node p lib net config polkadot_config options para_id hwbench)
          (node_plan net config para_id hwbench)
  unfolding prepare_parachain_node
  prepare-Does config polkadot_config options para_id hwbench =
      bind-Does (new_partial-Does p lib config) λ params has.
        bind-Does (map_err-Does net.application (call-Does connect_relay_chain _)) λ relay _.
          bind-Does (call-Does (make_network para_id) _) λ network _.
            bind-Does (offchain_workers-Does config params network) λ _ _.
              bind-Does (call-Does spawn_tasks _) λ _ _.
                bind-Does (hardware-Does config params has hwbench) λ _ _.
                  bind-Does (map_err-Does net.application (call-Does take_overseer _)) λ overseer _.
                    bind-Does (call-Does (start_relay_tasks para_id _ _) _) λ _ _.
                      bind-Does
                        (keyed config.is_authority relay.1 λ key.
                          consensus-Does params config.prometheus_registry relay.0 para_id key
                            overseer network)
                        λ _ _. pure-Does Any _ tt
