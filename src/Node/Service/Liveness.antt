-- ===== src/Node/Service/Liveness.antt =====
-- The start of a node of node/src/service.rs whose libraries all answer.
use polkadot_confidential_of.Base.{
  ℕ, ◌≡◌, sym, ap, ◌∙◌, Bool, true, false, Option, none, some, List, [], ◌∷◌, ◌++◌, Exec, Ended,
  returned, expect,
}
use polkadot_confidential_of.Node.{
  ◌>>=◌, make_telemetry_worker, spawn, connect_relay_chain, take_overseer, spawn_tasks,
  print_hwbench, warn_hardware, make_offchain_workers, start_network, Trace, call, Platform,
  Configuration,
}
use polkadot_confidential_of.Node.Returns.{
  Returns, Free, pure-Returns, call-Returns, modify-Returns, bind-Returns, map_err-Returns,
  if-Returns,
}
use polkadot_confidential_of.Node.Service.{
  Components, Libraries, non_empty, start_telemetry, spawn_telemetry, build_import_queue,
  new_partial,
}
use polkadot_confidential_of.Node.Service.Start.{
  Network, relay_chain_slot_duration, start_consensus, start_offchain_workers, report_telemetry,
  report_hardware, prepare_parachain_node, start_parachain_node,
}
use polkadot_confidential_of.Node.Service.Answers.{AllAnswer}
use polkadot_confidential_of.Node.Service.Plan.{node_plan}
use polkadot_confidential_of.Node.Service.Order.{
  Started, running, stopped, crashed, start_parachain_node-Started,
}

whole_trace :
    {E A : Type 0} (plan t : Trace) (r : Ended E A × Trace)
    → Started plan t r
    → (a : A) (v : Trace) → r ≡ (returned a, v)
    → v ≡ t ++ plan ++ (start_network ∷ [])
whole_trace plan t _ running a v e = sym (ap (λ x. x.1) e)
whole_trace plan t _ (stopped acts rest h) a v e = absurd (cc (ap (λ x. x.0) e))
whole_trace plan t _ (crashed acts rest h) a v e = absurd (cc (ap (λ x. x.0) e))

module _ (p : Platform) (lib : Libraries p) (net : Network p) (answers : AllAnswer p lib net) where
  telemetry-Returns :
      (endpoints : Option (List p.Endpoint)) → Returns Free (start_telemetry p lib endpoints)
  unfolding start_telemetry
  telemetry-Returns none = pure-Returns none tt
  telemetry-Returns (some endpoints) =
      bind-Returns
        (call-Returns (make_telemetry_worker 16) (lib.telemetry_worker 16) (answers.worker 16))
        λ worker _. pure-Returns (some (worker, lib.new_telemetry worker endpoints)) tt

  task-Returns :
      (s : Option (p.TelemetryWorker × p.Telemetry)) → Returns Free (spawn_telemetry p lib s)
  unfolding spawn_telemetry
  task-Returns none = pure-Returns tt tt
  task-Returns (some s) = modify-Returns (spawn false "telemetry" none ∷ [])

  new_partial-Returns : (config : Configuration p) → Returns Free (new_partial p lib config)
  unfolding new_partial build_import_queue
  new_partial-Returns config =
      bind-Returns
        (map_err-Returns lib.telemetry_error
          (start_telemetry p lib (non_empty config.telemetry_endpoints))
          (telemetry-Returns (non_empty config.telemetry_endpoints)))
        λ s _. bind-Returns (call-Returns _ _ (answers.parts config _ _ _)) λ parts _.
          bind-Returns (task-Returns s) λ _ _.
            bind-Returns (call-Returns _ _ (answers.pool _ _ _ _ _)) λ pool _.
              bind-Returns (call-Returns _ _ (answers.queue _ _ _ _ _)) λ queue _. pure-Returns _ tt

  workers-Returns :
      (config : Configuration p) (params : Components p) (network : net.NetworkParts)
      → Returns Free (start_offchain_workers p lib net config params network)
  unfolding start_offchain_workers
  workers-Returns config params network =
      if-Returns config.offchain_worker_enabled
        (λ _.
          bind-Returns
            (call-Returns (make_offchain_workers config.is_authority false) _
              (answers.workers _ _ _ _ _ _ _))
            λ _ _.
              modify-Returns (spawn false "offchain-workers-runner" (some "offchain-work") ∷ []))
        (pure-Returns tt tt)

  report_telemetry-Returns : (s : Option p.Telemetry) → Returns Free (report_telemetry p lib net s)
  unfolding report_telemetry
  report_telemetry-Returns none = pure-Returns tt tt
  report_telemetry-Returns (some s) = modify-Returns (spawn false "telemetry_hwbench" none ∷ [])

  hardware-Returns :
      (validator : Bool) (hwbench : Option net.HwBench) (s : Option p.Telemetry)
      → Returns Free (report_hardware p lib net validator hwbench s)
  unfolding report_hardware
  hardware-Returns validator none s = pure-Returns tt tt
  hardware-Returns validator (some hwbench) s =
      bind-Returns (modify-Returns (print_hwbench ∷ [])) λ _ _.
        bind-Returns
          (if-Returns (net.meets_reference hwbench) (λ _. pure-Returns tt tt)
            (if-Returns validator (λ _. modify-Returns (warn_hardware ∷ [])) (pure-Returns tt tt)))
          λ _ _. report_telemetry-Returns s

  relay-Returns :
      (polkadot config : Configuration p) (w : Option p.TelemetryWorker) (tm : p.TaskManager)
      (o : net.CollatorOptions) (hwbench : Option net.HwBench)
      → Returns
          (λ r. config.is_authority ≡ true → (key : net.CollatorPair) × (r.1 ≡ some key))
          (call connect_relay_chain (net.relay_chain_interface polkadot config w tm o hwbench))
  relay-Returns polkadot config w tm o hwbench t =
      let (r, k, e, h) = answers.relay polkadot config w tm o hwbench t in
      ((r, k), t ++ (connect_relay_chain ∷ []), ap (λ x. (x, t ++ (connect_relay_chain ∷ []))) e, h)

  consensus-Returns :
      (params : Components p) (registry : Option p.Registry) (relay : net.Relay) (slot para_id : ℕ)
      (key : net.CollatorPair) (overseer : net.Overseer) (network : net.NetworkParts)
      → Returns Free
          (start_consensus p lib net params registry relay slot para_id key overseer network)
  unfolding start_consensus
  consensus-Returns params registry relay slot para_id key overseer network =
      bind-Returns
        (call-Returns _ _ (answers.consensus params relay key para_id overseer slot _ network))
        λ _ _. modify-Returns (spawn true "aura" none ∷ [])

  keyed-Returns :
      (o : Option net.CollatorPair) {f : net.CollatorPair → Exec Trace p.Error (Unit {0})}
      → (key : net.CollatorPair) × (o ≡ some key)
      → ((key : net.CollatorPair) → Returns Free (f key))
      → Returns Free (expect o "Command line arguments do not allow this. qed" >>= f)
  keyed-Returns none (key, e) next = absurd (cc e)
  keyed-Returns (some key) _ next =
      bind-Returns {P = Free} (pure-Returns {P = Free} key tt) λ k _. next k

  prepare-Returns :
      (config polkadot_config : Configuration p) (options : net.CollatorOptions) (para_id : ℕ)
      (hwbench : Option net.HwBench)
      → Returns Free
          (prepare_parachain_node p lib net config polkadot_config options para_id hwbench)
  unfolding prepare_parachain_node
  prepare-Returns config polkadot_config options para_id hwbench =
      bind-Returns (new_partial-Returns config) λ params _.
        bind-Returns
          (map_err-Returns net.application _
            (relay-Returns polkadot_config config _ _ options hwbench))
          λ relay has_key.
            bind-Returns (call-Returns _ _ (answers.network config _ _ para_id _ _ _)) λ network _.
              bind-Returns (workers-Returns config params network) λ _ _.
                bind-Returns (call-Returns spawn_tasks _ (answers.tasks config params network))
                  λ _ _.
                    bind-Returns (hardware-Returns config.is_authority hwbench params.telemetry)
                      λ _ _.
                        bind-Returns
                          (map_err-Returns net.application _
                            (call-Returns take_overseer _ (answers.overseer relay.0)))
                          λ overseer _.
                            bind-Returns
                              (call-Returns _ _
                                (answers.relay_tasks _ para_id _ _ _ _ _ overseer network))
                              λ _ _.
                                bind-Returns
                                  (if-Returns config.is_authority
                                    (λ authority. keyed-Returns relay.1 (has_key authority) λ key.
                                      consensus-Returns params config.prometheus_registry relay.0
                                        relay_chain_slot_duration para_id key overseer network)
                                    (pure-Returns tt tt))
                                  λ _ _. pure-Returns _ tt

  node-Returns :
      (config polkadot_config : Configuration p) (options : net.CollatorOptions) (para_id : ℕ)
      (hwbench : Option net.HwBench)
      → Returns Free (start_parachain_node p lib net config polkadot_config options para_id hwbench)
  unfolding start_parachain_node
  node-Returns config polkadot_config options para_id hwbench =
      bind-Returns
        (prepare-Returns (net.prepare_node_config config) polkadot_config options para_id hwbench)
        λ r _. bind-Returns (modify-Returns (start_network ∷ [])) λ _ _. pure-Returns r tt

  -- If every library answers, and the relay chain gives an authority the key of a collator, the
  -- start of a node returns after the whole plan of its prepared configuration, with its
  -- network.
  pub start_parachain_node-returned :
      (config polkadot_config : Configuration p) (options : net.CollatorOptions) (para_id : ℕ)
      (hwbench : Option net.HwBench) (t : Trace)
      → (r : p.TaskManager × p.Client) × (start_parachain_node p lib net config polkadot_config
            options para_id hwbench t
          ≡ (
            returned r,
            t
                ++ node_plan net (net.prepare_node_config config) para_id hwbench
                ++ (start_network ∷ []),
          ))
  start_parachain_node-returned config polkadot_config options para_id hwbench t =
      let (r, v, e) = ends in
      (
        r,
        e
            ∙ ap (λ u. (returned r, u))
                (whole_trace (node_plan net (net.prepare_node_config config) para_id hwbench) t _
                  (start_parachain_node-Started p lib net config polkadot_config options para_id
                    hwbench t)
                  r v e),
      )
    where
      started :
          Returns Free
            (start_parachain_node p lib net config polkadot_config options para_id hwbench)
      started = node-Returns config polkadot_config options para_id hwbench

      ends :
          (r : p.TaskManager × p.Client) × (v : Trace) × (start_parachain_node p lib net config
              polkadot_config options para_id hwbench t
            ≡ (returned r, v))
      ends = let (r, v, e, _) = started t in (r, v, e)
