-- ===== src/Node/Command/Tests.antt =====
-- Witnesses of the laws of the command line.
use polkadot_confidential_of.Base.{
  ℕ, ◌≡◌, refl, String, Bool, true, false, Option, none, some, [], ◌∷◌, ◌++◌, Ended, returned, pure,
}
use polkadot_confidential_of.Node.{
  ◌>>=◌, Trace, Configuration, make_runner, run_command, make_database_path, gather_hwbench,
}
use polkadot_confidential_of.Node.Memory.{
  number_platform, number_specs, number_libraries, number_network, collator_config,
}
use polkadot_confidential_of.Node.ChainSpec.{try_get}
use polkadot_confidential_of.Node.Service.{
  new_partial, start_telemetry, spawn_telemetry, build_import_queue, heap_pages,
}
use polkadot_confidential_of.Node.Service.Start.{
  start_parachain_node, prepare_parachain_node, start_consensus, start_offchain_workers,
  report_hardware, report_telemetry,
}
use polkadot_confidential_of.Node.Command.{check_block}
use polkadot_confidential_of.Node.Extends.{Onto}
use polkadot_confidential_of.Node.Service.Plan.{partial_plan}
use polkadot_confidential_of.Node.Command.Subcommands.{RunnerLaws, IsLocal, run_subcommand-IsLocal}
use polkadot_confidential_of.Node.Command.RelayChain.{new_relay_chain_cli}
use polkadot_confidential_of.Node.Command.Run.{
  run, run_subcommand, dispatch, start_node, para_id_of, gather, lift, polkadot_configuration,
}
use polkadot_confidential_of.Node.Command.Memory.{plain_relay, plain_driver, quiet_cli, plain_runs}
use polkadot_confidential_of.Node.Command.Outcome.{bind-returned}
use polkadot_confidential_of.Node.Command.Launch.{RunsNode, run-returned}
use polkadot_confidential_of.Node.Command.Start.{start_node-measures}

start_node-measures_example :
    (acts : Trace) × ((start_node number_specs number_libraries number_network plain_relay
        plain_driver quiet_cli 0 collator_config []).1
      ≡ [] ++ (make_database_path ∷ gather_hwbench ∷ []) ++ acts)
start_node-measures_example =
    start_node-measures number_specs number_libraries number_network plain_relay plain_driver
      quiet_cli 0 collator_config "/data/db" [] refl

abbrev quiet_run : Ended String ℕ × Trace
quiet_run =
    start_node number_specs number_libraries number_network plain_relay plain_driver quiet_cli 0
      collator_config []

quiet_run-returned : quiet_run ≡ (returned 4, quiet_run.1)
unfolding ◌>>=◌ start_node gather try_get polkadot_configuration lift new_relay_chain_cli
    start_parachain_node prepare_parachain_node new_partial start_telemetry spawn_telemetry
    build_import_queue start_consensus start_offchain_workers report_hardware report_telemetry
quiet_run-returned = refl

abbrev quiet_end : Ended String (Unit {0}) × Trace
quiet_end =
    run number_specs number_libraries number_network plain_relay plain_driver false quiet_cli []

quiet_end-returned : quiet_end ≡ (returned tt, quiet_end.1)
unfolding ◌>>=◌ run dispatch start_node gather try_get polkadot_configuration lift
    new_relay_chain_cli start_parachain_node prepare_parachain_node new_partial start_telemetry
    spawn_telemetry build_import_queue start_consensus start_offchain_workers report_hardware
    report_telemetry
quiet_end-returned = refl

plain_driver-RunsNode :
    RunsNode number_specs number_libraries number_network plain_relay plain_driver
plain_driver-RunsNode config code t u e =
    let (tm, v, started, _) = bind-returned (code config) (λ tm. pure tt) t tt u e in
    (tm, v, started)

run-returned_example :
    (config polkadot_config : Configuration number_platform) × (id : ℕ) × (hwbench : Option ℕ) × (s
      v : Trace)
    × (r : ℕ × ℕ) × (Path
        (Ended String (Configuration number_platform))
        (returned collator_config)
        (returned config))
    × (para_id_of number_specs number_libraries number_network plain_relay plain_driver
          (try_get number_specs config.chain_spec)
        ≡ some id)
    × (Path Bool true true → hwbench ≡ none)
    × (start_parachain_node number_platform number_libraries number_network config polkadot_config 0
          id hwbench s
        ≡ (returned r, v))
run-returned_example =
    run-returned number_specs number_libraries number_network plain_relay plain_driver
      plain_driver-RunsNode false quiet_cli [] quiet_end.1 refl quiet_end-returned

plain_driver-RunnerLaws :
    RunnerLaws number_specs number_libraries number_network plain_relay plain_driver
unfolding ◌>>=◌
plain_driver-RunnerLaws = record {
  sync_runs = λ config code. refl;
  async_runs = λ config code t. plain_runs (code config t) t;
}

run_subcommand-IsLocal_example :
    Onto IsLocal []
      (run_subcommand number_specs number_libraries number_network plain_relay plain_driver true
        quiet_cli
        (check_block 7)
        []).1
run_subcommand-IsLocal_example =
    run_subcommand-IsLocal number_specs number_libraries number_network plain_relay plain_driver
      plain_driver-RunnerLaws true quiet_cli (check_block 7) []

-- The run of the example makes the parts of a node and then the command.
check_block_runs :
    (run_subcommand number_specs number_libraries number_network plain_relay plain_driver true
      quiet_cli
      (check_block 7)
      []).1
    ≡ (make_runner ∷ []) ++ partial_plan collator_config ++ (run_command "check-block" ∷ [])
unfolding ◌>>=◌ run_subcommand new_partial start_telemetry spawn_telemetry build_import_queue
    heap_pages
check_block_runs = refl
