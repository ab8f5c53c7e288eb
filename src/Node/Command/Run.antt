-- ===== src/Node/Command/Run.antt =====
-- `run` of node/src/command.rs.
use Prim.Native.String.{◌++◌}
use polkadot_confidential_of.Base.{
  ℕ, Bool, Option, none, some, ◌∷◌, Exec, Ended, returned, failed, panicked, pure, fail, panic,
  ok_or, map_err, if◌then◌else◌,
}
use polkadot_confidential_of.Node.{
  ◌>>=◌, ◌>>◌, make_runner, run_command, make_database_path, gather_hwbench,
  make_relay_configuration, log_collating, Trace, call, Platform, Configuration,
}
use polkadot_confidential_of.Node.ChainSpec.{SpecLibrary, Extensions, try_get}
use polkadot_confidential_of.Node.Service.{Components, Libraries, new_partial}
use polkadot_confidential_of.Node.Service.Start.{Network, start_parachain_node}
use polkadot_confidential_of.Node.Command.{
  load_spec, Commands, BenchmarkCmd, pallet, block, storage, machine, other, Subcommand, build_spec,
  check_block, export_blocks, export_state, import_blocks, revert, purge_chain, export_genesis_head,
  export_genesis_wasm, benchmark, Cli,
}
use polkadot_confidential_of.Node.Command.Driver.{Driver}
use polkadot_confidential_of.Node.Command.RelayChain.{
  CliTypes, RelayLibrary, new_relay_chain_cli, relay_configuration, unwrap_or_default,
}

module _ {p : Platform} {c : Commands} {t : CliTypes p} (spec : SpecLibrary p.ChainSpec)
    (lib : Libraries p) (net : Network p) (relay : RelayLibrary t) (d : Driver p c t net) where
  abbrev pub Run : Type 0
  Run = Exec Trace t.Error (Unit {0})

  Partial : Configuration p → Exec Trace t.Error (Components p)
  Partial config = map_err d.service_error (new_partial p lib config)

  -- `construct_async_run!`
  unfoldable pub construct_async_run : Subcommand c → (Components p → Configuration p → Run) → Run
  unfolding Partial
  construct_async_run cmd code = do
    runner ← call make_runner (d.config_of cmd)
    d.async_run runner λ config. do
      components ← Partial config
      pure (code components config, components.task_manager)

  with_runner : Subcommand c → (Configuration p → Run) → Run
  with_runner cmd code = call make_runner (d.config_of cmd) >>= λ runner. d.sync_run runner code

  -- A result of a pure library function or of the node's own code.
  unfoldable pub lift : {E A : Type 0} → (E → t.Error) → Ended E A → Exec Trace t.Error A
  lift f (returned a) = pure a
  lift f (failed e) = fail (f e)
  lift f (panicked msg) = panic msg

  -- The configuration of the relay chain's node, from the arguments after `--`.
  unfoldable pub polkadot_configuration :
      Cli c → Configuration p → Exec Trace t.Error (Configuration p)
  unfolding lift new_relay_chain_cli relay_configuration
  polkadot_configuration cli config = do
    polkadot_cli ←
        lift (λ e. elim e [ ])
          (new_relay_chain_cli relay spec config (d.executable_name ∷ cli.relay_chain_args))
    map_err (λ e. d.input ("Relay chain argument error: " ++ e))
        (call make_relay_configuration
          (d.create_configuration (relay_configuration relay polkadot_cli)))

  unfoldable pub run_benchmark : Bool → BenchmarkCmd c → Configuration p → Run
  unfolding Partial
  run_benchmark runtime_benchmarks (pallet cmd) runner =
      if runtime_benchmarks
      then d.sync_run runner
          (λ config. call (run_command "benchmark pallet") (d.run_pallet cmd config.chain_spec))
      else fail (
          d.input
            "Benchmarking wasn't enabled when building the node. You can enable it with `--features runtime-benchmarks`.")
  run_benchmark runtime_benchmarks (block cmd) runner = d.sync_run runner λ config. do
    partials ← Partial config
    call (run_command "benchmark block") (d.run_block cmd partials.client)
  run_benchmark runtime_benchmarks (storage cmd) runner =
      if runtime_benchmarks
      then d.sync_run runner (λ config. do
        partials ← Partial config
        call (run_command "benchmark storage")
            (d.run_storage cmd config partials.client partials.backend))
      else fail (d.input "Compile with --features=runtime-benchmarks to enable storage benchmarks.")
  run_benchmark runtime_benchmarks (machine cmd) runner =
      d.sync_run runner λ config. call (run_command "benchmark machine") (d.run_machine cmd config)
  run_benchmark runtime_benchmarks (other cmd) runner =
      fail (d.input "Benchmarking sub-command unsupported")

  -- `runtime_benchmarks` is the feature of the build.
  unfoldable pub run_subcommand : Bool → Cli c → Subcommand c → Run
  unfolding construct_async_run with_runner lift Partial polkadot_configuration run_benchmark
      load_spec
  run_subcommand rb cli (build_spec cmd) = with_runner (build_spec cmd) λ config.
      call (run_command "build-spec") (d.run_build_spec cmd config.chain_spec config.network)
  run_subcommand rb cli (check_block cmd) =
      construct_async_run (check_block cmd) λ components config.
        call (run_command "check-block")
          (d.run_check_block cmd components.client components.import_queue)
  run_subcommand rb cli (export_blocks cmd) =
      construct_async_run (export_blocks cmd) λ components config.
        call (run_command "export-blocks")
          (d.run_export_blocks cmd components.client config.database)
  run_subcommand rb cli (export_state cmd) =
      construct_async_run (export_state cmd) λ components config.
        call (run_command "export-state")
          (d.run_export_state cmd components.client config.chain_spec)
  run_subcommand rb cli (import_blocks cmd) =
      construct_async_run (import_blocks cmd) λ components config.
        call (run_command "import-blocks")
          (d.run_import_blocks cmd components.client components.import_queue)
  run_subcommand rb cli (revert cmd) = construct_async_run (revert cmd) λ components config.
      call (run_command "revert") (d.run_revert cmd components.client components.backend)
  run_subcommand rb cli (purge_chain cmd) = with_runner (purge_chain cmd) λ config. do
    polkadot_config ← polkadot_configuration cli config
    call (run_command "purge-chain") (d.run_purge_chain cmd config polkadot_config)
  run_subcommand rb cli (export_genesis_head cmd) = with_runner (export_genesis_head cmd) λ config.
      do
        partials ← Partial config
        call (run_command "export-genesis-head") (d.run_export_genesis_head cmd partials.client)
  run_subcommand rb cli (export_genesis_wasm cmd) = with_runner (export_genesis_wasm cmd) λ config.
      do
        chain_spec ←
            lift d.input
              (load_spec spec d.from_json_file (unwrap_or_default relay (d.chain_of cmd)))
        call (run_command "export-genesis-wasm") (d.run_export_genesis_wasm cmd chain_spec)
  run_subcommand rb cli (benchmark cmd) = do
    runner ← call make_runner (d.config_of (benchmark cmd))
    run_benchmark rb cmd runner

  -- The benchmarks run unless they are switched off; the `then_some` of the code makes its argument
  -- first, so the database path is created and measured in either case.
  unfoldable pub gather : Option p.FilePath → Exec Trace t.Error (Option net.HwBench)
  gather none = pure none
  gather (some database_path) = do
    call make_database_path (λ acts. returned tt)
    found ← call gather_hwbench (d.hwbench database_path)
    pure (some found)

  abbrev pub para_id_of : Option Extensions → Option ℕ
  para_id_of none = none
  para_id_of (some e) = some e.para_id

  -- The closure of a run without a subcommand. `options` are the collator options.
  unfoldable pub start_node :
      Cli c → net.CollatorOptions → Configuration p → Exec Trace t.Error p.TaskManager
  unfolding gather try_get polkadot_configuration
  start_node cli options config = do
    measured ← gather (p.database_path config.database)
    let hwbench = if cli.no_hardware_benchmarks then none else measured
    para_id ←
        ok_or (para_id_of (try_get spec config.chain_spec))
          (d.input "Could not find parachain ID in chain-spec.")
    polkadot_config ← polkadot_configuration cli config
    call (log_collating config.is_authority) (λ acts. returned tt)
    started ←
        map_err d.service_error
          (start_parachain_node p lib net config polkadot_config options para_id hwbench)
    pure started.0

  -- The match on the subcommand.
  unfoldable pub dispatch : Bool → Cli c → Option (Subcommand c) → Run
  dispatch runtime_benchmarks cli (some cmd) = run_subcommand runtime_benchmarks cli cmd
  dispatch runtime_benchmarks cli none = do
    runner ← call make_runner (d.node_config_of (d.normalize cli.run))
    d.run_node_until_exit runner (start_node cli (d.collator_options cli.run))

  unfoldable pub run : Bool → Cli c → Run
  unfolding dispatch
  run runtime_benchmarks cli = dispatch runtime_benchmarks cli cli.subcommand
