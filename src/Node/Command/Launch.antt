-- ===== src/Node/Command/Launch.antt =====
-- A run of the command line without a subcommand.
use polkadot_confidential_of.Base.{
  ℕ, ◌≡◌, ap, ◌∙◌, sym, Bool, true, Option, none, some, Exec, returned,
}
use polkadot_confidential_of.Node.{◌>>=◌, Trace, call, make_runner, Platform, Configuration}
use polkadot_confidential_of.Node.ChainSpec.{SpecLibrary, try_get}
use polkadot_confidential_of.Node.Service.{Libraries}
use polkadot_confidential_of.Node.Service.Start.{Network, start_parachain_node}
use polkadot_confidential_of.Node.Command.{Commands, Cli}
use polkadot_confidential_of.Node.Command.RelayChain.{CliTypes, RelayLibrary}
use polkadot_confidential_of.Node.Command.Driver.{Driver}
use polkadot_confidential_of.Node.Command.Outcome.{bind-returned}
use polkadot_confidential_of.Node.Command.Start.{start_node-returned}
use polkadot_confidential_of.Node.Command.Run.{start_node, para_id_of, dispatch, run}

module _ {p : Platform} {c : Commands} {y : CliTypes p} (spec : SpecLibrary p.ChainSpec)
    (lib : Libraries p) (net : Network p) (relay : RelayLibrary y) (d : Driver p c y net) where
  -- The runner ends normally only if the node that it runs started.
  abbrev pub RunsNode : Type 0
  RunsNode =
      (config : Configuration p) (code : Configuration p → Exec Trace y.Error p.TaskManager)
      (t u : Trace)
      → d.run_node_until_exit config code t ≡ (returned tt, u)
      → (tm : p.TaskManager) × (v : Trace) × (code config t ≡ (returned tm, v))

  -- A run without a subcommand that ended normally, with a runner that does so only if its node
  -- started, had started a node for the parachain id of the chain specification of its
  -- configuration, with the collator options of the command and no hardware benchmark if the
  -- flag says so.
  pub run-returned :
      RunsNode
      → (runtime_benchmarks : Bool) (cli : Cli c) (t u : Trace) → cli.subcommand ≡ none
      → run spec lib net relay d runtime_benchmarks cli t ≡ (returned tt, u)
      → (config : Configuration p) × (polkadot_config : Configuration p) × (id : ℕ)
        × (hwbench : Option net.HwBench) × (s v : Trace) × (r : p.TaskManager × p.Client)
        × (d.node_config_of (d.normalize cli.run) t ≡ returned config)
        × (para_id_of spec lib net relay d (try_get spec config.chain_spec) ≡ some id)
        × (cli.no_hardware_benchmarks ≡ true → hwbench ≡ none)
        × (start_parachain_node p lib net config polkadot_config
              (d.collator_options cli.run)
              id
              hwbench
              s
            ≡ (returned r, v))
  unfolding run dispatch
  run-returned runs runtime_benchmarks cli t u plain h =
      let launch = call make_runner (d.node_config_of (d.normalize cli.run)) >>= (λ config.
        d.run_node_until_exit config
          (start_node spec lib net relay d cli (d.collator_options cli.run))) in
      let e : launch t ≡ (returned tt, u) =
        sym (ap (λ o. dispatch spec lib net relay d runtime_benchmarks cli o t) plain) ∙ h in
      let (config, s, made, ran) = bind-returned _ _ t tt u e in
      let (tm, v, started) = runs config _ s u ran in
      let (id, polkadot_config, hwbench, w, client, at_id, off, done) =
        start_node-returned spec lib net relay d cli (d.collator_options cli.run) config s tm v
          started in
      (
        config,
        polkadot_config,
        id,
        hwbench,
        w,
        v,
        (tm, client),
        ap (λ r. r.0) made,
        at_id,
        off,
        done,
      )
