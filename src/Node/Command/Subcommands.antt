-- ===== src/Node/Command/Subcommands.antt =====
-- What the subcommands of the node do, with the runner as sc-cli documents it.
use mathlib.Core.Path.{subst}
use polkadot_confidential_of.Base.{
  ◌≡◌, refl, sym, ap, ◌∙◌, Bool, true, false, ◌++◌, Exec, Ended, returned, map_err, All, All-first,
  append-cancel,
}
use polkadot_confidential_of.Node.{
  Action, connect_relay_chain, make_network, make_offchain_workers, take_overseer,
  start_relay_tasks, make_aura, start_network, Trace, Platform, Configuration,
}
use polkadot_confidential_of.Node.Extends.{
  Onto, Onto-refl, Onto-trans, Extends, appended, planned, chained, mapped,
}
use polkadot_confidential_of.Node.ChainSpec.{SpecLibrary}
use polkadot_confidential_of.Node.Service.{Components, Libraries, new_partial, non_empty}
use polkadot_confidential_of.Node.Service.Start.{Network}
use polkadot_confidential_of.Node.Service.Plan.{partial_parts, partial_plan, new_partial-Does}
use polkadot_confidential_of.Node.Service.Order.{All-joined, All-if_some}
use polkadot_confidential_of.Node.Command.{
  Commands, BenchmarkCmd, pallet, block, storage, machine, other, Subcommand, build_spec,
  check_block, export_blocks, export_state, import_blocks, revert, purge_chain, export_genesis_head,
  export_genesis_wasm, benchmark, Cli,
}
use polkadot_confidential_of.Node.Command.RelayChain.{CliTypes, RelayLibrary}
use polkadot_confidential_of.Node.Command.Driver.{Driver}
use polkadot_confidential_of.Node.Command.Outcome.{bind-returned}
use polkadot_confidential_of.Node.Command.Start.{returned-injective}
use polkadot_confidential_of.Node.Command.Parts.{lift-Extends, configuration-Extends}
use polkadot_confidential_of.Node.Command.Run.{construct_async_run, run_benchmark, run_subcommand}

-- An action that neither reaches the network or the relay chain nor runs an offchain worker or a
-- consensus.
abbrev pub IsLocal : Action → Type 0
IsLocal connect_relay_chain = ⊥
IsLocal (make_network para_id) = ⊥
IsLocal (make_offchain_workers validator http) = ⊥
IsLocal take_overseer = ⊥
IsLocal (start_relay_tasks para_id profile slot) = ⊥
IsLocal (make_aura para_id slot authoring reinitialize) = ⊥
IsLocal start_network = ⊥
IsLocal _ = Unit

module _ {E A : Type 0} where
  -- How far the trace is after the runner had code that ended in a certain way: no future of it
  -- ran, or the future ran to its end, or it was interrupted.
  pub data AsyncRun : Ended E (Exec Trace E (Unit {0}) × A) × Trace → Trace → Type 0 where
    before_future : {r : Ended E (Exec Trace E (Unit {0}) × A)} {u : Trace} → AsyncRun (r, u) u
    finished :
        {future : Exec Trace E (Unit {0})} {a : A} {u : Trace}
        → AsyncRun (returned (future, a), u) (future u).1
    interrupted :
        {future : Exec Trace E (Unit {0})} {a : A} {u : Trace} (more rest : Trace)
        → (future u).1 ≡ u ++ (more ++ rest)
        → AsyncRun (returned (future, a), u) (u ++ more)

partial_plan-IsLocal : {p : Platform} (config : Configuration p) → All IsLocal (partial_plan config)
partial_plan-IsLocal config = All-joined IsLocal (partial_parts config) (
  All-if_some IsLocal (non_empty config.telemetry_endpoints) _ (tt, tt),
  (
    (tt, tt),
    (
      All-if_some IsLocal (non_empty config.telemetry_endpoints) _ (tt, tt),
      ((tt, tt), ((tt, tt), tt)),
    ),
  ),
)

module _ {p : Platform} {c : Commands} {y : CliTypes p} (spec : SpecLibrary p.ChainSpec)
    (lib : Libraries p) (net : Network p) (relay : RelayLibrary y) (d : Driver p c y net) where
  abbrev Local : (A : Type 0) → Exec Trace y.Error A → Type 0
  Local A = Extends IsLocal y.Error A

  -- What sc-cli documents of its runner.
  pub record RunnerLaws : Type 0 where
    pub sync_runs :
        (config : Configuration p) (code : Configuration p → Exec Trace y.Error (Unit {0}))
        → d.sync_run config code ≡ code config
    pub async_runs :
        (config : Configuration p)
        (code : Configuration p
          → Exec Trace y.Error (Exec Trace y.Error (Unit {0}) × p.TaskManager))
        (t : Trace)
        → AsyncRun (code config t) (d.async_run config code t).1

  partial-Local :
      (config : Configuration p)
      → Local (Components p) (map_err d.service_error (new_partial p lib config))
  partial-Local config =
      mapped IsLocal d.service_error (new_partial p lib config)
        (planned IsLocal (new_partial-Does p lib config) (partial_plan-IsLocal config))

  module _ (laws : RunnerLaws) where
    async-Local :
        (config : Configuration p)
        (code : Configuration p
          → Exec Trace y.Error (Exec Trace y.Error (Unit {0}) × p.TaskManager))
        → Local (Exec Trace y.Error (Unit {0}) × p.TaskManager) (code config)
        → ((t : Trace) (a : Exec Trace y.Error (Unit {0}) × p.TaskManager) (u : Trace)
            → code config t ≡ (returned a, u)
            → Local (Unit {0}) a.0)
        → Local (Unit {0}) (d.async_run config code)
    async-Local config code first future t =
        by_run (code config t) _ refl (first t) (laws.async_runs config code t)
      where
        by_run :
            (r : Ended y.Error (Exec Trace y.Error (Unit {0}) × p.TaskManager) × Trace) (v : Trace)
            → code config t ≡ r
            → Onto IsLocal t r.1
            → AsyncRun r v
            → Onto IsLocal t v
        by_run _ _ e o before_future = o
        by_run _ _ e o (finished {future = f} {a} {u}) =
            Onto-trans IsLocal t u (f u).1 o (future t (f, a) u e u)
        by_run _ _ e o (interrupted {future = f} {a} {u} more rest h) =
            let (acts, e', local) = future t (f, a) u e u in
            Onto-trans IsLocal t u (u ++ more) o (
              more,
              refl,
              All-first IsLocal more rest
                  (subst (All IsLocal) (append-cancel u acts (more ++ rest) (sym e' ∙ h)) local),
            )

    construct_async_run-Local :
        (cmd : Subcommand c) (code : Components p → Configuration p → Exec Trace y.Error (Unit {0}))
        → ((components : Components p) (config : Configuration p)
            → Local (Unit {0}) (code components config))
        → Local (Unit {0}) (construct_async_run spec lib net relay d cmd code)
    unfolding construct_async_run
    construct_async_run-Local cmd code local = chained IsLocal _ _ (appended IsLocal _ tt) λ config.
        async-Local config _
          (chained IsLocal _ _ (partial-Local config) λ components. Onto-refl IsLocal)
          λ t a u e.
            let (components, v, made, ends) = bind-returned _ _ t a u e in
            subst (λ f. Local (Unit {0}) f)
              (ap (λ x. x.0) (returned-injective (ap (λ r. r.0) ends))) (local components config)

    synced-Local :
        (config : Configuration p) (code : Configuration p → Exec Trace y.Error (Unit {0}))
        → Local (Unit {0}) (code config)
        → Local (Unit {0}) (d.sync_run config code)
    synced-Local config code h = rw laws.sync_runs h

    benchmark-Local :
        (runtime_benchmarks : Bool) (cmd : BenchmarkCmd c) (config : Configuration p)
        → Local (Unit {0}) (run_benchmark spec lib net relay d runtime_benchmarks cmd config)
    unfolding run_benchmark
    benchmark-Local true (pallet cmd) config = synced-Local config _ (appended IsLocal _ tt)
    benchmark-Local false (pallet cmd) config = Onto-refl IsLocal
    benchmark-Local rb (block cmd) config =
        synced-Local config _
          (chained IsLocal _ _ (partial-Local config) λ partials. appended IsLocal _ tt)
    benchmark-Local true (storage cmd) config =
        synced-Local config _
          (chained IsLocal _ _ (partial-Local config) λ partials. appended IsLocal _ tt)
    benchmark-Local false (storage cmd) config = Onto-refl IsLocal
    benchmark-Local rb (machine cmd) config = synced-Local config _ (appended IsLocal _ tt)
    benchmark-Local rb (other cmd) config = Onto-refl IsLocal

    -- With a runner as sc-cli documents it, and however the libraries answer, no subcommand of
    -- the node makes or starts a network, connects to a relay chain, runs offchain workers or
    -- makes a consensus; a subcommand only adds to the trace.
    pub run_subcommand-IsLocal :
        (runtime_benchmarks : Bool) (cli : Cli c) (cmd : Subcommand c)
        → Local (Unit {0}) (run_subcommand spec lib net relay d runtime_benchmarks cli cmd)
    unfolding run_subcommand
    run_subcommand-IsLocal rb cli (build_spec cmd) =
        chained IsLocal _ _ (appended IsLocal _ tt)
          λ config. synced-Local config _ (appended IsLocal _ tt)
    run_subcommand-IsLocal rb cli (check_block cmd) =
        construct_async_run-Local _ _ λ components config. appended IsLocal _ tt
    run_subcommand-IsLocal rb cli (export_blocks cmd) =
        construct_async_run-Local _ _ λ components config. appended IsLocal _ tt
    run_subcommand-IsLocal rb cli (export_state cmd) =
        construct_async_run-Local _ _ λ components config. appended IsLocal _ tt
    run_subcommand-IsLocal rb cli (import_blocks cmd) =
        construct_async_run-Local _ _ λ components config. appended IsLocal _ tt
    run_subcommand-IsLocal rb cli (revert cmd) =
        construct_async_run-Local _ _ λ components config. appended IsLocal _ tt
    run_subcommand-IsLocal rb cli (purge_chain cmd) =
        chained IsLocal _ _ (appended IsLocal _ tt) λ config. synced-Local config _ (
          chained IsLocal _ _ (configuration-Extends IsLocal spec lib net relay d tt cli config)
            λ polkadot_config. appended IsLocal _ tt)
    run_subcommand-IsLocal rb cli (export_genesis_head cmd) =
        chained IsLocal _ _ (appended IsLocal _ tt) λ config.
          synced-Local config _
            (chained IsLocal _ _ (partial-Local config) λ partials. appended IsLocal _ tt)
    run_subcommand-IsLocal rb cli (export_genesis_wasm cmd) =
        chained IsLocal _ _ (appended IsLocal _ tt) λ config. synced-Local config _ (
          chained IsLocal _ _ (lift-Extends IsLocal spec lib net relay d _ _)
            λ chain_spec. appended IsLocal _ tt)
    run_subcommand-IsLocal rb cli (benchmark cmd) =
        chained IsLocal _ _ (appended IsLocal _ tt) λ config. benchmark-Local rb cmd config
