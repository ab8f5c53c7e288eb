-- ===== src/Node/Command/Parts.antt =====
-- What the parts of a run of the command line add to the trace.
use polkadot_confidential_of.Base.{String, ◌∷◌, Ended, returned, failed, panicked}
use polkadot_confidential_of.Node.{Action, make_relay_configuration, Platform, Configuration}
use polkadot_confidential_of.Node.Extends.{Extends, Onto-refl, called, chained, mapped}
use polkadot_confidential_of.Node.ChainSpec.{SpecLibrary}
use polkadot_confidential_of.Node.Service.{Libraries}
use polkadot_confidential_of.Node.Service.Start.{Network}
use polkadot_confidential_of.Node.Command.{Commands, Cli}
use polkadot_confidential_of.Node.Command.RelayChain.{
  CliTypes, RelayLibrary, new_relay_chain_cli, relay_configuration,
}
use polkadot_confidential_of.Node.Command.Driver.{Driver}
use polkadot_confidential_of.Node.Command.Run.{lift, polkadot_configuration}

module _ (P : Action → Type 0) {p : Platform} {c : Commands} {y : CliTypes p}
    (spec : SpecLibrary p.ChainSpec) (lib : Libraries p) (net : Network p) (relay : RelayLibrary y)
    (d : Driver p c y net) where
  -- A result that needs no action.
  pub lift-Extends :
      {E A : Type 0} (f : E → y.Error) (r : Ended E A)
      → Extends P y.Error A (lift spec lib net relay d f r)
  unfolding lift
  lift-Extends f (returned a) t = Onto-refl P t
  lift-Extends f (failed e) t = Onto-refl P t
  lift-Extends f (panicked msg) t = Onto-refl P t

  pub configuration-Extends :
      P make_relay_configuration
      → (cli : Cli c) (config : Configuration p)
      → Extends P y.Error (Configuration p) (polkadot_configuration spec lib net relay d cli config)
  unfolding polkadot_configuration
  configuration-Extends h cli config =
      chained P _ _
        (lift-Extends _
          (new_relay_chain_cli relay spec config (d.executable_name ∷ cli.relay_chain_args)))
        λ made. mapped P _ _ (
          called P {E = String} make_relay_configuration
            (d.create_configuration (relay_configuration relay made)) h)
