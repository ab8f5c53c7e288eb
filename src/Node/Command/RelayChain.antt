-- ===== src/Node/Command/RelayChain.antt =====
-- node/src/cli.rs and node/src/command.rs: the command line of the relay chain's node. Everything
-- but the base path, the chain id and `init` is asked of the relay chain's own command.
use text.Mathlib.Text.{◌==◌}
use polkadot_confidential_of.Base.{
  ℕ, String, Bool, Option, none, some, List, Ended, returned, failed, panicked, Result, ok, err,
  if◌then◌else◌,
}
use polkadot_confidential_of.Node.{Platform, Configuration}
use polkadot_confidential_of.Node.ChainSpec.{SpecLibrary, Extensions, try_get}

-- sc-cli's types of parameters.
pub record CliTypes (p : Platform) : Type 1 where
  pub Error : Type 0
  pub SharedParams : Type 0
  pub ImportParams : Type 0
  pub NetworkParams : Type 0
  pub KeystoreParams : Type 0
  pub RpcEndpoint : Type 0
  pub PrometheusConfig : Type 0
  pub Role : Type 0
  pub RpcMethods : Type 0

-- The methods of sc-cli's `CliConfiguration` that the node defines.
pub record CliConfiguration {p : Platform} (c : CliTypes p) : Type 1 where
  pub shared_params : c.SharedParams
  pub import_params : Option c.ImportParams
  pub network_params : Option c.NetworkParams
  pub keystore_params : Option c.KeystoreParams
  pub base_path : Result (Option p.FilePath) c.Error
  pub rpc_addr : ℕ → Result (Option (List c.RpcEndpoint)) c.Error
  pub prometheus_config : ℕ → p.ChainSpec → Result (Option c.PrometheusConfig) c.Error
  pub init : Ended c.Error (Unit {0})
  pub chain_id : Bool → Result String c.Error
  pub role : Bool → Result c.Role c.Error
  pub transaction_pool : Bool → Result p.PoolOptions c.Error
  pub trie_cache_maximum_size : Result (Option ℕ) c.Error
  pub rpc_methods : Result c.RpcMethods c.Error
  pub rpc_max_connections : Result ℕ c.Error
  pub rpc_cors : Bool → Result (Option (List String)) c.Error
  pub default_heap_pages : Result (Option ℕ) c.Error
  pub force_authoring : Result Bool c.Error
  pub disable_grandpa : Result Bool c.Error
  pub max_runtime_instances : Result (Option ℕ) c.Error
  pub announce_block : Result Bool c.Error
  pub telemetry_endpoints : p.ChainSpec → Result (Option (List p.Endpoint)) c.Error
  pub node_name : Result String c.Error

-- polkadot-cli's `RunCmd`, and std's and sc-cli's functions on paths.
pub record RelayLibrary {p : Platform} (c : CliTypes p) : Type 1 where
  pub RunCmd : Type 0
  pub configuration : RunCmd → CliConfiguration c  -- `self.base.base`
  pub parse_from : List String → Ended ⊥ RunCmd  -- a panic stands for the exit with a usage message
  pub shared_base_path : c.SharedParams → Result (Option p.FilePath) c.Error
  pub join : p.FilePath → String → p.FilePath

abbrev pub p2p_listen_port : ℕ
p2p_listen_port = 30334

abbrev pub rpc_listen_port : ℕ
rpc_listen_port = 9945

abbrev pub prometheus_listen_port : ℕ
prometheus_listen_port = 9616

module _ {p : Platform} {c : CliTypes p} (lib : RelayLibrary c) where
  pub record RelayChainCli : Type 0 where
    pub base : lib.RunCmd
    pub chain_id : Option String
    pub base_path : Option p.FilePath

  abbrev pub relay_chain_of : Option Extensions → Option String
  relay_chain_of none = none
  relay_chain_of (some e) = some e.relay_chain

  unfoldable pub new_relay_chain_cli :
      SpecLibrary p.ChainSpec → Configuration p → List String → Ended ⊥ RelayChainCli
  unfolding try_get
  new_relay_chain_cli spec para_config relay_chain_args = elim (lib.parse_from relay_chain_args) [
    | returned base ↦ returned (record {
      base = base;
      chain_id = relay_chain_of (try_get spec para_config.chain_spec);
      base_path = some (lib.join para_config.base_path "polkadot");
    })
    | failed e ↦ failed e
    | panicked msg ↦ panicked msg
  ]

  -- `r?.or_else(|| o)` in `Ok(..)`
  abbrev pub or_else :
      Result (Option p.FilePath) c.Error → Option p.FilePath → Result (Option p.FilePath) c.Error
  or_else (ok none) o = ok o
  or_else (ok (some path)) o = ok (some path)
  or_else (err e) o = err e

  abbrev pub unwrap_or_default : Option String → String
  unwrap_or_default none = ""
  unwrap_or_default (some s) = s

  abbrev pub own_or : Result String c.Error → Option String → Result String c.Error
  own_or (ok chain_id) o = if chain_id == "" then ok (unwrap_or_default o) else ok chain_id
  own_or (err e) o = err e

  -- `impl CliConfiguration<Self> for RelayChainCli`
  unfoldable pub relay_configuration : RelayChainCli → CliConfiguration c
  relay_configuration cli = record (lib.configuration cli.base) {
    base_path =
        or_else (lib.shared_base_path (lib.configuration cli.base).shared_params) cli.base_path;
    init = panicked "PolkadotCli is never initialized; qed";
    chain_id = λ is_dev. own_or ((lib.configuration cli.base).chain_id is_dev) cli.chain_id;
  }
