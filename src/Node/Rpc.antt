-- ===== src/Node/Rpc.antt =====
-- node/src/rpc.rs: the RPC module of the node. A module of jsonrpsee is a parameter; merging two
-- modules fails if they share a method.
pub mod Laws
mod Tests
use polkadot_confidential_of.Base.{Result, ok, err}

pub record RpcLibrary : Type 1 where
  pub Client : Type 0
  pub Pool : Type 0
  pub RpcModule : Type 0
  pub Error : Type 0
  pub empty_module : RpcModule
  pub merge : RpcModule → RpcModule → Result RpcModule Error  -- the module after `merge`
  pub system_rpc : Client → Pool → RpcModule
  pub transaction_payment_rpc : Client → RpcModule

module _ (lib : RpcLibrary) where
  open lib use {
    Client, Pool, RpcModule, Error, empty_module, merge, system_rpc, transaction_payment_rpc,
  }

  pub record FullDeps : Type 0 where
    pub client : Client
    pub pool : Pool

  -- `r?` in a function that ends with the next result.
  abbrev pub and_then :
      Result RpcModule Error → (RpcModule → Result RpcModule Error) → Result RpcModule Error
  and_then (ok module') next = next module'
  and_then (err e) next = err e

  unfoldable pub create_full : FullDeps → Result RpcModule Error
  create_full deps =
      and_then (merge empty_module (system_rpc deps.client deps.pool))
        λ with_system. merge with_system (transaction_payment_rpc deps.client)
