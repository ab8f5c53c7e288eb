-- ===== src/Node/Rpc/Laws.antt =====
-- When the RPC module of the node is made.
use polkadot_confidential_of.Base.{◌≡◌, ◌↔◌, Result, ok, err, refl, arith}
use polkadot_confidential_of.Node.Rpc.{RpcLibrary, FullDeps, create_full}

-- The RPC module is made exactly if both merges succeed, first the methods of the system and
-- then those of the transaction payment.
pub create_full-eq-ok_iff :
    (lib : RpcLibrary) (deps : FullDeps lib) (made : lib.RpcModule)
    → (create_full lib deps ≡ ok made) ↔ (
        (with_system : lib.RpcModule) × (lib.merge lib.empty_module
            (lib.system_rpc deps.client deps.pool)
          ≡ ok with_system)
        × (lib.merge with_system (lib.transaction_payment_rpc deps.client) ≡ ok made))
unfolding create_full
create_full-eq-ok_iff lib deps made = (to, from)
  where
    first : Result lib.RpcModule lib.Error
    first = lib.merge lib.empty_module (lib.system_rpc deps.client deps.pool)

    to_first :
        (r : Result lib.RpcModule lib.Error)
        → first ≡ r
        → create_full lib deps ≡ ok made
        → (with_system : lib.RpcModule) × (first ≡ ok with_system)
          × (lib.merge with_system (lib.transaction_payment_rpc deps.client) ≡ ok made)
    to_first (ok m) e h = (m, e, ground arith)
    to_first (err x) e h = ground arith

    to :
        create_full lib deps ≡ ok made
        → (with_system : lib.RpcModule) × (first ≡ ok with_system)
          × (lib.merge with_system (lib.transaction_payment_rpc deps.client) ≡ ok made)
    to h = to_first first refl h

    from :
        ((with_system : lib.RpcModule) × (first ≡ ok with_system)
          × (lib.merge with_system (lib.transaction_payment_rpc deps.client) ≡ ok made))
        → create_full lib deps ≡ ok made
    from (with_system, e, h) = ground arith
