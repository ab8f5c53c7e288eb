-- ===== src/Node/Rpc/Tests.antt =====
-- A run of the RPC module: modules are lists of method numbers.
use polkadot_confidential_of.Base.{ℕ, String, ◌≡◌, refl, ok, List, [], ◌∷◌, ◌++◌}
use polkadot_confidential_of.Node.Rpc.{RpcLibrary, FullDeps, create_full}

abbrev list_rpc : RpcLibrary
list_rpc = record {
  Client = ℕ;
  Pool = ℕ;
  RpcModule = List ℕ;
  Error = String;
  empty_module = [];
  merge = λ xs ys. ok (xs ++ ys);
  system_rpc = λ client pool. client ∷ pool ∷ [];
  transaction_payment_rpc = λ client. client ∷ [];
}

abbrev two_deps : FullDeps list_rpc
two_deps = record { client = 1; pool = 2 }

create_full_runs : create_full list_rpc two_deps ≡ ok (1 ∷ 2 ∷ 1 ∷ [])
unfolding create_full
create_full_runs = refl
