-- ===== src/Runtime/Benchmarks.antt =====
-- The benchmark api of runtime/src/apis.rs, which builds with the feature runtime-benchmarks have, and
-- the list of runtime/src/benchmarks.rs. The macros of frame-benchmarking that go through the list
-- do so in its order; what they do for one pallet is the parameter `Benchmarking`.
pub mod Laws
mod Tests
use polkadot_confidential_of.Base.{
  ℕ, ◌%◌, ◌^◌, String, List, [], ◌∷◌, length, Bool, Result, Ended, Exec, pure, from_result, modify,
  returned, ◌>>=◌,
}
use polkadot_confidential_of.Runtime.Apis.{dispatched}

-- The pallets that the list names, in the order of the list.
pub data Benched : Type 0 where
  system_bench balances session_bench timestamp message_queue sudo : Benched
  collator_selection parachain_system xcmp_queue : Benched

-- `define_benchmarks!`
unfoldable pub benchmarks : List (String × Benched)
benchmarks =
    ("frame_system", system_bench)
    ∷ ("pallet_balances", balances)
    ∷ ("pallet_session", session_bench)
    ∷ ("pallet_timestamp", timestamp)
    ∷ ("pallet_message_queue", message_queue)
    ∷ ("pallet_sudo", sudo)
    ∷ ("pallet_collator_selection", collator_selection)
    ∷ ("cumulus_pallet_parachain_system", parachain_system)
    ∷ ("cumulus_pallet_xcmp_queue", xcmp_queue)
    ∷ []

-- `pallet` is the name of the pallet in a configuration, as code points; `list_benchmark!` and
-- `add_benchmark!` act for one pallet.
pub record Benchmarking : Type 1 where
  pub World : Type 0
  pub Config : Type 0
  pub Whitelist : Type 0
  pub Entry : Type 0  -- BenchmarkList
  pub StorageInfo : Type 0
  pub Batch : Type 0
  pub Event : Type 0
  pub pallet : Config → List ℕ
  pub list_benchmark : Bool → String → Benched → List Entry → List Entry
  pub add_benchmark :
      Config × Whitelist → String → Benched → List Batch → Exec World String (List Batch)
  pub storage_info : List StorageInfo
  pub whitelisted_storage_keys : World → Whitelist
  pub initialize_for_set_code_benchmark : ℕ → World → World
  pub assert_last_event : Event → Exec World ⊥ (Unit {0})
  pub validation_function_stored : Event

module _ (f : Benchmarking) where
  open f use {World, Config, Whitelist, Entry, StorageInfo, Batch}

  -- `list_benchmarks!`
  unfoldable pub list_benchmarks : Bool → List (String × Benched) → List Entry → List Entry
  list_benchmarks extra [] list = list
  list_benchmarks extra ((name, p) ∷ rest) list =
      list_benchmarks extra rest (f.list_benchmark extra name p list)

  -- `add_benchmarks!`
  unfoldable pub add_benchmarks :
      Config × Whitelist → List (String × Benched) → List Batch → Exec World String (List Batch)
  add_benchmarks params [] batches = pure batches
  add_benchmarks params ((name, p) ∷ rest) batches =
      f.add_benchmark params name p batches >>= add_benchmarks params rest

  unfoldable pub benchmark_metadata : Bool → List Entry × List StorageInfo
  benchmark_metadata extra = (list_benchmarks extra benchmarks [], f.storage_info)

  unfoldable pub dispatch_benchmark : Config → Exec World String (List Batch)
  dispatch_benchmark config = do
    whitelist ← λ w. (returned (f.whitelisted_storage_keys w), w)
    batches ← add_benchmarks (config, whitelist) benchmarks []
    from_result (dispatched batches)

  -- The configuration of the benchmarks of frame-system.
  unfoldable pub setup_set_code_requirements : List ℕ → Exec World String (Unit {0})
  setup_set_code_requirements code =
      modify (f.initialize_for_set_code_benchmark (length code % 2 ^ 32))

  unfoldable pub verify_set_code : Exec World ⊥ (Unit {0})
  verify_set_code = f.assert_last_event f.validation_function_stored
