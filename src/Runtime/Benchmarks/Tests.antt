-- ===== src/Runtime/Benchmarks/Tests.antt =====
-- Benchmarks whose batches are the pallets, in a world that counts the runs.
use mathlib.Core.List.{Memᴰ}
use mathlib.Core.Logic.{ite, if_pos, if_neg}
use polkadot_confidential_of.Base.{
  ℕ, ◌+◌, ◌≡◌, ◌⊎◌, refl, String, codes, some, List, [], ◌∷◌, ◌++◌, true, returned, failed,
}
use polkadot_confidential_of.Offchain.Memory.{Bytes-discrete}
use polkadot_confidential_of.Runtime.Benchmarks.{
  Benched, benchmarks, Benchmarking, list_benchmarks, benchmark_metadata, dispatch_benchmark,
}
use polkadot_confidential_of.Runtime.Benchmarks.Laws.{BenchmarkLaws, Misses, dispatch_benchmark_lem}

abbrev counting : Benchmarking
counting = record {
  World = ℕ;
  Config = List ℕ;
  Whitelist = ℕ;
  Entry = String;
  StorageInfo = ℕ;
  Batch = Benched;
  Event = ℕ;
  pallet = λ config. config;
  list_benchmark = λ extra name p list. list ++ name ∷ [];
  add_benchmark = λ params name p batches w.
      ite (Bytes-discrete params.0 (codes name)) (returned (batches ++ p ∷ []), w + 1)
        (returned batches, w);
  storage_info = [];
  whitelisted_storage_keys = λ w. 0;
  initialize_for_set_code_benchmark = λ n w. w;
  assert_last_event = λ e w. (returned tt, w);
  validation_function_stored = 0;
}

counting_laws : BenchmarkLaws counting
counting_laws = record {
  run = λ config keys p w. (returned (some p), w + 1);
  other = λ config keys name p batches w apart.
      if_neg (Bytes-discrete config (codes name)) apart (returned (batches ++ p ∷ []), w + 1)
        (returned batches, w);
  own = λ config keys name p batches w same.
      if_pos (Bytes-discrete config (codes name)) same (returned (batches ++ p ∷ []), w + 1)
        (returned batches, w);
}

abbrev config : List ℕ
config = codes "pallet_sudo"

listed_all :
    (benchmark_metadata counting true).0
    ≡ "frame_system" ∷ "pallet_balances" ∷ "pallet_session" ∷ "pallet_timestamp"
      ∷ "pallet_message_queue" ∷ "pallet_sudo" ∷ "pallet_collator_selection"
      ∷ "cumulus_pallet_parachain_system" ∷ "cumulus_pallet_xcmp_queue" ∷ []
unfolding benchmark_metadata list_benchmarks benchmarks
listed_all = refl

dispatch_benchmark_lem_example :
    (Misses counting counting_laws config benchmarks
      → dispatch_benchmark counting config 3 ≡ (failed "Benchmark not found for this pallet.", 3))
    × ((name : String) (p : Benched)
        → Memᴰ (name, p) benchmarks
        → config ≡ codes name
        → dispatch_benchmark counting config 3 ≡ (returned (p ∷ []), 4))
    × ((config ≡ codes "pallet_template") ⊎ (config ≡ codes "pallet_parachain_template")
        → dispatch_benchmark counting config 3 ≡ (failed "Benchmark not found for this pallet.", 3))
unfolding counting_laws
dispatch_benchmark_lem_example = dispatch_benchmark_lem counting counting_laws config 3
