-- ===== src/Runtime/Apis/Tests.antt =====
-- The apis on the host in memory.
use polkadot_confidential_of.Base.{
  ◌≡◌, ◌≢◌, ◌↔◌, refl, String, none, some, List, [], All, arith, true, returned, codes, err, ℕ,
}
use polkadot_confidential_of.Utf8.{Str, IsScalar, as_bytes, from_utf8}
use polkadot_confidential_of.Offchain.Fetcher.{fetch_string}
use polkadot_confidential_of.Offchain.Memory.{Memory, answer, memory_host}
use polkadot_confidential_of.Ocw.{worker_request}
use polkadot_confidential_of.Ocw.Worker.{announced}
use polkadot_confidential_of.Runtime.Genesis.Memory.{seed_keys, plain_serde}
use polkadot_confidential_of.Runtime.Apis.{genesis_builder, dispatched, aura_api}
use polkadot_confidential_of.Runtime.Apis.Laws.{api_presets}
use polkadot_confidential_of.Runtime.Apis.Memory.{number_frames, number_presets}

abbrev key : Str
key = codes "my_secret_api_key_12345"

abbrev keyed : Memory
keyed = record {
  store = λ k. some (as_bytes key);
  lines = [];
  sent = [];
  reply = answer 200 (codes "ok");
  now = 0;
}

key-IsScalar : All IsScalar key
key-IsScalar = ground arith

abbrev after_request : Memory
after_request =
    (fetch_string memory_host (worker_request key) (announced memory_host true key keyed)).1

keyed_answers :
    fetch_string memory_host (worker_request key) (announced memory_host true key keyed)
    ≡ (returned (codes "ok"), after_request)
unfolding fetch_string from_utf8 as_bytes
keyed_answers = refl

api_presets_example :
    let api = genesis_builder memory_host number_frames seed_keys plain_serde in
    All (λ n. (x : List ℕ) × (api.get_preset (some n) ≡ returned (some x))) api.preset_names
    × ((id : String)
        → (api.get_preset (some id) ≡ returned none) ↔ All (λ n. id ≢ n) api.preset_names)
    × ((x : List ℕ) × (api.get_preset none ≡ returned (some x)))
api_presets_example =
    api_presets memory_host number_frames seed_keys plain_serde number_presets
      (λ c e. absurd (cc e)) (λ v e. absurd (cc e))

slot_lasts : (aura_api memory_host number_frames).slot_duration ≡ 6000
unfolding aura_api
slot_lasts = refl

no_batches : dispatched {Batch = ℕ} [] ≡ err "Benchmark not found for this pallet."
unfolding dispatched
no_batches = refl
