-- ===== src/Runtime/Apis/Laws.antt =====
-- The apis of the runtime under the documented behaviour of what they forward to: the hook of the
-- offchain worker, and the genesis presets.
use polkadot_confidential_of.Base.{
  ℕ, ◌<◌, ◌≡◌, ◌≢◌, ◌↔◌, ◌∙◌, String, Bool, Option, none, some, List, Ended, returned, Result, All,
  All-weaken,
}
use polkadot_confidential_of.Utf8.{Str, IsScalar, as_bytes}
use polkadot_confidential_of.Offchain.{persistent, Host}
use polkadot_confidential_of.Offchain.Laws.{StorageLaws}
use polkadot_confidential_of.Offchain.ApiKey.RoundTrip.{stored}
use polkadot_confidential_of.Offchain.Fetcher.{fetch_string}
use polkadot_confidential_of.Ocw.{api_key_name, worker_request, offchain_worker}
use polkadot_confidential_of.Ocw.Worker.{settled, announced, finished, worker_with_key}
use polkadot_confidential_of.Runtime.Genesis.{Keys, GenesisConfig, Serde, preset_names}
use polkadot_confidential_of.Runtime.Genesis.Laws.{get_preset-listed, get_preset-eq-none_iff}
use polkadot_confidential_of.Runtime.ApiFrames.{Bytes, ApiTypes, Frames}
use polkadot_confidential_of.Runtime.Apis.{offchain_worker_api, genesis_builder}

module _ (h : Host) {t : ApiTypes} (f : Frames h.World t) where
  open h use {World, local_storage_get}

  -- frame-executive prepares the block of the header and calls the hooks for its number. Neither
  -- this nor the hooks of the other pallets touch the local storage.
  pub record ExecutiveLaws : Type 0 where
    pub number : t.Header → ℕ
    pub prepare : t.Header → World → World
    pub worker_runs :
        (hooks : ℕ → World → Ended ⊥ (Unit {0}) × World) (header : t.Header) (w : World)
        → f.executive_worker hooks header w ≡ hooks (number header) (prepare header w)
    pub get_prepare :
        (key : List ℕ) (header : t.Header) (w : World)
        → local_storage_get persistent key (prepare header w) ≡ local_storage_get persistent key w
    pub get_others :
        (key : List ℕ) (n : ℕ) (w : World)
        → local_storage_get persistent key (f.other_hooks n w) ≡ local_storage_get persistent key w

  module _ (laws : ExecutiveLaws) where
    -- The world in which the worker starts.
    abbrev pub started : t.Header → World → World
    started header w = f.other_hooks (laws.number header) (laws.prepare header w)

    api_worker :
        (checks : Bool) (header : t.Header) (w : World)
        → offchain_worker_api h f checks header w
          ≡ offchain_worker h checks (laws.number header) (started header w)
    unfolding offchain_worker_api
    api_worker checks header w = laws.worker_runs _ header w

    -- For the header of a block after the genesis, and with a stored key that is text, the
    -- offchain worker api of the runtime runs the worker of the pallet for the number of the
    -- block to its normal end, if frame-executive and the hooks of the other pallets leave the
    -- local storage alone and the request does not panic.
    pub api_worker_with_key :
        (storage : StorageLaws h) (checks : Bool) (header : t.Header) (key : Str)
        (r : Result Str String) (w w' : World)
        → 0 < laws.number header
        → All IsScalar key
        → stored h api_key_name w ≡ some (as_bytes key)
        → fetch_string h (worker_request key) (announced h checks key (started header w))
          ≡ (settled h checks r, w')
        → offchain_worker_api h f checks header w
          ≡ (returned tt, finished h checks (laws.number header) r w')
    api_worker_with_key storage checks header key r w w' later valid found e =
        api_worker checks header w
        ∙ worker_with_key h checks storage (laws.number header) key r (started header w) w' later
            valid
            (laws.get_others _ (laws.number header) (laws.prepare header w)
              ∙ laws.get_prepare _ header w
              ∙ found)
            e

  module _ (k : Keys) (serde : Serde k) where
    -- What frame-support's helper does: no name asks for the default configuration.
    pub record PresetLaws : Type 0 where
      pub default_text : Bytes
      pub preset_none :
          (g : String → Ended ⊥ (Option Bytes)) → f.preset_of none g ≡ returned (some default_text)
      pub preset_some :
          (id : String) (g : String → Ended ⊥ (Option Bytes)) → f.preset_of (some id) g ≡ g id

    -- If the configuration can be made a value and values a text, the genesis builder api has a
    -- text for every preset that it lists and for no name, and none for a name exactly if it
    -- does not list it.
    pub api_presets :
        PresetLaws
        → ((c : GenesisConfig k) → serde.to_value c ≢ none)
        → ((v : serde.Value) → serde.to_text v ≢ none)
        → let api = genesis_builder h f k serde in
          All (λ n. (x : Bytes) × (api.get_preset (some n) ≡ returned (some x))) api.preset_names
          × ((id : String)
              → (api.get_preset (some id) ≡ returned none) ↔ All (λ n. id ≢ n) api.preset_names)
          × ((x : Bytes) × (api.get_preset none ≡ returned (some x)))
    unfolding genesis_builder
    api_presets laws values texts = (
      All-weaken _ _ (λ n shown. (shown.0, laws.preset_some n _ ∙ shown.1)) (preset_names k serde)
          (get_preset-listed k serde values texts),
      λ id. rw laws.preset_some (get_preset-eq-none_iff k serde id),
      (laws.default_text, laws.preset_none _),
    )
