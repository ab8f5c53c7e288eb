-- ===== src/Runtime/Apis/Memory.antt =====
-- Apis on the host in memory, whose values are numbers, for the examples. The preparation of a
-- block and the hooks of the other pallets do nothing.
use polkadot_confidential_of.Base.{
  ℕ, String, Option, ltb, none, some, List, [], ◌∷◌, Ended, returned, refl,
}
use polkadot_confidential_of.Offchain.Memory.{Memory, memory_host}
use polkadot_confidential_of.Runtime.Genesis.Memory.{seed_keys, plain_serde}
use polkadot_confidential_of.Runtime.ApiFrames.{ApiTypes, Frames}
use polkadot_confidential_of.Runtime.Apis.Laws.{ExecutiveLaws, PresetLaws}

abbrev pub number_api_types : ApiTypes
number_api_types = record {
  Block = ℕ;
  Header = ℕ;
  Extrinsic = ℕ;
  BlockHash = ℕ;
  Slot = ℕ;
  SlotDuration = ℕ;
  AuraId = ℕ;
  Apis = ℕ;
  OpaqueMetadata = List ℕ;
  InclusionMode = ℕ;
  InherentData = List ℕ;
  CheckInherents = ℕ;
  ApplyResult = ℕ;
  Source = ℕ;
  Validity = ℕ;
  KeyTypeId = ℕ;
  AccountId = ℕ;
  RuntimeCall = ℕ;
  Weight = ℕ;
  DispatchInfo = ℕ;
  FeeDetails = ℕ;
  CollationInfo = ℕ;
}

-- No name stands for an empty configuration.
abbrev pub named_preset :
    Option String → (String → Ended ⊥ (Option (List ℕ))) → Ended ⊥ (Option (List ℕ))
named_preset none g = returned (some [])
named_preset (some id) g = g id

abbrev pub number_frames : Frames Memory number_api_types
number_frames = record {
  from_millis = λ n. n;
  aura_authorities = λ w. [];
  fixed_velocity_hook = λ duration velocity capacity hash slot w. ltb w.now capacity;
  api_versions = 1;
  execute_block = λ block w. (returned tt, w);
  initialize_block = λ header w. (returned 0, w);
  apply_extrinsic = λ x w. (returned x, w);
  finalize_block = λ w. (returned 0, w);
  validate_transaction = λ source x hash w. (returned x, w);
  executive_worker = λ hooks header. hooks header;
  other_hooks = λ n w. w;
  metadata = [];
  opaque = λ bytes. bytes;
  metadata_at_version = λ v. none;
  metadata_versions = 14 ∷ [];
  create_extrinsics = λ inherents w. inherents;
  check_extrinsics = λ inherents block w. block;
  generate_keys = λ seed w. (returned [], w);
  decode_keys = λ bytes. none;
  account_nonce = λ account w. 0;
  query_info = λ x n w. x;
  query_fee_details = λ x n w. x;
  query_call_info = λ x n w. x;
  query_call_fee_details = λ x n w. x;
  weight_to_fee = λ weight w. weight;
  length_to_fee = λ n w. n;
  collect_collation_info = λ header w. header;
  build_state = λ config w. (returned tt, w);
  preset_of = named_preset;
}

abbrev pub number_executive : ExecutiveLaws memory_host number_frames
number_executive = record {
  number = λ header. header;
  prepare = λ header w. w;
  worker_runs = λ hooks header w. refl;
  get_prepare = λ key header w. refl;
  get_others = λ key n w. refl;
}

pub number_presets : PresetLaws memory_host number_frames seed_keys plain_serde
number_presets = record { default_text = []; preset_none = λ g. refl; preset_some = λ id g. refl }
