-- ===== src/Runtime/Apis.antt =====
-- runtime/src/apis.rs: the runtime's implementations of the runtime apis, each a record with the api's
-- methods. What they forward to (frame-executive, the pallets, what the runtime macros generate) is
-- not in this repository: it is the parameter `Frames` of Runtime/ApiFrames. Calls that change the chain are of type
-- `Exec`; queries read it.
pub mod Laws
pub mod Memory
mod Tests
use polkadot_confidential_of.Base.{
  ℕ, String, Bool, Option, some, List, [], ◌∷◌, Result, ok, err, Ended, Exec, modify, ◌>>◌,
}
use polkadot_confidential_of.Runtime.ApiFrames.{Bytes, ApiTypes, Frames}
use polkadot_confidential_of.Offchain.{Host}
use polkadot_confidential_of.Ocw.{offchain_worker}
use polkadot_confidential_of.Runtime.{
  slot_duration, unincluded_segment_capacity, block_processing_velocity,
  relay_chain_slot_duration_millis,
}
use polkadot_confidential_of.Runtime.Genesis.{Keys, Serde, get_preset, preset_names}

-- sp-version's `RuntimeVersion`. `Apis` is the type of the list that the apis generate.
pub record RuntimeVersion (Apis : Type 0) : Type 0 where
  pub spec_name : String
  pub impl_name : String
  pub authoring_version : ℕ
  pub spec_version : ℕ
  pub impl_version : ℕ
  pub apis : Apis
  pub transaction_version : ℕ
  pub state_version : ℕ

-- `VERSION` of runtime/src/lib.rs
abbrev pub version : {Apis : Type 0} → Apis → RuntimeVersion Apis
version apis = record {
  spec_name = "parachain-template-runtime";
  impl_name = "parachain-template-runtime";
  authoring_version = 1;
  spec_version = 1;
  impl_version = 0;
  apis = apis;
  transaction_version = 1;
  state_version = 1;
}

module _ (h : Host) {t : ApiTypes} (f : Frames h.World t) where
  open h use {World}

  abbrev pub impl_slot_duration : t.SlotDuration
  impl_slot_duration = f.from_millis slot_duration

  -- `ConsensusHook` of runtime/src/lib.rs
  abbrev pub consensus_hook : t.BlockHash → t.Slot → World → Bool
  consensus_hook =
      f.fixed_velocity_hook relay_chain_slot_duration_millis block_processing_velocity
        unincluded_segment_capacity

  unfoldable pub impl_can_build_upon : t.BlockHash → t.Slot → World → Bool
  impl_can_build_upon included_hash slot = consensus_hook included_hash slot

  -- `AuraApi` and `AuraUnincludedSegmentApi`
  pub record AuraApi : Type 0 where
    pub slot_duration : t.SlotDuration
    pub authorities : World → List t.AuraId
    pub can_build_upon : t.BlockHash → t.Slot → World → Bool

  unfoldable pub aura_api : AuraApi
  unfolding impl_can_build_upon
  aura_api = record {
    slot_duration = impl_slot_duration;
    authorities = f.aura_authorities;
    can_build_upon = impl_can_build_upon;
  }

  -- `Core` and `Metadata`
  pub record Core : Type 0 where
    pub version : RuntimeVersion t.Apis
    pub execute_block : t.Block → Exec World ⊥ (Unit {0})
    pub initialize_block : t.Header → Exec World ⊥ t.InclusionMode
    pub metadata : t.OpaqueMetadata
    pub metadata_at_version : ℕ → Option t.OpaqueMetadata
    pub metadata_versions : List ℕ

  unfoldable pub core : Core
  core = record {
    version = version f.api_versions;
    execute_block = f.execute_block;
    initialize_block = f.initialize_block;
    metadata = f.opaque f.metadata;
    metadata_at_version = f.metadata_at_version;
    metadata_versions = f.metadata_versions;
  }

  -- `BlockBuilder` and `TaggedTransactionQueue`
  pub record BlockBuilder : Type 0 where
    pub apply_extrinsic : t.Extrinsic → Exec World ⊥ t.ApplyResult
    pub finalize_block : Exec World ⊥ t.Header
    pub inherent_extrinsics : t.InherentData → World → List t.Extrinsic
    pub check_inherents : t.Block → t.InherentData → World → t.CheckInherents
    pub validate_transaction : t.Source → t.Extrinsic → t.BlockHash → Exec World ⊥ t.Validity

  unfoldable pub block_builder : BlockBuilder
  block_builder = record {
    apply_extrinsic = f.apply_extrinsic;
    finalize_block = f.finalize_block;
    inherent_extrinsics = λ inherents. f.create_extrinsics inherents;
    check_inherents = λ block inherents. f.check_extrinsics inherents block;
    validate_transaction = f.validate_transaction;
  }

  -- The hooks of all pallets, in the order of their indices: the offchain worker pallet is the last.
  abbrev pub all_hooks : Bool → ℕ → Exec World ⊥ (Unit {0})
  all_hooks checks n = modify (f.other_hooks n) >> offchain_worker h checks n

  -- `OffchainWorkerApi`. `checks` says whether the build has overflow checks.
  unfoldable pub offchain_worker_api : Bool → t.Header → Exec World ⊥ (Unit {0})
  offchain_worker_api checks header = f.executive_worker (all_hooks checks) header

  -- `SessionKeys` and `AccountNonceApi`
  pub record CollatorApi : Type 0 where
    pub generate_session_keys : Option Bytes → Exec World ⊥ Bytes
    pub decode_session_keys : Bytes → Option (List (Bytes × t.KeyTypeId))
    pub account_nonce : t.AccountId → World → ℕ

  unfoldable pub collator_api : CollatorApi
  collator_api = record {
    generate_session_keys = f.generate_keys;
    decode_session_keys = f.decode_keys;
    account_nonce = f.account_nonce;
  }

  -- `CollectCollationInfo`
  unfoldable pub collation_api : t.Header → World → t.CollationInfo
  collation_api header = f.collect_collation_info header

  -- `TransactionPaymentApi` and `TransactionPaymentCallApi`, whose last two methods agree.
  pub record PaymentApi : Type 0 where
    pub query_info : t.Extrinsic → ℕ → World → t.DispatchInfo
    pub query_fee_details : t.Extrinsic → ℕ → World → t.FeeDetails
    pub query_call_info : t.RuntimeCall → ℕ → World → t.DispatchInfo
    pub query_call_fee_details : t.RuntimeCall → ℕ → World → t.FeeDetails
    pub query_weight_to_fee : t.Weight → World → ℕ
    pub query_length_to_fee : ℕ → World → ℕ

  unfoldable pub payment_api : PaymentApi
  payment_api = record {
    query_info = f.query_info;
    query_fee_details = f.query_fee_details;
    query_call_info = f.query_call_info;
    query_call_fee_details = f.query_call_fee_details;
    query_weight_to_fee = f.weight_to_fee;
    query_length_to_fee = f.length_to_fee;
  }

  module _ (k : Keys) (serde : Serde k) where
    -- `GenesisBuilder`
    pub record GenesisBuilder : Type 0 where
      pub build_state : Bytes → Exec World String (Unit {0})
      pub get_preset : Option String → Ended ⊥ (Option Bytes)
      pub preset_names : List String

    unfoldable pub genesis_builder : GenesisBuilder
    genesis_builder = record {
      build_state = f.build_state;
      get_preset = λ id. f.preset_of id (get_preset k serde);
      preset_names = preset_names k serde;
    }

-- The end of `dispatch_benchmark`, for the batches that the benchmarks made.
unfoldable pub dispatched : {Batch : Type 0} → List Batch → Result (List Batch) String
dispatched [] = err "Benchmark not found for this pallet."
dispatched (batch ∷ batches) = ok (batch ∷ batches)
