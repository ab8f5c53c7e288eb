-- ===== src/Runtime/ApiFrames.antt =====
-- What runtime/src/apis.rs forwards to: the types of frame-executive and of the pallets, their
-- functions, and what the runtime macros generate. None of it is in this repository.
use polkadot_confidential_of.Base.{ℕ, String, Bool, Option, List, Ended, Exec}

abbrev pub Bytes : Type 0
Bytes = List ℕ

-- The types that the apis pass on.
pub record ApiTypes : Type 1 where
  pub Block : Type 0
  pub Header : Type 0
  pub Extrinsic : Type 0
  pub BlockHash : Type 0
  pub Slot : Type 0
  pub SlotDuration : Type 0
  pub AuraId : Type 0
  pub Apis : Type 0
  pub OpaqueMetadata : Type 0
  pub InclusionMode : Type 0
  pub InherentData : Type 0
  pub CheckInherents : Type 0
  pub ApplyResult : Type 0
  pub Source : Type 0
  pub Validity : Type 0
  pub KeyTypeId : Type 0
  pub AccountId : Type 0
  pub RuntimeCall : Type 0
  pub Weight : Type 0
  pub DispatchInfo : Type 0
  pub FeeDetails : Type 0
  pub CollationInfo : Type 0

-- What the apis forward to, on a chain with the world `World`.
pub record Frames (World : Type 0) (t : ApiTypes) : Type 1 where
  pub from_millis : ℕ → t.SlotDuration  -- `SlotDuration::from_millis`
  pub aura_authorities : World → List t.AuraId
  -- `FixedVelocityConsensusHook::can_build_upon`, for the slot of the relay chain, the velocity and the
  -- capacity.
  pub fixed_velocity_hook : ℕ → ℕ → ℕ → t.BlockHash → t.Slot → World → Bool
  pub api_versions : t.Apis  -- `RUNTIME_API_VERSIONS`
  pub execute_block : t.Block → Exec World ⊥ (Unit {0})
  pub initialize_block : t.Header → Exec World ⊥ t.InclusionMode
  pub apply_extrinsic : t.Extrinsic → Exec World ⊥ t.ApplyResult
  pub finalize_block : Exec World ⊥ t.Header
  pub validate_transaction : t.Source → t.Extrinsic → t.BlockHash → Exec World ⊥ t.Validity
  -- `Executive::offchain_worker`, for the hooks of all pallets.
  pub executive_worker : (ℕ → Exec World ⊥ (Unit {0})) → t.Header → Exec World ⊥ (Unit {0})
  pub other_hooks : ℕ → World → World
  pub metadata : Bytes
  pub opaque : Bytes → t.OpaqueMetadata
  pub metadata_at_version : ℕ → Option t.OpaqueMetadata
  pub metadata_versions : List ℕ
  pub create_extrinsics : t.InherentData → World → List t.Extrinsic
  pub check_extrinsics : t.InherentData → t.Block → World → t.CheckInherents
  pub generate_keys : Option Bytes → Exec World ⊥ Bytes  -- `SessionKeys::generate`
  pub decode_keys : Bytes → Option (List (Bytes × t.KeyTypeId))
  pub account_nonce : t.AccountId → World → ℕ
  pub query_info : t.Extrinsic → ℕ → World → t.DispatchInfo
  pub query_fee_details : t.Extrinsic → ℕ → World → t.FeeDetails
  pub query_call_info : t.RuntimeCall → ℕ → World → t.DispatchInfo
  pub query_call_fee_details : t.RuntimeCall → ℕ → World → t.FeeDetails
  pub weight_to_fee : t.Weight → World → ℕ
  pub length_to_fee : ℕ → World → ℕ
  pub collect_collation_info : t.Header → World → t.CollationInfo
  pub build_state : Bytes → Exec World String (Unit {0})
  -- frame-support's helper `get_preset`.
  pub preset_of : Option String → (String → Ended ⊥ (Option Bytes)) → Ended ⊥ (Option Bytes)
