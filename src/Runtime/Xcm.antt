-- ===== src/Runtime/Xcm.antt =====
-- runtime/src/configs/xcm_config.rs: who may execute a message on the chain, and what its origin
-- becomes. The rules and the converters themselves are in staging-xcm-builder, which is not in this
-- repository: they are the parameters `Rules` and `Converters`; what is modelled is how the runtime
-- puts them together. A rule is read as its answer: what it changes in the message or its weight
-- credit is part of the parameter.
pub mod Barriers
pub mod Origins
pub mod Weighing
pub mod Executor
pub mod Routes
pub mod Assets
pub mod Accounts
pub mod Prices
pub mod Outgoing
pub mod Memory
pub mod RouteMemory
pub mod AssetMemory
mod AssetTests
mod Tests
use polkadot_confidential_of.Base.{
  ℕ, Bool, true, false, ◌&&◌, ◌==◌, Option, none, some, List, [], ◌∷◌,
}

-- The bodies and junctions of XCM, as far as the code and its documentation tell them apart.
pub data BodyId (Other : Type 0) : Type 0 where
  executive defense : BodyId Other
  other_body : Other → BodyId Other

pub record LocationTypes : Type 1 where
  pub NetworkId : Type 0
  pub OtherBody : Type 0
  pub BodyPart : Type 0
  pub AccountId : Type 0
  pub OtherJunction : Type 0

-- What a message asks its origin to become. `superuser` asks for root.
pub data OriginKind : Type 0 where
  native sovereign_account superuser xcm_kind : OriginKind

module _ (t : LocationTypes) where
  open t use {NetworkId, OtherBody, BodyPart, AccountId, OtherJunction}

  pub data Junction : Type 0 where
    parachain : ℕ → Junction
    account_id32 : Option NetworkId → AccountId → Junction
    plurality : BodyId OtherBody → BodyPart → Junction
    other_junction : OtherJunction → Junction

  pub record Location : Type 0 where
    pub parents : ℕ
    pub interior : List Junction

  -- `RelayLocation`
  abbrev pub relay_location : Location
  relay_location = record { parents = 1; interior = [] }

  -- `RelayNetwork`
  abbrev pub relay_network : Option NetworkId
  relay_network = none

  -- `UniversalLocation`, for the id in the parachain info pallet.
  abbrev pub universal_location : ℕ → List Junction
  universal_location parachain_id = parachain parachain_id ∷ []

  here_or_executive : List Junction → Bool
  here_or_executive [] = true
  here_or_executive (plurality executive part ∷ []) = true
  here_or_executive (plurality executive part ∷ j ∷ js) = false
  here_or_executive (plurality defense part ∷ js) = false
  here_or_executive (plurality (other_body b) part ∷ js) = false
  here_or_executive (parachain id ∷ js) = false
  here_or_executive (account_id32 network id ∷ js) = false
  here_or_executive (other_junction j ∷ js) = false

  -- `ParentOrParentsExecutivePlurality::contains`
  unfoldable pub contains : Location → Bool
  unfolding here_or_executive
  contains location = (location.parents == 1) && here_or_executive location.interior

  -- The rules of staging-xcm-builder. A tuple of two rules is `either`.
  pub record Rules : Type 1 where
    pub Request : Type 0
    pub origin : Request → Location
    pub trailing_set_topic_as_id : (Request → Bool) → Request → Bool
    pub deny_then_try : (Request → Bool) → (Request → Bool) → Request → Bool
    pub denies_reserve_transfer_to_relay_chain : Request → Bool
    pub take_weight_credit : Request → Bool
    pub with_computed_origin : (Request → Bool) → List Junction → ℕ → Request → Bool
    pub allow_top_level_paid_execution_from : (Location → Bool) → Request → Bool
    pub allow_explicit_unpaid_execution_from : (Location → Bool) → Request → Bool
    pub either : (Request → Bool) → (Request → Bool) → Request → Bool

  -- `Everything`
  abbrev pub everything : Location → Bool
  everything location = true

  -- `Barrier`
  unfoldable pub barrier : (r : Rules) → ℕ → r.Request → Bool
  barrier r parachain_id = r.trailing_set_topic_as_id (
      r.deny_then_try r.denies_reserve_transfer_to_relay_chain (
        r.either r.take_weight_credit (
          r.with_computed_origin
            (r.either (r.allow_top_level_paid_execution_from everything)
              (r.allow_explicit_unpaid_execution_from contains))
            (universal_location parachain_id) 8)))

  -- `RuntimeOrigin`: the origins of frame-system (`unsigned` is its `None`), of cumulus-pallet-xcm and
  -- of pallet-xcm; the other pallets of the runtime have none.
  pub data RuntimeOrigin : Type 0 where
    root : RuntimeOrigin
    signed : AccountId → RuntimeOrigin
    unsigned : RuntimeOrigin
    relay : RuntimeOrigin
    sibling_parachain : ℕ → RuntimeOrigin
    xcm : Location → RuntimeOrigin
    response : Location → RuntimeOrigin

  abbrev pub Converter : Type 0
  Converter = Location → OriginKind → Option RuntimeOrigin

  -- The converters of staging-xcm-builder and pallet-xcm.
  pub record Converters : Type 0 where
    pub parent_is_preset : Location → Option AccountId
    pub sibling_parachain_converts_via : Location → Option AccountId
    pub account_id32_aliases : Option NetworkId → Location → Option AccountId
    pub sovereign_signed_via_location : (Location → Option AccountId) → Converter
    pub relay_chain_as_native : RuntimeOrigin → Converter
    pub sibling_parachain_as_native : (ℕ → RuntimeOrigin) → Converter
    pub signed_account_id32_as_native : Option NetworkId → Converter
    pub xcm_passthrough : Converter

  -- A tuple of converters: the first that succeeds.
  abbrev pub first_some : {A : Type 0} → Option A → Option A → Option A
  first_some none b = b
  first_some (some a) b = some a

  module _ (c : Converters) where
    -- `LocationToAccountId`
    unfoldable pub location_to_account_id : Location → Option AccountId
    location_to_account_id location = first_some (c.parent_is_preset location) (
        first_some (c.sibling_parachain_converts_via location)
          (c.account_id32_aliases relay_network location))

    -- `XcmOriginToTransactDispatchOrigin`
    unfoldable pub to_dispatch_origin : Converter
    to_dispatch_origin location kind =
        first_some (c.sovereign_signed_via_location location_to_account_id location kind) (
          first_some (c.relay_chain_as_native relay location kind) (
            first_some (c.sibling_parachain_as_native sibling_parachain location kind) (
              first_some (c.signed_account_id32_as_native relay_network location kind)
                (c.xcm_passthrough location kind))))
