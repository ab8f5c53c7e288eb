-- ===== src/Runtime/Xcm/Executor.antt =====
-- `XcmConfig` of runtime/src/configs/xcm_config.rs, as far as it decides which messages are executed
-- and with which origins they call the runtime. The executor itself is in staging-xcm-executor, which
-- is not in this repository: it is the parameter `Executor`.
use polkadot_confidential_of.Base.{ℕ, ◌≡◌, Bool, true, false, Option, none, some, List, ◌++◌, All}
use polkadot_confidential_of.Runtime.Fees.{Weights}
use polkadot_confidential_of.Runtime.Xcm.{
  LocationTypes, Junction, Location, universal_location, Rules, barrier, RuntimeOrigin, OriginKind,
  Converters, to_dispatch_origin,
}
use polkadot_confidential_of.Runtime.Xcm.Barriers.{RuleLaws}
use polkadot_confidential_of.Runtime.Xcm.Weighing.{Bounds, weigher}

module _ (t : LocationTypes) (x : Weights) where
  -- What staging-xcm-executor is told about a chain. `Asset` and `Call` are the assets of a message
  -- and the calls that it may dispatch.
  pub record Config (Message Asset Call : Type 0) : Type 0 where
    pub origin_converter : Location t → OriginKind → Option (RuntimeOrigin t)
    pub is_reserve : Asset → Location t → Bool
    pub is_teleporter : Asset → Location t → Bool
    pub universal_location : List (Junction t)
    pub should_execute : Location t → Message → Bool  -- `Barrier`
    pub weigher : Message → Option x.Weight
    pub universal_aliases : Location t → Junction t → Bool
    pub safe_call_filter : Call → Bool
    pub aliasers : Location t → Location t → Bool

  -- `request` is what the rules see of a message from a location that has no weight credit, as
  -- those of a queue; `execute` is how the executor handles such a message.
  pub record Executor (r : Rules t) (b : Bounds x) : Type 1 where
    pub World : Type 0
    pub Asset : Type 0
    pub Call : Type 0
    pub native_asset : Asset → Location t → Bool
    pub request : Location t → b.Message → r.Request
    pub execute : Config b.Message Asset Call → Location t → b.Message → World → World

  -- `UniversalAliases`, `SafeCallFilter` and `Aliasers`
  abbrev pub universal_aliases : Location t → Junction t → Bool
  universal_aliases from junction = false

  abbrev pub safe_call_filter : {Call : Type 0} → Call → Bool
  safe_call_filter call = true

  abbrev pub aliasers : Location t → Location t → Bool
  aliasers from target = false

  module _ (r : Rules t) (c : Converters t) (b : Bounds x) (e : Executor r b) where
    open e use {World, Asset, Call, request, execute}

    -- `XcmConfig`, for the id in the parachain info pallet.
    unfoldable pub xcm_config : ℕ → Config b.Message Asset Call
    xcm_config parachain_id = record {
      origin_converter = to_dispatch_origin t c;
      is_reserve = e.native_asset;
      is_teleporter = λ asset from. false;
      universal_location = universal_location t parachain_id;
      should_execute = λ from message. barrier t r parachain_id (request from message);
      weigher = weigher x b;
      universal_aliases = universal_aliases;
      safe_call_filter = safe_call_filter;
      aliasers = aliasers;
    }

    -- How the origin of a message can change while it is executed.
    pub data Reaches (g : Config b.Message Asset Call) (l : Location t) : Location t → Type 0 where
      unchanged : Reaches g l l
      descended :
          {m : Location t} (js : List (Junction t))
          → Reaches g l m
          → Reaches g l (record { parents = m.parents; interior = m.interior ++ js })
      universal :
          {m n : Location t} (j : Junction t)
          → Reaches g l m
          → g.universal_aliases m j ≡ true
          → Reaches g l n
      aliased : {m n : Location t} → Reaches g l m → g.aliasers m n ≡ true → Reaches g l n

    -- What staging-xcm-executor documents of the calls that messages dispatch: a message with no
    -- weight, or which the barrier refuses, dispatches none, and each call of another has an origin
    -- that is converted from what the origin of the message has become.
    pub record ExecutorLaws (rules : RuleLaws t r) : Type 0 where
      pub dispatched : World → List (RuntimeOrigin t)  -- the origins, the last one first
      pub unweighed :
          (g : Config b.Message Asset Call) (l : Location t) (m : b.Message) (w : World)
          → g.weigher m ≡ none
          → dispatched (execute g l m w) ≡ dispatched w
      pub refused :
          (g : Config b.Message Asset Call) (l : Location t) (m : b.Message) (w : World)
          → g.should_execute l m ≡ false
          → dispatched (execute g l m w) ≡ dispatched w
      pub executed :
          (g : Config b.Message Asset Call) (l : Location t) (m : b.Message) (w : World)
          → (new : List (RuntimeOrigin t)) × (dispatched (execute g l m w) ≡ new ++ dispatched w)
            × All
                (λ o.
                  (n : Location t) × (kind : OriginKind) × Reaches g l n
                  × (g.origin_converter n kind ≡ some o))
                new
      pub no_credit :
          (l : Location t) (m : b.Message)
          → r.take_weight_credit (rules.without_topic (request l m)) ≡ false
