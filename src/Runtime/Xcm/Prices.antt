-- ===== src/Runtime/Xcm/Prices.antt =====
-- What the execution of a message costs.
use polkadot_confidential_of.Base.{ℕ, ◌+◌, ◌*◌, ◌≤◌, ◌<◌, ◌≡◌, ◌≢◌, ap, none, some, arith}
use polkadot_confidential_of.Runtime.{micro_unit}
use polkadot_confidential_of.Runtime.Fees.{Weights, WeightLaws}
use polkadot_confidential_of.Runtime.Limits.{Builder}
use polkadot_confidential_of.Runtime.Limits.Laws.{BuilderLaws}
use polkadot_confidential_of.Runtime.Charges.{Charging, weight_to_fee}
use polkadot_confidential_of.Runtime.Charges.Laws.{ChargingLaws, weight_to_fee_lem}
use polkadot_confidential_of.Runtime.Xcm.{LocationTypes, Location, relay_location}
use polkadot_confidential_of.Runtime.Xcm.Weighing.{
  Bounds, BoundsLaws, weigher, unit_weight_cost, max_instructions,
}
use polkadot_confidential_of.Runtime.Xcm.Assets.{Traders, trader}

module _ (t : LocationTypes) (x : Weights) (b : Builder x) (c : Charging x) (s : Traders t x) where
  open s use {Holding, using_components}

  -- What staging-xcm-builder documents, for the asset of the relay chain. `held` is how much a holding
  -- has of the fungible asset at a location.
  pub record TraderLaws : Type 0 where
    pub held : Holding → Location t → ℕ
    pub bought :
        (fee : x.Weight → ℕ) (w : x.Weight) (h : Holding)
        → 0 < fee w
        → fee w ≤ held h (relay_location t)
        → (rest : Holding) × (using_components fee (relay_location t) w h ≡ some rest)
          × (held rest (relay_location t) + fee w ≡ held h (relay_location t))
          × ((l : Location t) → l ≢ relay_location t → held rest l ≡ held h l)
    pub too_expensive :
        (fee : x.Weight → ℕ) (w : x.Weight) (h : Holding)
        → held h (relay_location t) < fee w
        → using_components fee (relay_location t) w h ≡ none

  module _ (laws : WeightLaws x) (limits : BuilderLaws x b) (charges : ChargingLaws x b c)
      (trades : TraderLaws) (bounds : Bounds x) (weighs : BoundsLaws x bounds) where
    open weighs use {count, called}
    open trades use {held}

    weighed :
        (m : bounds.Message)
        → x.ref_time (called m) ≡ 0
        → x.proof_size (called m) ≡ 0
        → count m ≤ max_instructions x
        → (v : x.Weight) × (weigher x bounds m ≡ some v) × (x.ref_time v ≡ count m * 1000000000)
    unfolding weigher unit_weight_cost
    weighed m no_time no_proof few =
        let time = ap (λ n. count m * n) (laws.ref_from_parts 1000000000 (64 * 1024)) in
        let proof = ap (λ n. count m * n) (laws.proof_from_parts 1000000000 (64 * 1024)) in
        let (v, is_v, v_time, v_proof) =
          weighs.weighed (unit_weight_cost x) (max_instructions x) m few (omega arith)
            (omega arith) in
        (v, is_v, omega arith)

    -- With the picosecond as the unit of time, a message of one to 100 instructions whose calls
    -- ask for no weight has a weight, and the trader sells that weight for eight MICRO_UNITs an
    -- instruction: it takes them from the asset of the relay chain and nothing else, and does
    -- not sell for a holding with less.
    pub trader_lem :
        x.nanos ≡ 1000
        → (m : bounds.Message) → x.ref_time (called m) ≡ 0
        → x.proof_size (called m) ≡ 0
        → 0 < count m
        → count m ≤ max_instructions x
        → (v : x.Weight) × (weigher x bounds m ≡ some v)
          × ((h : Holding)
              → held h (relay_location t) < 8 * micro_unit * count m
              → trader t x b c s v h ≡ none)
          × ((h : Holding)
              → 8 * micro_unit * count m ≤ held h (relay_location t)
              → (rest : Holding) × (trader t x b c s v h ≡ some rest)
                × (held rest (relay_location t) + 8 * micro_unit * count m
                    ≡ held h (relay_location t))
                × ((l : Location t) → l ≢ relay_location t → held rest l ≡ held h l))
    unfolding trader
    trader_lem nano m no_time no_proof some_instruction few =
        let (v, is_v, time) = weighed m no_time no_proof few in
        let (below, above) = weight_to_fee_lem x b c laws limits charges nano v (omega arith) in
        let price : weight_to_fee x b c v ≡ 8 * micro_unit * count m = omega arith in
        (
          v,
          is_v,
          λ h poor. trades.too_expensive _ v h (omega arith),
          λ h rich.
              let (rest, is_rest, paid, kept) =
                trades.bought (weight_to_fee x b c) v h (omega arith) (omega arith) in
              (rest, is_rest, omega arith, kept),
        )
