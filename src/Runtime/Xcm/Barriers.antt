-- ===== src/Runtime/Xcm/Barriers.antt =====
-- Which messages the barrier lets pass.
use polkadot_confidential_of.Base.{
  ℕ, ◌≡◌, ◌↔◌, ◌⊎◌, refl, inl, inr, Bool, true, false, ◌&&◌, ◌||◌, not, List, [], ◌∷◌, arith,
}
use polkadot_confidential_of.Runtime.Xcm.{
  executive, defense, other_body, LocationTypes, Junction, parachain, account_id32, plurality,
  other_junction, Location, universal_location, here_or_executive, contains, Rules, barrier,
}

module _ (t : LocationTypes) where
  -- The parent, or the executive body of the parent.
  abbrev pub IsParentOrExecutive : Location t → Type 0
  IsParentOrExecutive location =
      (location.parents ≡ 1)
      × ((location.interior ≡ [])
          ⊎ ((part : t.BodyPart) × (location.interior ≡ plurality executive part ∷ [])))

  here_or_executive_iff :
      (js : List (Junction t))
      → (here_or_executive t js ≡ true)
        ↔ ((js ≡ []) ⊎ ((part : t.BodyPart) × (js ≡ plurality executive part ∷ [])))
  unfolding here_or_executive
  here_or_executive_iff [] = (λ h. inl refl, λ h. refl)
  here_or_executive_iff (plurality executive part ∷ []) = (λ h. inr (part, refl), λ h. refl)
  here_or_executive_iff (plurality executive part ∷ j ∷ js) = (λ h. cc, λ h. ground arith)
  here_or_executive_iff (plurality defense part ∷ js) = (λ h. cc, λ h. ground arith)
  here_or_executive_iff (plurality (other_body b) part ∷ js) = (λ h. cc, λ h. ground arith)
  here_or_executive_iff (parachain id ∷ js) = (λ h. cc, λ h. ground arith)
  here_or_executive_iff (account_id32 network id ∷ js) = (λ h. cc, λ h. ground arith)
  here_or_executive_iff (other_junction j ∷ js) = (λ h. cc, λ h. ground arith)

  pub contains_iff :
      (location : Location t) → (contains t location ≡ true) ↔ IsParentOrExecutive location
  unfolding contains
  contains_iff location = ground (arith, here_or_executive_iff location.interior)

  module _ (r : Rules t) where
    open r use {Request, origin}

    -- What staging-xcm-builder documents of its rules.
    pub record RuleLaws : Type 0 where
      -- The message without a topic at its end, and with the origin that its first instructions
      -- describe, if they are at most so many and well formed.
      pub without_topic : Request → Request
      pub describes_origin : ℕ → Request → Bool
      pub described : List (Junction t) → ℕ → Request → Request
      -- The first instructions of the message buy the execution, or declare that it is unpaid.
      pub buys_execution : Request → Bool
      pub declares_unpaid : Request → Bool
      pub topic_lem :
          (rule : Request → Bool) (q : Request)
          → r.trailing_set_topic_as_id rule q ≡ rule (without_topic q)
      pub deny_lem :
          (deny try : Request → Bool) (q : Request)
          → r.deny_then_try deny try q ≡ (not (deny q) && try q)
      pub either_lem :
          (first second : Request → Bool) (q : Request)
          → r.either first second q ≡ (first q || second q)
      pub computed_lem :
          (rule : Request → Bool) (universal : List (Junction t)) (n : ℕ) (q : Request)
          → r.with_computed_origin rule universal n q
            ≡ (describes_origin n q && rule (described universal n q))
      pub paid_lem :
          (from : Location t → Bool) (q : Request)
          → r.allow_top_level_paid_execution_from from q ≡ (from (origin q) && buys_execution q)
      pub unpaid_lem :
          (from : Location t → Bool) (q : Request)
          → r.allow_explicit_unpaid_execution_from from q ≡ (from (origin q) && declares_unpaid q)

    module _ (laws : RuleLaws) where
      open laws use {without_topic, describes_origin, described, buys_execution, declares_unpaid}

      -- Why a message may pass the barrier: it has weight credit, or it pays, or it is free for
      -- its origin.
      abbrev pub MayExecute : ℕ → Request → Type 0
      MayExecute id q =
          let computed = described (universal_location t id) 8 q in
          (r.take_weight_credit q ≡ true)
          ⊎ ((describes_origin 8 q ≡ true)
              × ((buys_execution computed ≡ true)
                  ⊎ (IsParentOrExecutive (origin computed) × (declares_unpaid computed ≡ true))))

      -- The barrier lets a message pass exactly if, without its topic, it makes no reserve
      -- transfer to the relay chain and has weight credit, or describes its origin well and buys
      -- its execution, or describes its origin well as the parent or the executive body of the
      -- parent and declares that it does not pay.
      pub barrier-eq-true_iff :
          (id : ℕ) (q : Request)
          → (barrier t r id q ≡ true) ↔ (
              (r.denies_reserve_transfer_to_relay_chain (without_topic q) ≡ false)
              × MayExecute id (without_topic q))
      unfolding barrier
      barrier-eq-true_iff id q =
          let q' = without_topic q in
          let computed = described (universal_location t id) 8 q' in
          rw
            (
              laws.topic_lem, laws.deny_lem, laws.either_lem, laws.computed_lem, laws.either_lem,
              laws.paid_lem, laws.unpaid_lem,
            )
            (decided (r.denies_reserve_transfer_to_relay_chain q') (r.take_weight_credit q')
              (describes_origin 8 q') (buys_execution computed) (declares_unpaid computed)
              (contains t (origin computed)) (contains_iff (origin computed)))
        where
          decided :
              (denied credit described buys unpaid free : Bool) {P : Type 0}
              → (free ≡ true) ↔ P
              → ((not denied && (credit || (described && (buys || (free && unpaid))))) ≡ true) ↔ (
                  (denied ≡ false)
                  × ((credit ≡ true)
                      ⊎ ((described ≡ true) × ((buys ≡ true) ⊎ (P × (unpaid ≡ true))))))
          decided denied credit described buys unpaid free h = ground (arith, h)
