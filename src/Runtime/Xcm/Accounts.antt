-- ===== src/Runtime/Xcm/Accounts.antt =====
-- The accounts between which the assets of a message move.
use polkadot_confidential_of.Base.{
  ℕ, ◌+◌, ◌≤◌, ◌≡◌, ◌≢◌, ◌↔◌, sym, ap, ◌∙◌, Option, some, arith, returned,
}
use polkadot_confidential_of.Runtime.Xcm.{
  LocationTypes, Location, relay_location, sovereign_account, signed, Converters,
  location_to_account_id, to_dispatch_origin,
}
use polkadot_confidential_of.Runtime.{existential_deposit}
use polkadot_confidential_of.Runtime.Xcm.Assets.{fungible, Asset, Adapters, local_asset_transactor}

module _ (t : LocationTypes) (a : Adapters t) (c : Converters t) where
  open t use {AccountId}
  open a use {Instance, World, Error, Currency, balances, no_account, is_concrete, fungible_adapter}

  -- What staging-xcm-builder and pallet-balances document, for an adapter that keeps no track of
  -- teleports. An account that would be left with less than the existential deposit is emptied.
  pub record AdapterLaws : Type 0 where
    pub balance : World → AccountId → ℕ
    pub concrete_lem :
        (x : Asset t Instance) (n : ℕ)
        → (is_concrete (relay_location t) x ≡ some n)
          ↔ ((x.id ≡ relay_location t) × (x.fun ≡ fungible n))
    pub withdrawn :
        (match : Asset t Instance → Option ℕ) (account : Location t → Option AccountId)
        (x : Asset t Instance) (who : Location t) (w w' : World)
        → (fungible_adapter balances match account no_account).withdraw_asset x who w
          ≡ (returned tt, w')
        → (n : ℕ) × (from : AccountId) × (match x ≡ some n)
          × (account who ≡ some from)
          × (balance w' from + n ≤ balance w from)
          × (existential_deposit + n ≤ balance w from → balance w' from + n ≡ balance w from)
          × ((other : AccountId) → other ≢ from → balance w' other ≡ balance w other)
    pub deposited :
        (match : Asset t Instance → Option ℕ) (account : Location t → Option AccountId)
        (x : Asset t Instance) (who : Location t) (w w' : World)
        → (fungible_adapter balances match account no_account).deposit_asset x who w
          ≡ (returned tt, w')
        → (n : ℕ) × (into : AccountId) × (match x ≡ some n)
          × (account who ≡ some into)
          × (balance w' into ≡ balance w into + n)
          × ((other : AccountId) → other ≢ into → balance w' other ≡ balance w other)
    -- A location that has an account acts as that account when it asks to.
    pub sovereign_signed :
        (account : Location t → Option AccountId) (l : Location t) (own : AccountId)
        → account l ≡ some own
        → c.sovereign_signed_via_location account l sovereign_account ≡ some (signed own)

  module _ (laws : AdapterLaws) where
    open laws use {balance}

    is_asset :
        (x : Asset t Instance) (n : ℕ)
        → x.id ≡ relay_location t
        → x.fun ≡ fungible n
        → x ≡ record { id = relay_location t; fun = fungible n }
    is_asset x n id fun = λ i. record { id = id i; fun = fun i }

    acts-as :
        (l : Location t) (own : AccountId)
        → location_to_account_id t c l ≡ some own
        → to_dispatch_origin t c l sovereign_account ≡ some (signed own)
    unfolding to_dispatch_origin
    acts-as l own e = rw (laws.sovereign_signed _ l own e)

    -- `n` units of balance have moved from one account to another, and the first has lost no more
    -- unless it would be left with less than the existential deposit.
    pub record Moved (w w' : World) (n : ℕ) (from into : AccountId) : Type 0 where
      pub covered : n ≤ balance w from
      pub taken :
          from ≢ into
          → (balance w' from + n ≤ balance w from)
            × (existential_deposit + n ≤ balance w from → balance w' from + n ≡ balance w from)
      pub given : from ≢ into → balance w' into ≡ balance w into + n
      pub same :
          from ≡ into
          → (balance w' from ≤ balance w from)
            × (existential_deposit + n ≤ balance w from → balance w' from ≡ balance w from)
      pub others :
          (other : AccountId) → other ≢ from → other ≢ into → balance w' other ≡ balance w other

    -- If an asset is withdrawn from one location and deposited at another, it is a fungible
    -- amount of the asset of the relay chain, each location has the account that it acts as when
    -- it asks to, and that amount has moved from the one account to the other: the first held as
    -- much, and loses no more unless it would be left with less than the existential deposit,
    -- the second gets all of it, and no other balance changes.
    pub withdraw-deposit :
        (x : Asset t Instance) (source target : Location t) (w middle w' : World)
        → (local_asset_transactor t a c).withdraw_asset x source w ≡ (returned tt, middle)
        → (local_asset_transactor t a c).deposit_asset x target middle ≡ (returned tt, w')
        → (n : ℕ) × (from : AccountId) × (into : AccountId) × (x
            ≡ record { id = relay_location t; fun = fungible n })
          × (to_dispatch_origin t c source sovereign_account ≡ some (signed from))
          × (to_dispatch_origin t c target sovereign_account ≡ some (signed into))
          × Moved w w' n from into
    unfolding local_asset_transactor
    withdraw-deposit x source target w middle w' out back =
        let (n, from, is_n, at_source, less, exact, left) =
          laws.withdrawn _ _ x source w middle out in
        let (m, into, is_m, at_target, more, left') = laws.deposited _ _ x target middle w' back in
        let (id, fun) = (laws.concrete_lem x n).0 is_n in
        let same_amount : n ≡ m = ground (arith, is_n, is_m) in
        (
          n,
          from,
          into,
          is_asset x n id fun,
          acts-as source from at_source,
          acts-as target into at_target,
          record {
            covered = omega arith;
            taken = λ ne.
                let kept = left' from ne in
                (omega (arith, kept), λ enough. let e = exact enough in omega (arith, kept));
            given = λ ne. let kept = left into (λ e. ne (sym e)) in omega arith;
            same = λ e.
                let at : balance w' from ≡ balance middle from + m =
                  ap (balance w') e ∙ more ∙ ap (λ b. balance middle b + m) (sym e) in
                (omega arith, λ enough. let e' = exact enough in omega arith);
            others = λ other ne ne'. left' other ne' ∙ left other ne;
          },
        )
