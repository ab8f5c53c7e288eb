-- ===== src/Runtime/Xcm/Origins.antt =====
-- What the origin of a message becomes when it dispatches a call.
use polkadot_confidential_of.Base.{ℕ, ◌≡◌, ◌≢◌, Option, none, some, [], ◌∷◌}
use polkadot_confidential_of.Runtime.Xcm.{
  LocationTypes, parachain, account_id32, Location, relay_location, relay_network, OriginKind,
  native, sovereign_account, superuser, xcm_kind, RuntimeOrigin, root, signed, relay,
  sibling_parachain, xcm, Converters, first_some, location_to_account_id, to_dispatch_origin,
}

module _ (t : LocationTypes) (c : Converters t) where
  -- What the converters are documented to make, and of what.
  pub record ConverterLaws : Type 0 where
    pub sovereign_lem :
        (f : Location t → Option t.AccountId) (l : Location t) (k : OriginKind)
        (o : RuntimeOrigin t)
        → c.sovereign_signed_via_location f l k ≡ some o
        → (a : t.AccountId) × (k ≡ sovereign_account) × (f l ≡ some a) × (o ≡ signed a)
    pub relay_lem :
        (chain : RuntimeOrigin t) (l : Location t) (k : OriginKind) (o : RuntimeOrigin t)
        → c.relay_chain_as_native chain l k ≡ some o
        → (k ≡ native) × (l ≡ relay_location t) × (o ≡ chain)
    pub sibling_lem :
        (f : ℕ → RuntimeOrigin t) (l : Location t) (k : OriginKind) (o : RuntimeOrigin t)
        → c.sibling_parachain_as_native f l k ≡ some o
        → (id : ℕ) × (k ≡ native)
          × (l ≡ record { parents = 1; interior = parachain id ∷ [] })
          × (o ≡ f id)
    pub signed_lem :
        (l : Location t) (k : OriginKind) (o : RuntimeOrigin t)
        → c.signed_account_id32_as_native (relay_network t) l k ≡ some o
        → (a : t.AccountId) × (k ≡ native)
          × (l ≡ record { parents = 0; interior = account_id32 none a ∷ [] })
          × (o ≡ signed a)
    pub passthrough_lem :
        (l : Location t) (k : OriginKind) (o : RuntimeOrigin t)
        → c.xcm_passthrough l k ≡ some o
        → (k ≡ xcm_kind) × (o ≡ xcm l)

  -- The origins that a location may get, by the kind that is asked for.
  pub data Converted (l : Location t) (k : OriginKind) (o : RuntimeOrigin t) : Type 0 where
    sovereign :
        {a : t.AccountId}
        → k ≡ sovereign_account
        → location_to_account_id t c l ≡ some a
        → o ≡ signed a
        → Converted l k o
    from_relay : k ≡ native → l ≡ relay_location t → o ≡ relay → Converted l k o
    from_sibling :
        {id : ℕ}
        → k ≡ native
        → l ≡ record { parents = 1; interior = parachain id ∷ [] }
        → o ≡ sibling_parachain id
        → Converted l k o
    from_account :
        {a : t.AccountId}
        → k ≡ native
        → l ≡ record { parents = 0; interior = account_id32 none a ∷ [] }
        → o ≡ signed a
        → Converted l k o
    passed : k ≡ xcm_kind → o ≡ xcm l → Converted l k o

  -- The first of two results, and why either has a property.
  first_some-keeps :
      {A : Type 0} (P : A → Type 0) (x y : Option A)
      → ((a : A) → x ≡ some a → P a)
      → ((a : A) → y ≡ some a → P a)
      → (a : A) → first_some t x y ≡ some a
      → P a
  first_some-keeps P none y f g = g
  first_some-keeps P (some b) y f g = f

  module _ (laws : ConverterLaws) where
    converted :
        (l : Location t) (k : OriginKind) (o : RuntimeOrigin t)
        → to_dispatch_origin t c l k ≡ some o
        → Converted l k o
    unfolding to_dispatch_origin
    converted l k =
        let sibling = c.sibling_parachain_as_native (λ id. sibling_parachain id) l k in
        let account = c.signed_account_id32_as_native (relay_network t) l k in
        let last = first_some t account (c.xcm_passthrough l k) in
        first_some-keeps (Converted l k)
          (c.sovereign_signed_via_location (location_to_account_id t c) l k)
          (first_some t (c.relay_chain_as_native relay l k) (first_some t sibling last))
          (λ o e.
            let (a, at_kind, at_account, made) = laws.sovereign_lem _ l k o e in
            sovereign at_kind at_account made)
          (first_some-keeps (Converted l k) (c.relay_chain_as_native relay l k)
            (first_some t sibling last)
            (λ o e.
              let (at_kind, at_parent, made) = laws.relay_lem _ l k o e in
              from_relay at_kind at_parent made)
            (first_some-keeps (Converted l k) sibling last
              (λ o e.
                let (id, at_kind, at_parent, made) =
                  laws.sibling_lem (λ id. sibling_parachain id) l k o e in
                from_sibling at_kind at_parent made)
              (first_some-keeps (Converted l k) account (c.xcm_passthrough l k)
                (λ o e.
                  let (a, at_kind, at_here, made) = laws.signed_lem l k o e in
                  from_account at_kind at_here made)
                (λ o e.
                  let (at_kind, made) = laws.passthrough_lem l k o e in passed at_kind made))))

    Converted-ne-root :
        (l : Location t) (k : OriginKind) (o : RuntimeOrigin t)
        → Converted l k o
        → (k ≢ superuser) × (o ≢ root)
    Converted-ne-root l k o (sovereign e f g) = (λ h. cc, λ h. cc)
    Converted-ne-root l k o (from_relay e f g) = (λ h. cc, λ h. cc)
    Converted-ne-root l k o (from_sibling e f g) = (λ h. cc, λ h. cc)
    Converted-ne-root l k o (from_account e f g) = (λ h. cc, λ h. cc)
    Converted-ne-root l k o (passed e g) = (λ h. cc, λ h. cc)

    -- An origin of a message becomes the relay chain only for the parent, a sibling chain only
    -- for that sibling, a signed account only for a local account or as the account of its
    -- location, and else an origin of XCM; it never becomes root, and a message that asks for
    -- the superuser gets no origin.
    pub to_dispatch_origin-Converted :
        (l : Location t) (k : OriginKind) (o : RuntimeOrigin t)
        → to_dispatch_origin t c l k ≡ some o
        → Converted l k o × (k ≢ superuser) × (o ≢ root)
    to_dispatch_origin-Converted l k o h =
        let made = converted l k o h in
        let (kind, origin) = Converted-ne-root l k o made in (made, kind, origin)
