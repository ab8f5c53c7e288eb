-- ===== src/Runtime/Collators/Updates.antt =====
-- Which messages of other chains may change the collators.
use polkadot_confidential_of.Base.{
  ◌≡◌, ◌≢◌, refl, sym, ap, ◌∙◌, ◌⊎◌, inl, inr, Bool, true, false, ◌||◌, some, [], ◌∷◌,
}
use polkadot_confidential_of.Runtime.Xcm.{
  BodyId, defense, LocationTypes, plurality, Location, relay_location, OriginKind, xcm_kind,
  RuntimeOrigin, root, signed, relay, sibling_parachain, xcm, Converters, to_dispatch_origin,
  unsigned, response,
}
use polkadot_confidential_of.Runtime.Xcm.Origins.{
  ConverterLaws, Converted, sovereign, from_relay, from_sibling, from_account, passed,
  to_dispatch_origin-Converted,
}
use polkadot_confidential_of.Runtime.Collators.{OriginChecks, may_update_collators}

module _ (t : LocationTypes) where
  location_of : Location t → RuntimeOrigin t → Location t
  location_of l root = l
  location_of l (signed a) = l
  location_of l unsigned = l
  location_of l relay = l
  location_of l (sibling_parachain id) = l
  location_of l (xcm l') = l'
  location_of l (response l') = l

  xcm-injective : {l m : Location t} → Path (RuntimeOrigin t) (xcm l) (xcm m) → l ≡ m
  unfolding location_of
  xcm-injective {l} e = ap (location_of l) e

module _ (t : LocationTypes) (checks : OriginChecks t) where
  open checks use {voice, ensure_root, ensure_xcm, is_voice_of_body}

  -- What the checks are documented to accept.
  pub record CheckLaws : Type 0 where
    pub root_lem : (o : RuntimeOrigin t) → ensure_root o ≡ true → o ≡ root
    pub xcm_lem :
        (f : Location t → Bool) (o : RuntimeOrigin t)
        → ensure_xcm f o ≡ true
        → (l : Location t) × (o ≡ xcm l) × (f l ≡ true)
    -- A body of the relay chain that speaks with one voice.
    pub voice_lem :
        (body : BodyId t.OtherBody) (l : Location t)
        → is_voice_of_body (relay_location t) body l ≡ true
        → l ≡ record { parents = 1; interior = plurality body voice ∷ [] }
    pub either_lem :
        (f g : RuntimeOrigin t → Bool) (o : RuntimeOrigin t)
        → checks.either_of_diverse f g o ≡ (f o || g o)

  module _ (laws : CheckLaws) where
    updates :
        (o : RuntimeOrigin t)
        → may_update_collators t checks o ≡ true
        → (o ≡ root) ⊎ (o ≡ xcm (record { parents = 1; interior = plurality defense voice ∷ [] }))
    unfolding may_update_collators
    updates o h = by_check (ensure_root o) _ refl refl (rw laws.either_lem at h)
      where
        by_check :
            (r x : Bool)
            → ensure_root o ≡ r
            → ensure_xcm (is_voice_of_body (relay_location t) defense) o ≡ x
            → (ensure_root o || ensure_xcm (is_voice_of_body (relay_location t) defense) o) ≡ true
            → (o ≡ root)
              ⊎ (o ≡ xcm (record { parents = 1; interior = plurality defense voice ∷ [] }))
        by_check true x e f g = inl (laws.root_lem o e)
        by_check false true e f g =
            let (l, made, speaks) = laws.xcm_lem _ o f in
            inr (made ∙ ap xcm (laws.voice_lem defense l speaks))
        by_check false false e f g = absurd (cc)

    module _ (c : Converters t) (converters : ConverterLaws t c) where
      -- A message of another chain gets an origin that may change the collators only if it is of
      -- the XCM kind and its location is the voice of the defense body of the relay chain.
      pub message-may_update_collators :
          (l : Location t) (k : OriginKind) (o : RuntimeOrigin t)
          → to_dispatch_origin t c l k ≡ some o
          → may_update_collators t checks o ≡ true
          → (k ≡ xcm_kind) × (l ≡ record { parents = 1; interior = plurality defense voice ∷ [] })
      message-may_update_collators l k o made may =
          let (as_converted, _, not_root) =
            to_dispatch_origin-Converted t c converters l k o made in
          by_origin as_converted (updates o may) not_root
        where
          by_origin :
              Converted t c l k o
              → (o ≡ root)
                ⊎ (o ≡ xcm (record { parents = 1; interior = plurality defense voice ∷ [] }))
              → o ≢ root
              → (k ≡ xcm_kind)
                × (l ≡ record { parents = 1; interior = plurality defense voice ∷ [] })
          by_origin v (inl e) not_root = absurd (not_root e)
          by_origin (sovereign e f g) (inr h) not_root = cc
          by_origin (from_relay e f g) (inr h) not_root = cc
          by_origin (from_sibling e f g) (inr h) not_root = cc
          by_origin (from_account e f g) (inr h) not_root = cc
          by_origin (passed e g) (inr h) not_root = (e, xcm-injective t (sym g ∙ h))
