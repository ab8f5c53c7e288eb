-- ===== src/Runtime/Xcm/Outgoing.antt =====
-- Where messages go, and from where local origins send them.
use polkadot_confidential_of.Base.{
  ℕ, ◌≡◌, ◌≢◌, refl, sym, ap, ◌∙◌, Option, none, some, [], ◌∷◌, arith,
}
use polkadot_confidential_of.Runtime.Xcm.{
  LocationTypes, parachain, account_id32, Location, relay_location, OriginKind, native,
  RuntimeOrigin, root, signed, unsigned, relay, sibling_parachain, xcm, response, Converters,
  location_to_account_id, to_dispatch_origin,
}
use polkadot_confidential_of.Runtime.Xcm.Origins.{ConverterLaws, to_dispatch_origin-Converted}
use polkadot_confidential_of.Runtime.Xcm.Routes.{
  Routed, not_applicable, refused, routed, Routers, or_else, xcm_router, Senders, send_xcm_origin,
}

none_of_ne : {A : Type 0} (x : Option A) → ((a : A) → x ≢ some a) → x ≡ none
none_of_ne none h = refl
none_of_ne (some a) h = absurd (h a refl)

module _ (t : LocationTypes) where
  abbrev pub sibling_location : ℕ → Location t
  sibling_location id = record { parents = 1; interior = parachain id ∷ [] }

  abbrev pub account_location : t.AccountId → Location t
  account_location a = record { parents = 0; interior = account_id32 none a ∷ [] }

  abbrev pub here_location : Location t
  here_location = record { parents = 0; interior = [] }

  module _ (s : Routers t) where
    open s use {Message, World}

    -- What the routers are documented to do.
    pub record RouterLaws : Type 0 where
      pub with_topic : Message → World → Message
      pub topic_lem :
          (route : Location t → Message → World → Routed s.Error s.Ticket) (to : Location t)
          (m : Message) (w : World)
          → s.with_unique_topic route to m w ≡ route to (with_topic m w) w
      pub up_only :
          (to : Location t) (m : Message) (w : World)
          → to ≢ relay_location t
          → s.parent_as_ump to m w ≡ not_applicable
      pub up : (m : Message) (w : World) → s.parent_as_ump (relay_location t) m w ≢ not_applicable
      pub sideways_only :
          (to : Location t) (m : Message) (w : World)
          → ((id : ℕ) → to ≢ sibling_location id)
          → s.xcmp_queue to m w ≡ not_applicable
      pub sideways :
          (id : ℕ) (m : Message) (w : World)
          → s.xcmp_queue (sibling_location id) m w ≢ not_applicable

    or_else_applies :
        (first next : Routed s.Error s.Ticket)
        → first ≢ not_applicable
        → or_else t s first next ≡ first
    or_else_applies not_applicable next h = absurd (h refl)
    or_else_applies (refused e) next h = refl
    or_else_applies (routed ticket) next h = refl

    asked :
        (laws : RouterLaws) (to : Location t) (m : Message) (w : World)
        → let m' = laws.with_topic m w in
          xcm_router t s to m w ≡ or_else t s (s.parent_as_ump to m' w) (s.xcmp_queue to m' w)
    unfolding xcm_router
    asked laws to m w = laws.topic_lem _ to m w

    asked_beside :
        (laws : RouterLaws) (m : Message) (w : World) (id : ℕ)
        → let beside = sibling_location id in
          (xcm_router t s beside m w ≡ s.xcmp_queue beside (laws.with_topic m w) w)
          × (xcm_router t s beside m w ≢ not_applicable)
    asked_beside laws m w id =
        let m' = laws.with_topic m w in
        let beside = sibling_location id in
        let not_up = laws.up_only beside m' w (λ h. cc h) in
        let way : xcm_router t s beside m w ≡ s.xcmp_queue beside m' w =
          asked laws beside m w ∙ ap (λ r. or_else t s r (s.xcmp_queue beside m' w)) not_up in
        (way, λ h. laws.sideways id m' w (sym way ∙ h))

    -- A message that is sent gets a topic and goes to the relay chain by its router alone, to a
    -- sibling by the queue for siblings alone, and to no other location.
    pub xcm_router_lem :
        (laws : RouterLaws) (m : Message) (w : World)
        → let m' = laws.with_topic m w in
          let up = xcm_router t s (relay_location t) m w in
          ((up ≡ s.parent_as_ump (relay_location t) m' w) × (up ≢ not_applicable))
          × ((id : ℕ)
              → let sideways = xcm_router t s (sibling_location id) m w in
                (sideways ≡ s.xcmp_queue (sibling_location id) m' w) × (sideways ≢ not_applicable))
          × ((to : Location t)
              → to ≢ relay_location t
              → ((id : ℕ) → to ≢ sibling_location id)
              → xcm_router t s to m w ≡ not_applicable)
    xcm_router_lem laws m w =
        let m' = laws.with_topic m w in
        let above = relay_location t in
        let up : xcm_router t s above m w ≡ s.parent_as_ump above m' w =
          asked laws above m w ∙ or_else_applies _ _ (laws.up m' w) in
        (
          (up, λ h. laws.up m' w (sym up ∙ h)),
          asked_beside laws m w,
          λ to not_up not_beside.
              asked laws to m w
              ∙ ap (λ r. or_else t s r (s.xcmp_queue to m' w)) (laws.up_only to m' w not_up)
              ∙ laws.sideways_only to m' w not_beside,
        )

  module _ (s : Senders t) (c : Converters t) where
    -- What the conversions of local origins are documented to do. `ensure_xcm_origin` lets root stand
    -- for the chain itself where the conversion does not.
    pub record SenderLaws : Type 0 where
      pub of_signed :
          (network : Option t.NetworkId) (a : t.AccountId)
          → s.signed_to_account_id32 network (signed a)
            ≡ some (record { parents = 0; interior = account_id32 network a ∷ [] })
      pub of_others :
          (network : Option t.NetworkId) (o : RuntimeOrigin t)
          → ((a : t.AccountId) → o ≢ signed a)
          → s.signed_to_account_id32 network o ≡ none
      pub ensured :
          (f : RuntimeOrigin t → Option (Location t)) (o : RuntimeOrigin t) (l : Location t)
          → f o ≡ some l
          → s.ensure_xcm_origin f o ≡ some l
      pub ensured_root :
          (f : RuntimeOrigin t → Option (Location t))
          → f root ≡ none
          → s.ensure_xcm_origin f root ≡ some here_location
      pub ensured_none :
          (f : RuntimeOrigin t → Option (Location t)) (o : RuntimeOrigin t)
          → o ≢ root
          → f o ≡ none
          → s.ensure_xcm_origin f o ≡ none
      pub signed_back :
          (a : t.AccountId)
          → c.signed_account_id32_as_native none (account_location a) native ≡ some (signed a)
      pub alias : (a : t.AccountId) → c.account_id32_aliases none (account_location a) ≡ some a
      pub preset_only :
          (l : Location t) (a : t.AccountId) → c.parent_is_preset l ≡ some a → l.parents ≡ 1
      pub sibling_only :
          (l : Location t) (a : t.AccountId)
          → c.sibling_parachain_converts_via l ≡ some a
          → l.parents ≡ 1

    -- What a local origin sends as, and what that location may become again.
    abbrev pub Sends : RuntimeOrigin t → Type 0
    Sends (signed a) =
        (send_xcm_origin t s (signed a) ≡ some (account_location a))
        × (to_dispatch_origin t c (account_location a) native ≡ some (signed a))
        × (location_to_account_id t c (account_location a) ≡ some a)
    Sends root =
        (send_xcm_origin t s root ≡ some here_location)
        × ((kind : OriginKind) → to_dispatch_origin t c here_location kind ≢ some root)
    Sends unsigned = send_xcm_origin t s unsigned ≡ none
    Sends relay = send_xcm_origin t s relay ≡ none
    Sends (sibling_parachain id) = send_xcm_origin t s (sibling_parachain id) ≡ none
    Sends (xcm l) = send_xcm_origin t s (xcm l) ≡ none
    Sends (response l) = send_xcm_origin t s (response l) ≡ none

    module _ (laws : SenderLaws) (conversions : ConverterLaws t c) where
      native-account :
          (a : t.AccountId) → to_dispatch_origin t c (account_location a) native ≡ some (signed a)
      unfolding to_dispatch_origin
      native-account a =
          let l = account_location a in
          let own =
            none_of_ne (c.sovereign_signed_via_location (location_to_account_id t c) l native)
              (λ o h. let (_, kind, _, _) = conversions.sovereign_lem _ l native o h in cc kind) in
          let chain =
            none_of_ne (c.relay_chain_as_native relay l native)
              (λ o h. let (_, at, _) = conversions.relay_lem _ l native o h in cc at) in
          let other =
            none_of_ne (c.sibling_parachain_as_native (λ id. sibling_parachain id) l native)
              (λ o h. let (_, _, at, _) = conversions.sibling_lem _ l native o h in cc at) in
          rw (own, chain, other) (rw (laws.signed_back a))

      account_location-id :
          (a : t.AccountId) → location_to_account_id t c (account_location a) ≡ some a
      unfolding location_to_account_id
      account_location-id a =
          let l = account_location a in
          let parent =
            none_of_ne (c.parent_is_preset l)
              (λ b h. absurd (omega (arith, laws.preset_only l b h))) in
          let beside =
            none_of_ne (c.sibling_parachain_converts_via l)
              (λ b h. absurd (omega (arith, laws.sibling_only l b h))) in
          rw (parent, beside) (laws.alias a)

      -- A signed account sends messages from its own location, which as a native origin becomes
      -- the same signed account again and whose account is the same; root sends from the chain
      -- itself, which never becomes root again; no other origin of the runtime may send, which
      -- are the unsigned one, the relay chain, siblings, and the XCM and response origins of
      -- pallet-xcm.
      pub send_xcm_origin-Sends : (o : RuntimeOrigin t) → Sends o
      unfolding send_xcm_origin
      send_xcm_origin-Sends (signed a) = (
        laws.ensured _ (signed a) _ (laws.of_signed none a),
        native-account a,
        account_location-id a,
      )
      send_xcm_origin-Sends root = (
        laws.ensured_root _ (laws.of_others none root (λ a h. cc)),
        λ kind h. (to_dispatch_origin-Converted t c conversions here_location kind root h).2 refl,
      )
      send_xcm_origin-Sends relay =
          laws.ensured_none _ relay (λ h. cc) (laws.of_others none relay (λ a h. cc))
      send_xcm_origin-Sends (sibling_parachain id) =
          laws.ensured_none _ (sibling_parachain id) (λ h. cc) (laws.of_others none _ (λ a h. cc))
      send_xcm_origin-Sends (xcm l) =
          laws.ensured_none _ (xcm l) (λ h. cc) (laws.of_others none _ (λ a h. cc))
      send_xcm_origin-Sends (response l) =
          laws.ensured_none _ (response l) (λ h. cc) (laws.of_others none _ (λ a h. cc))
      send_xcm_origin-Sends unsigned =
          laws.ensured_none _ unsigned (λ h. cc) (laws.of_others none unsigned (λ a h. cc))
