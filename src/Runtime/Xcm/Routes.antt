-- ===== src/Runtime/Xcm/Routes.antt =====
-- Messages that leave the chain, in runtime/src/configs/xcm_config.rs: the router, and the locations
-- that local origins send from. The routers and the converter themselves are not in this repository:
-- they are the parameters `Routers` and `Senders`.
use polkadot_confidential_of.Base.{Option}
use polkadot_confidential_of.Runtime.Xcm.{LocationTypes, Location, relay_network, RuntimeOrigin}

-- How a router answers for a destination. Only the first answer makes a tuple ask the next router.
pub data Routed (Error Ticket : Type 0) : Type 0 where
  not_applicable : Routed Error Ticket
  refused : Error → Routed Error Ticket
  routed : Ticket → Routed Error Ticket

module _ (t : LocationTypes) where
  pub record Routers : Type 1 where
    pub Message : Type 0
    pub Error : Type 0
    pub Ticket : Type 0
    pub World : Type 0
    pub parent_as_ump : Location t → Message → World → Routed Error Ticket
    pub xcmp_queue : Location t → Message → World → Routed Error Ticket
    -- `WithUniqueTopic` adds a topic that has not been used to a message that ends with none.
    pub with_unique_topic :
        (Location t → Message → World → Routed Error Ticket)
        → Location t
        → Message
        → World
        → Routed Error Ticket

  module _ (s : Routers) where
    open s use {Message, Error, Ticket, World}

    -- A tuple of two routers.
    abbrev pub or_else : Routed Error Ticket → Routed Error Ticket → Routed Error Ticket
    or_else not_applicable next = next
    or_else (refused e) next = refused e
    or_else (routed ticket) next = routed ticket

    -- `XcmRouter`
    unfoldable pub xcm_router : Location t → Message → World → Routed Error Ticket
    xcm_router =
        s.with_unique_topic
          (λ to message w. or_else (s.parent_as_ump to message w) (s.xcmp_queue to message w))

  pub record Senders : Type 0 where
    pub signed_to_account_id32 : Option t.NetworkId → RuntimeOrigin t → Option (Location t)
    pub ensure_xcm_origin :
        (RuntimeOrigin t → Option (Location t)) → RuntimeOrigin t → Option (Location t)

  module _ (s : Senders) where
    -- `LocalOriginToLocation`
    abbrev pub local_origin_to_location : RuntimeOrigin t → Option (Location t)
    local_origin_to_location = s.signed_to_account_id32 (relay_network t)

    -- `SendXcmOrigin`
    unfoldable pub send_xcm_origin : RuntimeOrigin t → Option (Location t)
    send_xcm_origin = s.ensure_xcm_origin local_origin_to_location

    -- `ExecuteXcmOrigin`
    unfoldable pub execute_xcm_origin : RuntimeOrigin t → Option (Location t)
    execute_xcm_origin = s.ensure_xcm_origin local_origin_to_location
