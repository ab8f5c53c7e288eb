-- ===== src/Runtime/Xcm/Tests.antt =====
-- Messages of the parent and of other locations.
use polkadot_confidential_of.Base.{
  ℕ, ◌≤◌, ◌<◌, ◌⊎◌, none, ◌≡◌, ◌≢◌, ◌↔◌, refl, true, false, some, [], ◌∷◌,
}
use polkadot_confidential_of.Runtime.Xcm.{
  executive, plurality, parachain, Location, relay_location, native, superuser, RuntimeOrigin,
  signed, relay, root, contains, barrier, to_dispatch_origin, location_to_account_id,
}
use polkadot_confidential_of.Runtime.Xcm.Barriers.{MayExecute, barrier-eq-true_iff}
use polkadot_confidential_of.Runtime.Xcm.Origins.{Converted, to_dispatch_origin-Converted}
use polkadot_confidential_of.Runtime.Xcm.Memory.{
  numbers, Message, plain_rules, plain_rules-RuleLaws, plain_converters,
  plain_converters-ConverterLaws, counted, counted_laws,
}
use polkadot_confidential_of.Runtime.Fees.Memory.{pair_weights, pair_weights-WeightLaws}
use polkadot_confidential_of.Runtime.Limits.{block_limits, message_queue_service_weight}
use polkadot_confidential_of.Runtime.Limits.Memory.{
  PairLimits, pair_builder, pair_builder-BuilderLaws,
}
use polkadot_confidential_of.Runtime.Xcm.Weighing.{FitsIn, weigher, weigher_lem}
use polkadot_confidential_of.Runtime.Xcm.Routes.{Routed, not_applicable, routed, xcm_router}
use polkadot_confidential_of.Runtime.Xcm.Outgoing.{
  sibling_location, Sends, xcm_router_lem, send_xcm_origin-Sends,
}
use polkadot_confidential_of.Runtime.Xcm.RouteMemory.{
  plain_routers, plain_routers_laws, plain_senders, plain_senders_laws,
}

abbrev sibling : Location numbers
sibling = record { parents = 1; interior = parachain 2000 ∷ [] }

abbrev free_message : Message
free_message = record {
  from = record { parents = 1; interior = plurality executive 0 ∷ [] };
  to_relay = false;
  credit = false;
  pays = false;
  unpaid = true;
}

free_passes : barrier numbers plain_rules 1000 free_message ≡ true
unfolding barrier contains
free_passes = refl

sibling_refused : barrier numbers plain_rules 1000 (record free_message { from = sibling }) ≡ false
unfolding barrier contains
sibling_refused = refl

barrier-eq-true_iff_example :
    (barrier numbers plain_rules 1000 free_message ≡ true)
    ↔ (Path _ false false × MayExecute numbers plain_rules plain_rules-RuleLaws 1000 free_message)
barrier-eq-true_iff_example =
    barrier-eq-true_iff numbers plain_rules plain_rules-RuleLaws 1000 free_message

from_parent :
    to_dispatch_origin numbers plain_converters (relay_location numbers) native ≡ some relay
unfolding to_dispatch_origin location_to_account_id
from_parent = refl

to_dispatch_origin-Converted_example :
    Converted numbers plain_converters (relay_location numbers) native relay
    × (native ≢ superuser)
    × ◌≢◌ {A = RuntimeOrigin numbers} relay root
to_dispatch_origin-Converted_example =
    to_dispatch_origin-Converted numbers plain_converters plain_converters-ConverterLaws
      (relay_location numbers) native relay from_parent

abbrev limits : PairLimits
limits = block_limits pair_weights pair_builder

-- 29 instructions, and no calls.
abbrev long : ℕ × (ℕ × ℕ)
long = (29, (0, 0))

weigher_lem_example :
    ((100 < 29) × (weigher pair_weights counted long ≡ none))
    ⊎ ((29 ≤ 100)
        × ((v : ℕ × ℕ) × (weigher pair_weights counted long ≡ some v)
            × (FitsIn pair_weights v (message_queue_service_weight pair_weights pair_builder limits)
                ↔ (29 ≤ 28))))
weigher_lem_example =
    weigher_lem pair_weights pair_weights-WeightLaws pair_builder pair_builder-BuilderLaws counted
      counted_laws refl refl limits refl long refl refl

abbrev sent : Location numbers → Routed ℕ (ℕ × ℕ)
sent to = xcm_router numbers plain_routers to 7 0

xcm_router_lem_example :
    ((sent (relay_location numbers) ≡ routed (0, 8))
      × (sent (relay_location numbers) ≢ not_applicable))
    × ((id : ℕ)
        → (sent (sibling_location numbers id) ≡ routed (id, 8))
          × (sent (sibling_location numbers id) ≢ not_applicable))
    × ((to : Location numbers)
        → to ≢ relay_location numbers
        → ((id : ℕ) → to ≢ sibling_location numbers id)
        → sent to ≡ not_applicable)
xcm_router_lem_example = xcm_router_lem numbers plain_routers plain_routers_laws 7 0

send_xcm_origin-Sends_example : Sends numbers plain_senders plain_converters (signed 4)
send_xcm_origin-Sends_example =
    send_xcm_origin-Sends numbers plain_senders plain_converters plain_senders_laws
      plain_converters-ConverterLaws (signed 4)
