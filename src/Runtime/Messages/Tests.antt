-- ===== src/Runtime/Messages/Tests.antt =====
-- A message of the relay chain that calls the runtime as the relay chain, and a local account that
-- asks in vain to execute one.
use mathlib.Core.List.{Memᴰ}
use polkadot_confidential_of.Base.{◌≡◌, refl, [], ◌∷◌, All}
use polkadot_confidential_of.Runtime.Fees.Memory.{pair_weights}
use polkadot_confidential_of.Runtime.Xcm.{
  relay, signed, barrier, contains, to_dispatch_origin, location_to_account_id,
}
use polkadot_confidential_of.Runtime.Xcm.Weighing.{weigher, unit_weight_cost}
use polkadot_confidential_of.Runtime.Xcm.Executor.{xcm_config}
use polkadot_confidential_of.Runtime.Xcm.Memory.{
  numbers, plain_rules, plain_rules-RuleLaws, plain_converters, plain_converters-ConverterLaws,
  counted,
}
use polkadot_confidential_of.Runtime.Messages.{
  parent, dmp_queue, message_processor, queue_paused, execute_call,
}
use polkadot_confidential_of.Runtime.Xcm.Routes.{execute_xcm_origin}
use polkadot_confidential_of.Runtime.Messages.Incoming.{
  Earned, Steps, start, from_relay, serve, execute_here,
}
use polkadot_confidential_of.Runtime.Messages.Runs.{Steps-Earned}
use polkadot_confidential_of.Runtime.Messages.Memory.{Sized, Chain, one_call, one_call_laws}
use polkadot_confidential_of.Runtime.Messages.QueueMemory.{one_list, one_list_laws}

abbrev idle : Chain
idle = record { waiting = []; made = [] }

abbrev message : Sized
message = (3, (0, 0))

abbrev arrived : Chain
arrived =
    dmp_queue numbers pair_weights plain_rules plain_converters counted one_call one_list message
      idle

abbrev served : Chain
served =
    message_processor numbers pair_weights plain_rules plain_converters counted one_call one_list
      1000 message parent (one_list.take message parent arrived)

made_one_call : served.made ≡ relay ∷ []
unfolding message_processor dmp_queue weigher unit_weight_cost xcm_config barrier contains
    to_dispatch_origin location_to_account_id
made_one_call = refl

served_once :
    Steps numbers pair_weights plain_rules plain_converters counted one_call one_list
      plain_rules-RuleLaws one_call_laws one_list_laws 1000 idle
      ((parent, message) ∷ [])
      served
unfolding dmp_queue queue_paused execute_call execute_xcm_origin
served_once =
    execute_here (signed 4) message
      (serve parent message (Memᴰ.head refl) refl (from_relay message start))

Steps-Earned_example :
    All
      (Earned numbers pair_weights plain_rules plain_converters counted one_call one_list
        plain_rules-RuleLaws one_call_laws one_list_laws 1000
        ((parent, message) ∷ []))
      served.made
Steps-Earned_example =
    Steps-Earned numbers pair_weights plain_rules plain_converters counted one_call one_list
      plain_rules-RuleLaws one_call_laws one_list_laws 1000 plain_converters-ConverterLaws idle
      (λ o. refl) refl served_once
