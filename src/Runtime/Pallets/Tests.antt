-- ===== src/Runtime/Pallets/Tests.antt =====
-- A block with calls of both pallets.
use polkadot_confidential_of.Base.{ℕ, ◌≡◌, refl, none, some, List, [], ◌∷◌, arith}
use mathlib.Core.List.{Perm}
use polkadot_confidential_of.Frame.{something_stored}
use polkadot_confidential_of.Frame.Memory.{RawOrigin, signed, unsigned}
use polkadot_confidential_of.Runtime.Pallets.{
  of_template, of_ocw, TemplateCall, OcwCall, RuntimeCall, call_template, call_ocw, call_other, run,
}
use polkadot_confidential_of.Runtime.Pallets.Frames.{template_events, ocw_events}
use polkadot_confidential_of.Runtime.Pallets.Spec.{View, view, Sound}
use polkadot_confidential_of.Runtime.Pallets.Runs.{run-view}
use polkadot_confidential_of.Runtime.Pallets.Interleaving.{run-interleaved}
use polkadot_confidential_of.Runtime.Pallets.Memory.{State, memory_chain, memory_chain-ChainLaws}

abbrev block_one : State
block_one = record { store = λ p. none; events = []; number = 1 }

abbrev calls : List (RuntimeCall ℕ × RawOrigin)
calls =
    (call_template (TemplateCall.do_something 7), signed 3)
    ∷ (call_ocw (OcwCall.do_something 40), signed 4)
    ∷ (call_template TemplateCall.cause_error, signed 5)
    ∷ (call_ocw (OcwCall.do_something 41), unsigned)
    ∷ (call_other 0, signed 3)
    ∷ []

-- The same calls of each pallet, with those of the offchain worker pallet first.
abbrev reordered : List (RuntimeCall ℕ × RawOrigin)
reordered =
    (call_ocw (OcwCall.do_something 40), signed 4)
    ∷ (call_ocw (OcwCall.do_something 41), unsigned)
    ∷ (call_template (TemplateCall.do_something 7), signed 3)
    ∷ (call_template TemplateCall.cause_error, signed 5)
    ∷ []

abbrev shown : View ℕ
shown = record {
  template = some 8;
  ocw = some 40;
  events = of_template (something_stored 7 3) ∷ of_ocw (something_stored 40 4) ∷ [];
}

run-view_example :
    (view memory_chain memory_chain-ChainLaws (run memory_chain calls block_one) ≡ shown)
    × Sound memory_chain memory_chain-ChainLaws (run memory_chain calls block_one)
run-view_example =
    run-view memory_chain memory_chain-ChainLaws calls block_one (ground arith) (ground arith)

run-interleaved_example :
    let v = view memory_chain memory_chain-ChainLaws (run memory_chain calls block_one) in
    let w = view memory_chain memory_chain-ChainLaws (run memory_chain reordered block_one) in
    (v.template ≡ w.template)
    × (v.ocw ≡ w.ocw)
    × (template_events v.events ≡ template_events w.events)
    × (ocw_events v.events ≡ ocw_events w.events)
    × Perm v.events w.events
run-interleaved_example =
    run-interleaved memory_chain memory_chain-ChainLaws calls reordered block_one (ground arith)
      (ground arith) (ground arith) refl refl
