-- ===== src/Runtime/Pallets/Interleaving.antt =====
-- The order of the calls of the template pallet against those of the offchain worker pallet: each
-- pallet shows what its own calls make of it.
use polkadot_confidential_of.Base.{◌≡◌, ◌∙◌, refl, sym, ap, List, [], ◌∷◌, All}
use polkadot_confidential_of.Runtime.Pallets.{
  TemplateCall, cause_error, OcwCall, RuntimeCall, call_template, call_ocw, call_other, Chain,
  ChainLaws, run,
}
use mathlib.Core.List.{Perm}
use polkadot_confidential_of.Runtime.Pallets.Frames.{parted-Perm, template_events, ocw_events}
use polkadot_confidential_of.Runtime.Pallets.Spec.{View, spec_run, IsValid, view, Sound}
use polkadot_confidential_of.Runtime.Pallets.Runs.{run-view}
use polkadot_confidential_of.Runtime.Pallets.Shown.{
  Shown, of_pallet_template, of_pallet_ocw, store, bump, store_template-template,
  store_template-ocw, bump_template-template, bump_template-ocw, store_ocw-ocw, store_ocw-template,
}

module _ (c : Chain) where
  open c use {State, AccountId, Origin, OtherCall, ensure_signed}

  abbrev pub Calls : Type 0
  Calls = List (RuntimeCall OtherCall × Origin)

  -- The calls of one pallet, in their order.
  abbrev pub template_calls : Calls → List (TemplateCall × Origin)
  template_calls [] = []
  template_calls ((call_template call, origin) ∷ calls) = (call, origin) ∷ template_calls calls
  template_calls ((call_ocw call, origin) ∷ calls) = template_calls calls
  template_calls ((call_other call, origin) ∷ calls) = template_calls calls

  abbrev pub ocw_calls : Calls → List (OcwCall × Origin)
  ocw_calls [] = []
  ocw_calls ((call_template call, origin) ∷ calls) = ocw_calls calls
  ocw_calls ((call_ocw call, origin) ∷ calls) = (call, origin) ∷ ocw_calls calls
  ocw_calls ((call_other call, origin) ∷ calls) = ocw_calls calls

  abbrev template_run : List (TemplateCall × Origin) → Shown AccountId → Shown AccountId
  template_run [] x = x
  template_run ((TemplateCall.do_something bn, origin) ∷ calls) x =
      template_run calls (store bn (ensure_signed origin) x)
  template_run ((cause_error, origin) ∷ calls) x =
      template_run calls (bump (ensure_signed origin) x)

  abbrev ocw_run : List (OcwCall × Origin) → Shown AccountId → Shown AccountId
  ocw_run [] x = x
  ocw_run ((OcwCall.do_something bn, origin) ∷ calls) x =
      ocw_run calls (store bn (ensure_signed origin) x)

  spec_run-template :
      (calls : Calls) (v : View AccountId)
      → of_pallet_template (spec_run c calls v)
        ≡ template_run (template_calls calls) (of_pallet_template v)
  spec_run-template [] v = refl
  spec_run-template ((call_template (TemplateCall.do_something bn), origin) ∷ calls) v =
      spec_run-template calls _
      ∙ ap (template_run (template_calls calls))
          (store_template-template bn (ensure_signed origin) v)
  spec_run-template ((call_template cause_error, origin) ∷ calls) v =
      spec_run-template calls _
      ∙ ap (template_run (template_calls calls)) (bump_template-template (ensure_signed origin) v)
  spec_run-template ((call_ocw (OcwCall.do_something bn), origin) ∷ calls) v =
      spec_run-template calls _
      ∙ ap (template_run (template_calls calls)) (store_ocw-template bn (ensure_signed origin) v)
  spec_run-template ((call_other other, origin) ∷ calls) v = spec_run-template calls v

  spec_run-ocw :
      (calls : Calls) (v : View AccountId)
      → of_pallet_ocw (spec_run c calls v) ≡ ocw_run (ocw_calls calls) (of_pallet_ocw v)
  spec_run-ocw [] v = refl
  spec_run-ocw ((call_template (TemplateCall.do_something bn), origin) ∷ calls) v =
      spec_run-ocw calls _
      ∙ ap (ocw_run (ocw_calls calls)) (store_template-ocw bn (ensure_signed origin) v)
  spec_run-ocw ((call_template cause_error, origin) ∷ calls) v =
      spec_run-ocw calls _
      ∙ ap (ocw_run (ocw_calls calls)) (bump_template-ocw (ensure_signed origin) v)
  spec_run-ocw ((call_ocw (OcwCall.do_something bn), origin) ∷ calls) v =
      spec_run-ocw calls _
      ∙ ap (ocw_run (ocw_calls calls)) (store_ocw-ocw bn (ensure_signed origin) v)
  spec_run-ocw ((call_other other, origin) ∷ calls) v = spec_run-ocw calls v

  module _ (laws : ChainLaws c) where
    -- Two sequences of calls with u32 arguments that have the same calls of the template pallet
    -- and the same calls of the offchain worker pallet, each in the same order, end with the
    -- same numbers, with the same events of each pallet in the same order, and so with the same
    -- events up to their order, however the calls of the two pallets are interleaved.
    pub run-interleaved :
        (calls others : Calls) (s : State)
        → All (IsValid c) calls
        → All (IsValid c) others
        → Sound c laws s
        → template_calls calls ≡ template_calls others
        → ocw_calls calls ≡ ocw_calls others
        → let v = view c laws (run c calls s) in
          let w = view c laws (run c others s) in
          (v.template ≡ w.template)
          × (v.ocw ≡ w.ocw)
          × (template_events v.events ≡ template_events w.events)
          × (ocw_events v.events ≡ ocw_events w.events)
          × Perm v.events w.events
    run-interleaved calls others s valid valid' sound same_template same_ocw =
        let (first, _) = run-view c laws calls s valid sound in
        let (second, _) = run-view c laws others s valid' sound in
        let x = of_pallet_template (view c laws s) in
        let y = of_pallet_ocw (view c laws s) in
        let by_template =
          ap of_pallet_template first
          ∙ spec_run-template calls (view c laws s)
          ∙ ap (λ l. template_run l x) same_template
          ∙ sym (ap of_pallet_template second ∙ spec_run-template others (view c laws s)) in
        let by_ocw =
          ap of_pallet_ocw first
          ∙ spec_run-ocw calls (view c laws s)
          ∙ ap (λ l. ocw_run l y) same_ocw
          ∙ sym (ap of_pallet_ocw second ∙ spec_run-ocw others (view c laws s)) in
        (
          ap (λ p. p.0) by_template,
          ap (λ p. p.0) by_ocw,
          ap (λ p. p.1) by_template,
          ap (λ p. p.1) by_ocw,
          parted-Perm _ _ (ap (λ p. p.1) by_template) (ap (λ p. p.1) by_ocw),
        )
