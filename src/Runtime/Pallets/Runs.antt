-- ===== src/Runtime/Pallets/Runs.antt =====
-- Every sequence of calls implements the abstract specification of the runtime.
use polkadot_confidential_of.Base.{
  ℕ, ◌+◌, ◌<◌, ◌≡◌, ◌∙◌, refl, sym, ap, List, [], ◌∷◌, Result, ok, err, Ended, map_err, returned,
  failed, panicked, Exec, arith, All,
}
use mathlib.Core.Path.{subst}
use polkadot_confidential_of.Frame.{CompositeStruct, something_stored}
use polkadot_confidential_of.Template.Calls.{
  Reply, Outcome, not_signed, no_value, at_maximum, incremented, cause_error-Outcome,
  do_something_signed, do_something_unsigned,
}
use polkadot_confidential_of.Ocw.Calls.{accepted, refused}
use polkadot_confidential_of.Template
use polkadot_confidential_of.Ocw
use polkadot_confidential_of.Runtime.Pallets.{
  template_pallet, ocw_pallet, of_template, of_ocw, TemplateCall, cause_error, OcwCall, RuntimeCall,
  call_template, call_ocw, call_other, Chain, ChainLaws, template_frame, ocw_frame, dispatch, run,
  template_error, ocw_error, other_error,
}
use polkadot_confidential_of.Runtime.Pallets.Spec.{
  View, Fits, store_template, bump_template, store_ocw, spec, spec_run, IsValid, view, Sound,
}

module _ (c : Chain) where
  open c use {State, AccountId, Origin, BadOrigin, OtherCall, ensure_signed, get}

  module _ (laws : ChainLaws c) where
    ocw_kept :
        (v : CompositeStruct) (s : State)
        → get ocw_pallet (c.put template_pallet v s) ≡ get ocw_pallet s
    ocw_kept v s = laws.get_put_ne ocw_pallet template_pallet v s (λ e. cc)

    template_kept :
        (v : CompositeStruct) (s : State)
        → get template_pallet (c.put ocw_pallet v s) ≡ get template_pallet s
    template_kept v s = laws.get_put_ne template_pallet ocw_pallet v s (λ e. cc)

    -- How a state looks after a call.
    abbrev Shows : State → State → View AccountId → Type 0
    Shows s s' v = (view c laws s' ≡ v) × (laws.number s' ≡ laws.number s)

    stored_template :
        (bn : ℕ) (who : AccountId) (s : State)
        → 0 < laws.number s
        → Shows s
            (c.deposit_event
              (of_template (something_stored bn who))
              (c.put template_pallet (record { block_number = bn }) s))
            (store_template {BadOrigin = BadOrigin} bn (ok who) (view c laws s))
    stored_template bn who s later =
        let v : CompositeStruct = record { block_number = bn } in
        let e = of_template (something_stored bn who) in
        let s' = c.put template_pallet v s in
        ground (
          arith,
          laws.get_deposit template_pallet e s',
          laws.get_deposit ocw_pallet e s',
          laws.get_put template_pallet v s,
          ocw_kept v s,
          laws.events_deposit e s',
          laws.events_put template_pallet v s,
          laws.number_put template_pallet v s,
          laws.number_deposit e s',
        )

    stored_ocw :
        (bn : ℕ) (who : AccountId) (s : State)
        → 0 < laws.number s
        → Shows s
            (c.deposit_event
              (of_ocw (something_stored bn who))
              (c.put ocw_pallet (record { block_number = bn }) s))
            (store_ocw {BadOrigin = BadOrigin} bn (ok who) (view c laws s))
    stored_ocw bn who s later =
        let v : CompositeStruct = record { block_number = bn } in
        let e = of_ocw (something_stored bn who) in
        let s' = c.put ocw_pallet v s in
        ground (
          arith,
          laws.get_deposit template_pallet e s',
          laws.get_deposit ocw_pallet e s',
          laws.get_put ocw_pallet v s,
          template_kept v s,
          laws.events_deposit e s',
          laws.events_put ocw_pallet v s,
          laws.number_put ocw_pallet v s,
          laws.number_deposit e s',
        )

    bumped :
        (origin : Origin) (s : State) {r : Reply (template_frame c) 32}
        → Fits (view c laws s).template
        → Outcome (template_frame c) 32 origin s r
        → Shows s r.1 (bump_template (ensure_signed origin) (view c laws s))
    bumped origin s h (not_signed e) = ground arith
    bumped origin s h (no_value e g) = ground arith
    bumped origin s h (at_maximum e g m) = ground arith
    bumped origin s h (incremented {old} e g m) =
        let v : CompositeStruct = record { block_number = old.block_number + 1 } in
        ground (
          arith,
          laws.get_put template_pallet v s,
          ocw_kept v s,
          laws.events_put template_pallet v s,
          laws.number_put template_pallet v s,
        )

    -- The world does not depend on the type of the error.
    after_map_err :
        {E F A : Type 0} (f : E → F) (m : Exec State E A) (s : State) → (map_err f m s).1 ≡ (m s).1
    after_map_err {E} {F} {A} f m s = by_end (m s).0
      where
        by_end : (r : Ended E A) → (map_err f (λ t. (r, (m t).1)) s).1 ≡ (m s).1
        by_end (returned a) = refl
        by_end (failed e) = refl
        by_end (panicked msg) = refl

    dispatch-spec :
        (call : RuntimeCall OtherCall) (origin : Origin) (s : State)
        → Sound c laws s
        → Shows s (dispatch c call origin s).1 (spec c call origin (view c laws s))
    unfolding dispatch
    dispatch-spec (call_template (TemplateCall.do_something bn)) origin s sound =
        rw (after_map_err template_error (Template.do_something (template_frame c) 32 origin bn) s)
          (by_origin (ensure_signed origin) refl)
      where
        by_origin :
            (r : Result AccountId BadOrigin)
            → ensure_signed origin ≡ r
            → Shows s
                (Template.do_something (template_frame c) 32 origin bn s).1
                (store_template bn r (view c laws s))
        by_origin (ok who) e =
            rw (do_something_signed (template_frame c) 32 origin bn s e)
              (stored_template bn who s sound.0)
        by_origin (err b) e =
            rw (do_something_unsigned (template_frame c) 32 origin bn s e) (refl, refl)
    dispatch-spec (call_template cause_error) origin s sound =
        rw (after_map_err template_error (Template.cause_error (template_frame c) 32 origin) s)
          (bumped origin s sound.1 (cause_error-Outcome (template_frame c) 32 origin s))
    dispatch-spec (call_ocw (OcwCall.do_something bn)) origin s sound =
        rw (after_map_err ocw_error (Ocw.do_something (ocw_frame c) origin bn) s)
          (by_origin (ensure_signed origin) refl)
      where
        by_origin :
            (r : Result AccountId BadOrigin)
            → ensure_signed origin ≡ r
            → Shows s
                (Ocw.do_something (ocw_frame c) origin bn s).1
                (store_ocw bn r (view c laws s))
        by_origin (ok who) e =
            rw (accepted (ocw_frame c) origin bn s e) (stored_ocw bn who s sound.0)
        by_origin (err b) e = rw (refused (ocw_frame c) origin bn s e) (refl, refl)
    dispatch-spec (call_other other) origin s sound =
        rw (after_map_err other_error (c.dispatch_other other origin) s) (
          ground (
            arith,
            laws.get_template_other other origin s,
            laws.get_ocw_other other origin s,
            laws.events_other other origin s,
            laws.number_other other origin s,
          ))

    spec-Fits :
        (call : RuntimeCall OtherCall) (origin : Origin) (v : View AccountId)
        → IsValid c (call, origin)
        → Fits v.template
        → Fits (spec c call origin v).template
    spec-Fits (call_template (TemplateCall.do_something bn)) origin v valid h = ground arith
    spec-Fits (call_template cause_error) origin v valid h = ground arith
    spec-Fits (call_ocw (OcwCall.do_something bn)) origin v valid h = ground arith
    spec-Fits (call_other other) origin v valid h = h

    -- From a state after the genesis block whose template number fits a u32, any sequence of
    -- calls of both pallets and of others with u32 arguments changes the two numbers and the
    -- list of events as an abstract specification does: each signed do_something sets the number
    -- of its own pallet and adds its event at the end, each signed cause_error adds one to the
    -- number of the template pallet up to the largest u32, and no other call has an effect; the
    -- state stays one of this kind.
    pub run-view :
        (calls : List (RuntimeCall OtherCall × Origin)) (s : State)
        → All (IsValid c) calls
        → Sound c laws s
        → (view c laws (run c calls s) ≡ spec_run c calls (view c laws s))
          × Sound c laws (run c calls s)
    unfolding run
    run-view [] s valid sound = (refl, sound)
    run-view ((call, origin) ∷ calls) s valid sound =
        let s' = (dispatch c call origin s).1 in
        let (now, same) = dispatch-spec call origin s sound in
        let fits = spec-Fits call origin (view c laws s) valid.0 sound.1 in
        let later : 0 < laws.number s' = rw same sound.0 in
        let fits' : Fits (view c laws s').template = subst (λ w. Fits w.template) (sym now) fits in
        let (ih, kept) = run-view calls s' valid.1 (later, fits') in
        (ih ∙ ap (spec_run c calls) now, kept)
