-- ===== src/Runtime/Pallets/Frames.antt =====
-- Each pallet of the runtime has the FRAME that its theorems are about.
use polkadot_confidential_of.Base.{◌≡◌, refl, ap, ◌∙◌, List, [], ◌∷◌, ◌++◌, map}
use mathlib.Core.List.Permᴰ
use mathlib.Core.List.{Perm, Permᴰ}
use polkadot_confidential_of.Frame.{Event, FrameLaws}
use polkadot_confidential_of.Runtime.Pallets.{
  template_pallet, ocw_pallet, RuntimeEvent, of_template, of_ocw, Chain, ChainLaws, template_frame,
  ocw_frame,
}

module _ {AccountId : Type 0} where
  -- The events of one pallet, in their order.
  abbrev pub template_events : List (RuntimeEvent AccountId) → List (Event AccountId)
  template_events [] = []
  template_events (of_template e ∷ es) = e ∷ template_events es
  template_events (of_ocw e ∷ es) = template_events es

  abbrev pub ocw_events : List (RuntimeEvent AccountId) → List (Event AccountId)
  ocw_events [] = []
  ocw_events (of_template e ∷ es) = ocw_events es
  ocw_events (of_ocw e ∷ es) = e ∷ ocw_events es

  pub template_events-append :
      (es fs : List (RuntimeEvent AccountId))
      → template_events (es ++ fs) ≡ template_events es ++ template_events fs
  template_events-append [] fs = refl
  template_events-append (of_template e ∷ es) fs = ap (λ l. e ∷ l) (template_events-append es fs)
  template_events-append (of_ocw e ∷ es) fs = template_events-append es fs

  pub ocw_events-append :
      (es fs : List (RuntimeEvent AccountId))
      → ocw_events (es ++ fs) ≡ ocw_events es ++ ocw_events fs
  ocw_events-append [] fs = refl
  ocw_events-append (of_template e ∷ es) fs = ocw_events-append es fs
  ocw_events-append (of_ocw e ∷ es) fs = ap (λ l. e ∷ l) (ocw_events-append es fs)

module _ {AccountId : Type 0} where
  -- A list of events holds those of the one pallet and those of the other, in some order.
  parted :
      (es : List (RuntimeEvent AccountId))
      → Permᴰ es (map of_template (template_events es) ++ map of_ocw (ocw_events es))
  parted [] = Permᴰ.nil
  parted (of_template e ∷ es) = Permᴰ.cons refl (parted es)
  parted (of_ocw e ∷ es) = Permᴰ.trans (Permᴰ.cons refl (parted es)) (
      Permᴰ.symm (
        Permᴰ.middle (of_ocw e) (map of_template (template_events es))
          (map of_ocw (ocw_events es))))

  -- The same events of each pallet make the same events up to their order.
  pub parted-Perm :
      (es fs : List (RuntimeEvent AccountId))
      → template_events es ≡ template_events fs
      → ocw_events es ≡ ocw_events fs
      → Perm es fs
  parted-Perm es fs h k =
      let joined : Permᴰ es (map of_template (template_events fs) ++ map of_ocw (ocw_events fs)) =
        rw (← h, ← k) (parted es) in
      ∣ Permᴰ.trans joined (Permᴰ.symm (parted fs)) ∣₁

module _ (c : Chain) (laws : ChainLaws c) where
  abbrev pub template_laws : FrameLaws (template_frame c)
  template_laws = record {
    events = λ s. template_events (laws.events s);
    number = laws.number;
    get_put = laws.get_put template_pallet;
    get_deposit = λ e. laws.get_deposit template_pallet (of_template e);
    events_put = λ v s. ap template_events (laws.events_put template_pallet v s);
    events_deposit = λ e s later.
        ap template_events (laws.events_deposit (of_template e) s later)
        ∙ template_events-append (laws.events s) (of_template e ∷ []);
    number_put = laws.number_put template_pallet;
    number_deposit = λ e. laws.number_deposit (of_template e);
  }

  abbrev pub ocw_laws : FrameLaws (ocw_frame c)
  ocw_laws = record {
    events = λ s. ocw_events (laws.events s);
    number = laws.number;
    get_put = laws.get_put ocw_pallet;
    get_deposit = λ e. laws.get_deposit ocw_pallet (of_ocw e);
    events_put = λ v s. ap ocw_events (laws.events_put ocw_pallet v s);
    events_deposit = λ e s later.
        ap ocw_events (laws.events_deposit (of_ocw e) s later)
        ∙ ocw_events-append (laws.events s) (of_ocw e ∷ []);
    number_put = laws.number_put ocw_pallet;
    number_deposit = λ e. laws.number_deposit (of_ocw e);
  }
