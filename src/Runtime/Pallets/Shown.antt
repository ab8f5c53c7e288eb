-- ===== src/Runtime/Pallets/Shown.antt =====
-- What one pallet of the runtime shows, and what each call makes of it.
use polkadot_confidential_of.Base.{
  ℕ, ◌≡◌, ◌∙◌, refl, ap, Option, some, List, [], ◌∷◌, ◌++◌, Result, ok, err, append-nil,
}
use polkadot_confidential_of.Frame.{Event, something_stored}
use polkadot_confidential_of.Runtime.Pallets.Frames.{
  template_events, ocw_events, template_events-append, ocw_events-append,
}
use polkadot_confidential_of.Runtime.Pallets.Spec.{
  View, next, store_template, store_ocw, bump_template,
}

-- What one pallet shows: its number, and its own events.
abbrev pub Shown : Type 0 → Type 0
Shown AccountId = Option ℕ × List (Event AccountId)

module _ {AccountId : Type 0} where
  abbrev pub of_pallet_template : View AccountId → Shown AccountId
  of_pallet_template v = (v.template, template_events v.events)

  abbrev pub of_pallet_ocw : View AccountId → Shown AccountId
  of_pallet_ocw v = (v.ocw, ocw_events v.events)

module _ {AccountId BadOrigin : Type 0} where
  -- What a signed call that stores a number does to its pallet.
  abbrev pub store : ℕ → Result AccountId BadOrigin → Shown AccountId → Shown AccountId
  store bn (err b) x = x
  store bn (ok who) x = (some bn, x.1 ++ something_stored bn who ∷ [])

  abbrev pub bump : Result AccountId BadOrigin → Shown AccountId → Shown AccountId
  bump (err b) x = x
  bump (ok who) x = (next x.0, x.1)

  pub store_template-template :
      (bn : ℕ) (r : Result AccountId BadOrigin) (v : View AccountId)
      → of_pallet_template (store_template bn r v) ≡ store bn r (of_pallet_template v)
  store_template-template bn (err b) v = refl
  store_template-template bn (ok who) v =
      ap (λ es. (some bn, es)) (template_events-append v.events _)

  pub store_template-ocw :
      (bn : ℕ) (r : Result AccountId BadOrigin) (v : View AccountId)
      → of_pallet_ocw (store_template bn r v) ≡ of_pallet_ocw v
  store_template-ocw bn (err b) v = refl
  store_template-ocw bn (ok who) v =
      ap (λ es. (v.ocw, es)) (ocw_events-append v.events _ ∙ append-nil (ocw_events v.events))

  pub bump_template-template :
      (r : Result AccountId BadOrigin) (v : View AccountId)
      → of_pallet_template (bump_template r v) ≡ bump r (of_pallet_template v)
  bump_template-template (err b) v = refl
  bump_template-template (ok who) v = refl

  pub bump_template-ocw :
      (r : Result AccountId BadOrigin) (v : View AccountId)
      → of_pallet_ocw (bump_template r v) ≡ of_pallet_ocw v
  bump_template-ocw (err b) v = refl
  bump_template-ocw (ok who) v = refl

  pub store_ocw-ocw :
      (bn : ℕ) (r : Result AccountId BadOrigin) (v : View AccountId)
      → of_pallet_ocw (store_ocw bn r v) ≡ store bn r (of_pallet_ocw v)
  store_ocw-ocw bn (err b) v = refl
  store_ocw-ocw bn (ok who) v = ap (λ es. (some bn, es)) (ocw_events-append v.events _)

  pub store_ocw-template :
      (bn : ℕ) (r : Result AccountId BadOrigin) (v : View AccountId)
      → of_pallet_template (store_ocw bn r v) ≡ of_pallet_template v
  store_ocw-template bn (err b) v = refl
  store_ocw-template bn (ok who) v =
      ap (λ es. (v.template, es))
        (template_events-append v.events _ ∙ append-nil (template_events v.events))
