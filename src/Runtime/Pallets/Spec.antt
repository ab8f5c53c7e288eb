-- ===== src/Runtime/Pallets/Spec.antt =====
-- The runtime as two independent numbers and one list of events: an abstract specification of the
-- calls of both pallets.
use polkadot_confidential_of.Base.{
  ℕ, ◌+◌, ◌-◌, ◌^◌, ◌<◌, Option, none, some, List, [], ◌∷◌, ◌++◌, Result, ok, err, min,
}
use polkadot_confidential_of.Frame.{something_stored}
use polkadot_confidential_of.Template.Counter.{number_of}
use polkadot_confidential_of.Runtime.Pallets.{
  template_pallet, ocw_pallet, RuntimeEvent, of_template, of_ocw, TemplateCall, cause_error,
  OcwCall, RuntimeCall, call_template, call_ocw, call_other, Chain, ChainLaws,
}

-- What the two pallets show of the chain.
pub record View (AccountId : Type 0) : Type 0 where
  pub template : Option ℕ
  pub ocw : Option ℕ
  pub events : List (RuntimeEvent AccountId)

-- The largest block number is `u32::MAX`.
abbrev pub next : Option ℕ → Option ℕ
next none = none
next (some n) = some (min (n + 1) (2 ^ 32 - 1))

abbrev pub Fits : Option ℕ → Type 0
Fits none = Unit
Fits (some n) = n < 2 ^ 32

module _ {AccountId BadOrigin : Type 0} where
  -- The specification of each call, by what `ensure_signed` says of its origin.
  abbrev pub store_template : ℕ → Result AccountId BadOrigin → View AccountId → View AccountId
  store_template bn (err b) v = v
  store_template bn (ok who) v = record v {
    template = some bn;
    events = v.events ++ of_template (something_stored bn who) ∷ [];
  }

  abbrev pub bump_template : Result AccountId BadOrigin → View AccountId → View AccountId
  bump_template (err b) v = v
  bump_template (ok who) v = record v { template = next v.template }

  abbrev pub store_ocw : ℕ → Result AccountId BadOrigin → View AccountId → View AccountId
  store_ocw bn (err b) v = v
  store_ocw bn (ok who) v = record v {
    ocw = some bn;
    events = v.events ++ of_ocw (something_stored bn who) ∷ [];
  }

module _ (c : Chain) where
  open c use {State, AccountId, Origin, BadOrigin, OtherCall, ensure_signed, get}

  abbrev pub spec : RuntimeCall OtherCall → Origin → View AccountId → View AccountId
  spec (call_template (TemplateCall.do_something bn)) origin =
      store_template bn (ensure_signed origin)
  spec (call_template cause_error) origin = bump_template (ensure_signed origin)
  spec (call_ocw (OcwCall.do_something bn)) origin = store_ocw bn (ensure_signed origin)
  spec (call_other other) origin = λ v. v

  abbrev pub spec_run : List (RuntimeCall OtherCall × Origin) → View AccountId → View AccountId
  spec_run [] v = v
  spec_run ((call, origin) ∷ calls) v = spec_run calls (spec call origin v)

  -- The argument of a call is a `u32`.
  abbrev pub IsValid : RuntimeCall OtherCall × Origin → Type 0
  IsValid (call_template (TemplateCall.do_something bn), origin) = bn < 2 ^ 32
  IsValid (call_template cause_error, origin) = Unit
  IsValid (call_ocw (OcwCall.do_something bn), origin) = bn < 2 ^ 32
  IsValid (call_other other, origin) = Unit

  module _ (laws : ChainLaws c) where
    abbrev pub view : State → View AccountId
    view s = record {
      template = number_of (get template_pallet s);
      ocw = number_of (get ocw_pallet s);
      events = laws.events s;
    }

    -- A state after the genesis block whose number for the template pallet fits its type.
    abbrev pub Sound : State → Type 0
    Sound s = (0 < laws.number s) × Fits (view s).template
