-- ===== src/Runtime/Pallets.antt =====
-- The composition of the runtime in runtime/src/lib.rs: its pallets with their indices, its calls,
-- events and errors, and the dispatch of a call. Both pallets of the repository act on one state;
-- FRAME and the other pallets are the parameter `Chain`.
pub mod Frames
pub mod Spec
pub mod Runs
pub mod Shown
pub mod Interleaving
pub mod Memory
mod Tests
use polkadot_confidential_of.Base.{
  ℕ, ◌<◌, ◌≡◌, ◌≢◌, Option, some, List, [], ◌∷◌, ◌++◌, Result, ok, err, Exec, map_err,
}
use polkadot_confidential_of.Frame.{CompositeStruct, Event, Frame}
use polkadot_confidential_of.Template.{DispatchError}
use polkadot_confidential_of.Template
use polkadot_confidential_of.Ocw

-- The pallets by the names of the `runtime` module, under which their storage is kept.
pub data Pallet : Type 0 where
  system parachain_system timestamp parachain_info : Pallet
  balances transaction_payment : Pallet
  sudo : Pallet
  authorship collator_selection session aura aura_ext : Pallet
  xcmp_queue polkadot_xcm cumulus_xcm message_queue : Pallet
  template_pallet ocw_pallet : Pallet

-- `#[runtime::pallet_index(..)]`
unfoldable pub pallet_index : Pallet → ℕ
pallet_index system = 0
pallet_index parachain_system = 1
pallet_index timestamp = 2
pallet_index parachain_info = 3
pallet_index balances = 10
pallet_index transaction_payment = 11
pallet_index sudo = 15
pallet_index authorship = 20
pallet_index collator_selection = 21
pallet_index session = 22
pallet_index aura = 23
pallet_index aura_ext = 24
pallet_index xcmp_queue = 30
pallet_index polkadot_xcm = 31
pallet_index cumulus_xcm = 32
pallet_index message_queue = 33
pallet_index template_pallet = 50
pallet_index ocw_pallet = 51

-- `RuntimeEvent`, for the pallets of the repository.
pub data RuntimeEvent (AccountId : Type 0) : Type 0 where
  of_template : Event AccountId → RuntimeEvent AccountId
  of_ocw : Event AccountId → RuntimeEvent AccountId

pub data TemplateCall : Type 0 where
  do_something : ℕ → TemplateCall
  cause_error : TemplateCall

pub data OcwCall : Type 0 where
  do_something : ℕ → OcwCall

-- `RuntimeCall`. `Other` are the calls of the other pallets that dispatch no call themselves and
-- write no raw storage; those of sudo and `set_storage` of the system do, and are left out.
pub data RuntimeCall (Other : Type 0) : Type 0 where
  call_template : TemplateCall → RuntimeCall Other
  call_ocw : OcwCall → RuntimeCall Other
  call_other : Other → RuntimeCall Other

-- The error of a call, by the pallet that it comes from.
pub data RuntimeError (BadOrigin OtherError : Type 0) : Type 0 where
  template_error : DispatchError BadOrigin → RuntimeError BadOrigin OtherError
  ocw_error : BadOrigin → RuntimeError BadOrigin OtherError
  other_error : OtherError → RuntimeError BadOrigin OtherError

pub record Chain : Type 1 where
  pub State : Type 0
  pub AccountId : Type 0
  pub Origin : Type 0
  pub BadOrigin : Type 0
  pub OtherCall : Type 0
  pub OtherError : Type 0
  pub ensure_signed : Origin → Result AccountId BadOrigin
  pub get : Pallet → State → Option CompositeStruct
  pub put : Pallet → CompositeStruct → State → State
  pub deposit_event : RuntimeEvent AccountId → State → State
  pub dispatch_other : OtherCall → Origin → Exec State OtherError (Unit {0})

module _ (c : Chain) where
  open c use {State, AccountId, Origin, BadOrigin, OtherCall, OtherError, get, put, deposit_event}

  -- What a pallet sees of the chain: its own storage, and the events that it deposits.
  abbrev pub pallet_frame : Pallet → (Event AccountId → RuntimeEvent AccountId) → Frame
  pallet_frame pallet into = record {
    State = State;
    AccountId = AccountId;
    Origin = Origin;
    BadOrigin = BadOrigin;
    ensure_signed = c.ensure_signed;
    get = get pallet;
    put = put pallet;
    deposit_event = λ e. deposit_event (into e);
  }

  abbrev pub template_frame : Frame
  template_frame = pallet_frame template_pallet of_template

  abbrev pub ocw_frame : Frame
  ocw_frame = pallet_frame ocw_pallet of_ocw

  -- The dispatch of a call. Block numbers are `u32`.
  unfoldable pub dispatch :
      RuntimeCall OtherCall → Origin → Exec State (RuntimeError BadOrigin OtherError) (Unit {0})
  dispatch (call_template (TemplateCall.do_something bn)) origin =
      map_err template_error (Template.do_something template_frame 32 origin bn)
  dispatch (call_template cause_error) origin =
      map_err template_error (Template.cause_error template_frame 32 origin)
  dispatch (call_ocw (OcwCall.do_something bn)) origin =
      map_err ocw_error (Ocw.do_something ocw_frame origin bn)
  dispatch (call_other other) origin = map_err other_error (c.dispatch_other other origin)

  -- A block's calls, each with its origin, in their order.
  unfoldable pub run : List (RuntimeCall OtherCall × Origin) → State → State
  unfolding dispatch
  run [] s = s
  run ((call, origin) ∷ calls) s = run calls (dispatch call origin s).1

  -- What FRAME is documented to do: each pallet has a storage of its own, and the other pallets
  -- leave the storage and the events of these two alone.
  pub record ChainLaws : Type 0 where
    pub events : State → List (RuntimeEvent AccountId)
    pub number : State → ℕ
    pub get_put : (p : Pallet) (v : CompositeStruct) (s : State) → get p (put p v s) ≡ some v
    pub get_put_ne :
        (p q : Pallet) (v : CompositeStruct) (s : State) → p ≢ q → get p (put q v s) ≡ get p s
    pub get_deposit :
        (p : Pallet) (e : RuntimeEvent AccountId) (s : State) → get p (deposit_event e s) ≡ get p s
    pub events_put : (p : Pallet) (v : CompositeStruct) (s : State) → events (put p v s) ≡ events s
    pub events_deposit :
        (e : RuntimeEvent AccountId) (s : State)
        → 0 < number s
        → events (deposit_event e s) ≡ events s ++ e ∷ []
    pub number_put : (p : Pallet) (v : CompositeStruct) (s : State) → number (put p v s) ≡ number s
    pub number_deposit :
        (e : RuntimeEvent AccountId) (s : State) → number (deposit_event e s) ≡ number s
    pub get_template_other :
        (o : OtherCall) (origin : Origin) (s : State)
        → get template_pallet (c.dispatch_other o origin s).1 ≡ get template_pallet s
    pub get_ocw_other :
        (o : OtherCall) (origin : Origin) (s : State)
        → get ocw_pallet (c.dispatch_other o origin s).1 ≡ get ocw_pallet s
    pub events_other :
        (o : OtherCall) (origin : Origin) (s : State)
        → events (c.dispatch_other o origin s).1 ≡ events s
    pub number_other :
        (o : OtherCall) (origin : Origin) (s : State)
        → number (c.dispatch_other o origin s).1 ≡ number s
