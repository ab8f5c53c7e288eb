-- ===== src/Runtime/Pallets/Memory.antt =====
-- A chain in memory, on which the examples of the runtime run. Its other pallets have one call,
-- which does nothing.
use mathlib.Core.Logic.{ite, if_pos, if_neg}
use polkadot_confidential_of.Base.{
  ℕ, zero, suc, ◌<◌, arith, ◌≡◌, refl, List, [], ◌∷◌, ◌++◌, Option, some, returned,
}
use polkadot_confidential_of.Frame.{CompositeStruct}
use polkadot_confidential_of.Frame.Memory.{RawOrigin, memory_frame}
use polkadot_confidential_of.Runtime.Pallets.{Pallet, RuntimeEvent, Chain, ChainLaws}

pub record State : Type 0 where
  pub store : Pallet → Option CompositeStruct
  pub events : List (RuntimeEvent ℕ)
  pub number : ℕ

unfoldable pub Pallet-discrete : Discrete Pallet
Pallet-discrete = hlevel

-- Events are not recorded at the genesis block.
abbrev pub record_event : RuntimeEvent ℕ → ℕ → State → State
record_event e zero s = s
record_event e (suc n) s = record s { events = s.events ++ e ∷ [] }

abbrev pub memory_chain : Chain
memory_chain = record {
  State = State;
  AccountId = ℕ;
  Origin = RawOrigin;
  BadOrigin = Unit {0};
  OtherCall = ℕ;
  OtherError = Unit {0};
  ensure_signed = memory_frame.ensure_signed;
  get = λ p s. s.store p;
  put = λ p v s. record s { store = λ q. ite (Pallet-discrete q p) (some v) (s.store q) };
  deposit_event = λ e s. record_event e s.number s;
  dispatch_other = λ o origin s. (returned tt, s);
}

pub record_event-keeps :
    (e : RuntimeEvent ℕ) (n : ℕ) (s : State) (p : Pallet)
    → ((record_event e n s).store p ≡ s.store p) × ((record_event e n s).number ≡ s.number)
record_event-keeps e zero s p = (refl, refl)
record_event-keeps e (suc n) s p = (refl, refl)

pub record_event-adds :
    (e : RuntimeEvent ℕ) (n : ℕ) (s : State)
    → 0 < n
    → (record_event e n s).events ≡ s.events ++ e ∷ []
record_event-adds e zero s h = absurd (omega arith)
record_event-adds e (suc n) s h = refl

abbrev pub memory_chain-ChainLaws : ChainLaws memory_chain
memory_chain-ChainLaws = record {
  events = λ s. s.events;
  number = λ s. s.number;
  get_put = λ p v s. if_pos (Pallet-discrete p p) refl (some v) (s.store p);
  get_put_ne = λ p q v s ne. if_neg (Pallet-discrete p q) ne (some v) (s.store p);
  get_deposit = λ p e s. (record_event-keeps e s.number s p).0;
  events_put = λ p v s. refl;
  events_deposit = λ e s. record_event-adds e s.number s;
  number_put = λ p v s. refl;
  number_deposit = λ e s. (record_event-keeps e s.number s Pallet.system).1;
  get_template_other = λ o origin s. refl;
  get_ocw_other = λ o origin s. refl;
  events_other = λ o origin s. refl;
  number_other = λ o origin s. refl;
}
