-- ===== src/Frame/Memory.antt =====
-- FRAME in memory, on which the examples of the pallets run.
use polkadot_confidential_of.Base.{
  ℕ, zero, suc, ◌<◌, arith, ◌≡◌, refl, List, [], ◌∷◌, ◌++◌, Option, some, ok, err, Result,
}
use polkadot_confidential_of.Frame.{CompositeStruct, Event, Frame, FrameLaws}

-- frame-system's `RawOrigin`
pub data RawOrigin : Type 0 where
  root unsigned : RawOrigin
  signed : ℕ → RawOrigin

abbrev signer : RawOrigin → Result ℕ (Unit {0})
signer root = err tt
signer unsigned = err tt
signer (signed who) = ok who

pub record Chain : Type 0 where
  pub something : Option CompositeStruct
  pub events : List (Event ℕ)
  pub number : ℕ

abbrev pub deposit : Event ℕ → ℕ → Chain → Chain
deposit e zero s = s
deposit e (suc n) s = record s { events = s.events ++ e ∷ [] }

abbrev pub memory_frame : Frame
memory_frame = record {
  State = Chain;
  AccountId = ℕ;
  Origin = RawOrigin;
  BadOrigin = Unit {0};
  ensure_signed = signer;
  get = λ s. s.something;
  put = λ v s. record s { something = some v };
  deposit_event = λ e s. deposit e s.number s;
}

pub deposit_keeps :
    (e : Event ℕ) (n : ℕ) (s : Chain)
    → ((deposit e n s).something ≡ s.something) × ((deposit e n s).number ≡ s.number)
deposit_keeps e zero s = (refl, refl)
deposit_keeps e (suc n) s = (refl, refl)

pub deposit_adds :
    (e : Event ℕ) (n : ℕ) (s : Chain) → 0 < n → (deposit e n s).events ≡ s.events ++ e ∷ []
deposit_adds e zero s h = absurd (omega arith)
deposit_adds e (suc n) s h = refl

abbrev pub memory_laws : FrameLaws memory_frame
memory_laws = record {
  events = λ s. s.events;
  number = λ s. s.number;
  get_put = λ v s. refl;
  get_deposit = λ e s. (deposit_keeps e s.number s).0;
  events_put = λ v s. refl;
  events_deposit = λ e s. deposit_adds e s.number s;
  number_put = λ v s. refl;
  number_deposit = λ e s. (deposit_keeps e s.number s).1;
}
