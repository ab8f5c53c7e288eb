-- ===== src/Frame.antt =====
-- What a pallet takes from FRAME (frame-support and frame-system, which are not in this
-- repository): the check of the origin, one `StorageValue`, and the deposit of events. Both
-- pallets keep a `CompositeStruct` in `Something` and emit `SomethingStored`; the code for that is
-- the same in both files.
pub mod Memory
pub mod Stored
use polkadot_confidential_of.Base.{
  ℕ, ◌+◌, ◌^◌, ◌<◌, ◌≡◌, List, [], ◌∷◌, ◌++◌, Option, none, some, Result, ltb, if◌then◌else◌,
}

-- `CompositeStruct`
pub record CompositeStruct : Type 0 where
  pub block_number : ℕ

-- `Event`
pub data Event (AccountId : Type 0) : Type 0 where
  something_stored : ℕ → AccountId → Event AccountId

pub record Frame : Type 1 where
  pub State : Type 0
  pub AccountId : Type 0
  pub Origin : Type 0
  pub BadOrigin : Type 0
  pub ensure_signed : Origin → Result AccountId BadOrigin
  pub get : State → Option CompositeStruct
  pub put : CompositeStruct → State → State
  pub deposit_event : Event AccountId → State → State

module _ (f : Frame) where
  open f use {State, AccountId, get, put, deposit_event}

  -- What FRAME is documented to do. Events are not recorded at the genesis block.
  pub record FrameLaws : Type 0 where
    pub events : State → List (Event AccountId)
    pub number : State → ℕ
    pub get_put : (v : CompositeStruct) (s : State) → get (put v s) ≡ some v
    pub get_deposit : (e : Event AccountId) (s : State) → get (deposit_event e s) ≡ get s
    pub events_put : (v : CompositeStruct) (s : State) → events (put v s) ≡ events s
    pub events_deposit :
        (e : Event AccountId) (s : State)
        → 0 < number s
        → events (deposit_event e s) ≡ events s ++ e ∷ []
    pub number_put : (v : CompositeStruct) (s : State) → number (put v s) ≡ number s
    pub number_deposit : (e : Event AccountId) (s : State) → number (deposit_event e s) ≡ number s

-- Rust's `checked_add` on an unsigned integer of `bits` bits.
abbrev pub checked_add : ℕ → ℕ → ℕ → Option ℕ
checked_add bits a b = if ltb (a + b) (2 ^ bits) then some (a + b) else none
