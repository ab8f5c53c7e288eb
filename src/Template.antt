-- ===== src/Template.antt =====
-- pallets/template/src/lib.rs: the dispatchables of the template pallet. A block number is an
-- unsigned integer of `bits` bits: 32 in the runtime, 64 in the pallet's mock.
pub mod Calls
pub mod Counter
pub mod Reach
pub mod Benchmarks
mod Tests
use polkadot_confidential_of.Base.{
  ℕ, ◌≡◌, Option, none, some, Exec, from_result, map_err, pure, fail, ok_or, modify, ◌>>=◌, ◌>>◌,
  Result, returned,
}
use polkadot_confidential_of.Frame.{CompositeStruct, something_stored, Frame, checked_add}

-- `Error`
pub data Error : Type 0 where
  none_value storage_overflow : Error

-- The errors of a call: that of `ensure_signed`, or one of the pallet's.
pub data DispatchError (BadOrigin : Type 0) : Type 0 where
  bad_origin : BadOrigin → DispatchError BadOrigin
  module_error : Error → DispatchError BadOrigin

module _ (f : Frame) (bits : ℕ) where
  open f use {State, AccountId, Origin, BadOrigin, get, put, deposit_event}

  abbrev pub Call : Type 0 → Type 0
  Call A = Exec State (DispatchError BadOrigin) A

  abbrev signer : Origin → Call AccountId
  signer origin = map_err bad_origin (from_result (f.ensure_signed origin))

  -- `bn` is a `u32`, which every block number type holds.
  unfoldable pub do_something : Origin → ℕ → Call (Unit {0})
  do_something origin bn = do
    who ← signer origin
    modify (put (record { block_number = bn }))
    modify (deposit_event (something_stored bn who))

  -- The two arms of the match in `cause_error`.
  pub increment : Option CompositeStruct → Call (Unit {0})
  increment none = fail (module_error none_value)
  increment (some old) = do
    next ← ok_or (checked_add bits old.block_number 1) (module_error storage_overflow)
    modify (put (record old { block_number = next }))

  unfoldable pub cause_error : Origin → Call (Unit {0})
  unfolding increment
  cause_error origin = do signer origin; λ s. increment (get s) s
