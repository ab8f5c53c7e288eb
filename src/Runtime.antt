-- ===== src/Runtime.antt =====
-- The runtime: its constants, and the children for its parts.
pub mod Genesis
pub mod Transaction
pub mod Fees
pub mod Pallets
pub mod ApiFrames
pub mod Apis
pub mod Xcm
pub mod Limits
pub mod Collators
pub mod Charges
pub mod Trial
pub mod Messages
pub mod Benchmarks
use polkadot_confidential_of.Base.{ℕ, ◌*◌, ◌/◌}

-- Balances are `u128`, block numbers `u32`, times `u64`; the constants are far below the bounds.
abbrev pub milli_secs_per_block : ℕ
milli_secs_per_block = 6000

abbrev pub slot_duration : ℕ
slot_duration = milli_secs_per_block

abbrev pub minutes : ℕ
minutes = 60000 / milli_secs_per_block

abbrev pub hours : ℕ
hours = minutes * 60

abbrev pub days : ℕ
days = hours * 24

abbrev pub unit : ℕ
unit = 1000000000000

abbrev pub milli_unit : ℕ
milli_unit = 1000000000

abbrev pub micro_unit : ℕ
micro_unit = 1000000

abbrev pub existential_deposit : ℕ
existential_deposit = milli_unit

-- `async_backing_params`
abbrev pub unincluded_segment_capacity : ℕ
unincluded_segment_capacity = 3

abbrev pub block_processing_velocity : ℕ
block_processing_velocity = 1

abbrev pub relay_chain_slot_duration_millis : ℕ
relay_chain_slot_duration_millis = 6000
