-- ===== src/Runtime/Messages.antt =====
-- Messages of other chains in runtime/src/configs/mod.rs: the queues that they enter by, and how they
-- are handed to the executor; and those that local origins ask pallet-xcm to execute, in
-- runtime/src/configs/xcm_config.rs. pallet-message-queue, pallet-xcm, the cumulus pallets and the
-- adaptors between them are not in this repository: they are the parameter `Queues`.
pub mod Incoming
pub mod Calls
pub mod Runs
pub mod Memory
pub mod QueueMemory
mod Tests
use polkadot_confidential_of.Base.{ℕ, Bool, false, Option, [], ◌∷◌}
use polkadot_confidential_of.Runtime.Fees.{Weights}
use polkadot_confidential_of.Runtime.Xcm.{
  LocationTypes, parachain, Location, Rules, Converters, RuntimeOrigin,
}
use polkadot_confidential_of.Runtime.Xcm.Routes.{Senders, execute_xcm_origin}
use polkadot_confidential_of.Runtime.Xcm.Weighing.{Bounds}
use polkadot_confidential_of.Runtime.Xcm.Executor.{Executor, xcm_config}

-- cumulus's `AggregateMessageOrigin`
pub data AggregateMessageOrigin : Type 0 where
  here parent : AggregateMessageOrigin
  sibling : ℕ → AggregateMessageOrigin

-- The location of a sender, as this chain sees it.
abbrev pub sender : (t : LocationTypes) → AggregateMessageOrigin → Location t
sender t here = record { parents = 0; interior = [] }
sender t parent = record { parents = 1; interior = [] }
sender t (sibling id) = record { parents = 1; interior = parachain id ∷ [] }

pub record Queues (t : LocationTypes) (World Message : Type 0) : Type 0 where
  -- `enqueue_message` of the message queue, and the adaptors of it.
  pub enqueue_message : Message → AggregateMessageOrigin → World → World
  pub enqueue_with_origin :
      (Message → AggregateMessageOrigin → World → World)
      → AggregateMessageOrigin
      → Message
      → World
      → World
  pub transform_origin :
      (Message → AggregateMessageOrigin → World → World)
      → (ℕ → AggregateMessageOrigin)
      → Message
      → ℕ
      → World
      → World
  pub para_id_to_sibling : ℕ → AggregateMessageOrigin
  -- `is_paused` of the XCMP queue, and its adaptor.
  pub is_paused : ℕ → World → Bool
  pub narrow_origin_to_sibling : (ℕ → World → Bool) → AggregateMessageOrigin → World → Bool
  -- `ProcessXcmMessage`, for an executor.
  pub process_xcm_message :
      (Location t → Message → World → World) → Message → AggregateMessageOrigin → World → World
  -- The message queue takes a message out to serve it.
  pub take : Message → AggregateMessageOrigin → World → World
  -- The call `execute` of pallet-xcm, for the check of origins, the filter and an executor.
  pub senders : Senders t
  pub execute :
      (RuntimeOrigin t → Option (Location t))
      → (Location t × Message → Bool)
      → (Location t → Message → World → World)
      → RuntimeOrigin t
      → Message
      → World
      → World

-- `RelayOrigin`
abbrev pub relay_origin : AggregateMessageOrigin
relay_origin = parent

module _ (t : LocationTypes) (x : Weights) (r : Rules t) (c : Converters t) (b : Bounds x)
    (e : Executor t x r b) (q : Queues t e.World b.Message) where
  open e use {World}
  open b use {Message}

  -- `DmpQueue`: a message of the relay chain.
  unfoldable pub dmp_queue : Message → World → World
  dmp_queue = q.enqueue_with_origin q.enqueue_message relay_origin

  -- `XcmpQueue`: a message of the sibling chain with the given id.
  unfoldable pub xcmp_queue : Message → ℕ → World → World
  xcmp_queue = q.transform_origin q.enqueue_message q.para_id_to_sibling

  -- `QueuePausedQuery`
  unfoldable pub queue_paused : AggregateMessageOrigin → World → Bool
  queue_paused = q.narrow_origin_to_sibling q.is_paused

  -- `MessageProcessor`, for the id in the parachain info pallet.
  unfoldable pub message_processor : ℕ → Message → AggregateMessageOrigin → World → World
  message_processor parachain_id =
      q.process_xcm_message (e.execute (xcm_config t x r c b e parachain_id))

  -- `XcmExecuteFilter`
  abbrev pub xcm_execute_filter : Location t × Message → Bool
  xcm_execute_filter message = false

  -- The call `execute` of pallet-xcm in the runtime.
  unfoldable pub execute_call : ℕ → RuntimeOrigin t → Message → World → World
  execute_call parachain_id =
      q.execute (execute_xcm_origin t q.senders) xcm_execute_filter
        (e.execute (xcm_config t x r c b e parachain_id))
