-- ===== src/Runtime/Messages/Incoming.antt =====
-- The calls that messages of other chains make on this chain, through any sequence of arrivals and
-- services, and whatever local origins ask pallet-xcm to execute.
use mathlib.Core.List.{Memᴰ}
use polkadot_confidential_of.Base.{
  ℕ, ◌≡◌, ◌⊎◌, Bool, true, false, Option, some, List, [], ◌∷◌, ◌++◌,
}
use polkadot_confidential_of.Runtime.Fees.{Weights}
use polkadot_confidential_of.Runtime.Xcm.{
  LocationTypes, Junction, parachain, Location, Rules, Converters, location_to_account_id,
  RuntimeOrigin, signed, relay, sibling_parachain, xcm,
}
use polkadot_confidential_of.Runtime.Xcm.Barriers.{RuleLaws, IsParentOrExecutive}
use polkadot_confidential_of.Runtime.Xcm.Weighing.{Bounds, weigher}
use polkadot_confidential_of.Runtime.Xcm.Executor.{Executor, ExecutorLaws, xcm_config}
use polkadot_confidential_of.Runtime.Messages.{
  AggregateMessageOrigin, sender, parent, sibling, Queues, dmp_queue, xcmp_queue, queue_paused,
  message_processor, execute_call,
}

module _ (t : LocationTypes) (x : Weights) (r : Rules t) (c : Converters t) (b : Bounds x)
    (e : Executor t x r b) (q : Queues t e.World b.Message) where
  open e use {World}
  open b use {Message}

  module _ (rules : RuleLaws t r) (calls : ExecutorLaws t x r c b e rules) where
    open calls use {dispatched}

    -- What the queues are documented to do: nothing comes into them but by `enqueue_message`, and
    -- they dispatch no call.
    pub record QueueLaws : Type 0 where
      pub queued : AggregateMessageOrigin → World → List Message
      pub enqueued :
          (m m' : Message) (o o' : AggregateMessageOrigin) (w : World)
          → Memᴰ m' (queued o' (q.enqueue_message m o w))
          → Memᴰ m' (queued o' w) ⊎ ((m' ≡ m) × (o' ≡ o))
      pub enqueue_dispatched :
          (m : Message) (o : AggregateMessageOrigin) (w : World)
          → dispatched (q.enqueue_message m o w) ≡ dispatched w
      pub taken :
          (m m' : Message) (o o' : AggregateMessageOrigin) (w : World)
          → Memᴰ m' (queued o' (q.take m o w))
          → Memᴰ m' (queued o' w)
      pub take_dispatched :
          (m : Message) (o : AggregateMessageOrigin) (w : World)
          → dispatched (q.take m o w) ≡ dispatched w
      pub execute_queued :
          (id : ℕ) (l : Location t) (m m' : Message) (o : AggregateMessageOrigin) (w : World)
          → Memᴰ m' (queued o (e.execute (xcm_config t x r c b e id) l m w))
          → Memᴰ m' (queued o w)
      pub with_origin :
          (h : Message → AggregateMessageOrigin → World → World) (o : AggregateMessageOrigin)
          (m : Message) (w : World)
          → q.enqueue_with_origin h o m w ≡ h m o w
      pub transformed :
          (h : Message → AggregateMessageOrigin → World → World) (f : ℕ → AggregateMessageOrigin)
          (m : Message) (id : ℕ) (w : World)
          → q.transform_origin h f m id w ≡ h m (f id) w
      pub sibling_of : (id : ℕ) → q.para_id_to_sibling id ≡ sibling id
      pub processed :
          (run : Location t → Message → World → World) (m : Message) (o : AggregateMessageOrigin)
          (w : World)
          → q.process_xcm_message run m o w ≡ run (sender t o) m w
      -- A message that the filter does not let pass is an error, which changes nothing.
      pub filtered :
          (ensure : RuntimeOrigin t → Option (Location t)) (filter : Location t × Message → Bool)
          (run : Location t → Message → World → World) (o : RuntimeOrigin t) (m : Message)
          (w : World)
          → ((l : Location t) → filter (l, m) ≡ false)
          → q.execute ensure filter run o m w ≡ w

    module _ (queues : QueueLaws) (parachain_id : ℕ) where
      open queues use {queued}

      abbrev pub Sent : Type 0
      Sent = List (AggregateMessageOrigin × Message)

      -- From one world to another, with what other chains have sent in between, the last first.
      pub data Steps (w : World) : Sent → World → Type 0 where
        start : Steps w [] w
        from_relay :
            {sent : Sent} {v : World} (m : Message)
            → Steps w sent v
            → Steps w ((parent, m) ∷ sent) (dmp_queue t x r c b e q m v)
        from_sibling :
            {sent : Sent} {v : World} (id : ℕ) (m : Message)
            → Steps w sent v
            → Steps w ((sibling id, m) ∷ sent) (xcmp_queue t x r c b e q m id v)
        serve :
            {sent : Sent} {v : World} (o : AggregateMessageOrigin) (m : Message)
            → Memᴰ m (queued o v)
            → queue_paused t x r c b e q o v ≡ false
            → Steps w sent v
            → Steps w sent (message_processor t x r c b e q parachain_id m o (q.take m o v))
        execute_here :
            {sent : Sent} {v : World} (o : RuntimeOrigin t) (m : Message)
            → Steps w sent v
            → Steps w sent (execute_call t x r c b e q parachain_id o m v)

      -- Why a message may call the runtime: it has at most so many instructions that it has a
      -- weight, makes no reserve transfer to the relay chain, and describes its origin well, and
      -- pays for its execution, or is free as one of the relay chain or its executive body.
      abbrev pub Passes : AggregateMessageOrigin → Message → Type 0
      Passes o m =
          let request = rules.without_topic (e.request (sender t o) m) in
          let computed = rules.described (parachain parachain_id ∷ []) 8 request in
          ((v : x.Weight) × (weigher x b m ≡ some v))
          × (r.denies_reserve_transfer_to_relay_chain request ≡ false)
          × (rules.describes_origin 8 request ≡ true)
          × ((rules.buys_execution computed ≡ true)
              ⊎ (IsParentOrExecutive t (r.origin computed)
                  × (rules.declares_unpaid computed ≡ true)))

      -- A location that is the sender or inside it.
      abbrev pub Inside : AggregateMessageOrigin → Location t → Type 0
      Inside o l =
          (l.parents ≡ (sender t o).parents)
          × (js : List (Junction t)) × (l.interior ≡ (sender t o).interior ++ js)

      -- Why an origin may have called the runtime.
      pub data Earned (sent : Sent) : RuntimeOrigin t → Type 0 where
        as_relay : (m : Message) → Memᴰ (parent, m) sent → Passes parent m → Earned sent relay
        as_sibling :
            {id : ℕ} (m : Message)
            → Memᴰ (sibling id, m) sent
            → Passes (sibling id) m
            → Earned sent (sibling_parachain id)
        as_sibling_by_relay :
            {id : ℕ} (m : Message)
            → Memᴰ (parent, m) sent
            → Passes parent m
            → Earned sent (sibling_parachain id)
        as_account :
            {a : t.AccountId} (o : AggregateMessageOrigin) (m : Message) (l : Location t)
            → Memᴰ (o, m) sent
            → Passes o m
            → Inside o l
            → location_to_account_id t c l ≡ some a
            → Earned sent (signed a)
        as_location :
            {l : Location t} (o : AggregateMessageOrigin) (m : Message)
            → Memᴰ (o, m) sent
            → Passes o m
            → Inside o l
            → Earned sent (xcm l)
