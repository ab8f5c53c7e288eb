-- ===== src/Runtime/Messages/Runs.antt =====
-- All calls that messages have made, after any sequence of arrivals and services.
use mathlib.Core.List.{Memᴰ}
use mathlib.Core.List.Memᴰ
use mathlib.Core.Path.{subst}
use polkadot_confidential_of.Base.{
  ℕ, ◌≡◌, ◌⊎◌, refl, sym, ap, ◌∙◌, inl, inr, [], ◌∷◌, All, All-weaken,
}
use polkadot_confidential_of.Runtime.Fees.{Weights}
use polkadot_confidential_of.Runtime.Xcm.{LocationTypes, Rules, Converters, RuntimeOrigin}
use polkadot_confidential_of.Runtime.Xcm.Barriers.{RuleLaws}
use polkadot_confidential_of.Runtime.Xcm.Origins.{ConverterLaws}
use polkadot_confidential_of.Runtime.Xcm.Weighing.{Bounds}
use polkadot_confidential_of.Runtime.Xcm.Executor.{Executor, ExecutorLaws, xcm_config}
use polkadot_confidential_of.Runtime.Messages.{
  AggregateMessageOrigin, sender, parent, sibling, Queues, dmp_queue, xcmp_queue, message_processor,
  execute_call,
}
use polkadot_confidential_of.Runtime.Messages.Incoming.{
  QueueLaws, Sent, Earned, Steps, start, from_relay, from_sibling, serve, execute_here,
}
use polkadot_confidential_of.Runtime.Messages.Calls.{execute-Earned, Earned-cons}

module _ (t : LocationTypes) (x : Weights) (r : Rules t) (c : Converters t) (b : Bounds x)
    (e : Executor t x r b) (q : Queues t e.World b.Message) (rules : RuleLaws t r)
    (calls : ExecutorLaws t x r c b e rules) (queues : QueueLaws t x r c b e q rules calls)
    (id : ℕ) where
  open e use {World}
  open b use {Message}
  open calls use {dispatched}
  open queues use {queued}

  abbrev History : Type 0
  History = Sent t x r c b e q rules calls queues id

  abbrev EarnedIn : History → RuntimeOrigin t → Type 0
  EarnedIn = Earned t x r c b e q rules calls queues id

  -- What is waiting was sent by another chain.
  record Known (sent : History) (w : World) : Type 0 where
    waiting : (o : AggregateMessageOrigin) (m : Message) → Memᴰ m (queued o w) → Memᴰ (o, m) sent
    outside :
        (o : AggregateMessageOrigin) (m : Message) → Memᴰ (o, m) sent → (sender t o).parents ≡ 1
    justified : All (EarnedIn sent) (dispatched w)

  enqueued-Known :
      (sent : History) (s : AggregateMessageOrigin) (m : Message) (w : World)
      → (sender t s).parents ≡ 1
      → Known sent w
      → Known ((s, m) ∷ sent) (q.enqueue_message m s w)
  enqueued-Known sent s m w out known = record {
    waiting = λ o m' at. by_case o m' (queues.enqueued m m' s o w at);
    outside = λ o m' at. by_place o m' (Memᴰ.cases_cons at);
    justified = subst (All (EarnedIn ((s, m) ∷ sent))) (sym (queues.enqueue_dispatched m s w)) (
        All-weaken (EarnedIn sent) (EarnedIn ((s, m) ∷ sent))
          (Earned-cons t x r c b e q rules calls queues id (s, m)) (dispatched w) known.justified);
  }
    where
      by_case :
          (o : AggregateMessageOrigin) (m' : Message)
          → Memᴰ m' (queued o w) ⊎ ((m' ≡ m) × (o ≡ s))
          → Memᴰ (o, m') ((s, m) ∷ sent)
      by_case o m' (inl at) = Memᴰ.tail (known.waiting o m' at)
      by_case o m' (inr (same, same')) = Memᴰ.head (cc (same, same'))

      by_place :
          (o : AggregateMessageOrigin) (m' : Message)
          → (Path (AggregateMessageOrigin × Message) (o, m') (s, m)) ⊎ Memᴰ (o, m') sent
          → (sender t o).parents ≡ 1
      by_place o m' (inl same) = ap (λ p. (sender t p.0).parents) same ∙ out
      by_place o m' (inr at) = known.outside o m' at

  served-Known :
      (laws : ConverterLaws t c) (sent : History) (s : AggregateMessageOrigin) (m : Message)
      (w : World)
      → Memᴰ m (queued s w)
      → Known sent w
      → Known sent (message_processor t x r c b e q id m s (q.take m s w))
  unfolding message_processor
  served-Known laws sent s m w at known =
      let g = xcm_config t x r c b e id in
      let l = sender t s in
      let v = q.take m s w in
      subst (Known sent) (sym (queues.processed (e.execute g) m s v)) (record {
        waiting = λ o m' here_.
            known.waiting o m'
              (queues.taken m m' s o w (queues.execute_queued id l m m' o v here_));
        outside = known.outside;
        justified =
            execute-Earned t x r c b e q rules calls queues id laws sent s m v
              (known.waiting s m at) (known.outside s m (known.waiting s m at))
              (subst (All (EarnedIn sent)) (sym (queues.take_dispatched m s w)) known.justified);
      })

  module _ (laws : ConverterLaws t c) (w : World)
      (idle : (o : AggregateMessageOrigin) → queued o w ≡ []) (fresh : dispatched w ≡ []) where
    Steps-Known :
        {sent : History} {v : World}
        → Steps t x r c b e q rules calls queues id w sent v
        → Known sent v
    unfolding dmp_queue xcmp_queue execute_call
    Steps-Known start = record {
      waiting = λ o m at. absurd (Memᴰ.not-nil (subst (Memᴰ m) (idle o) at));
      outside = λ o m at. absurd (Memᴰ.not-nil at);
      justified = subst (All (EarnedIn [])) (sym fresh) tt;
    }
    Steps-Known (from_relay {sent} {v} m steps) =
        subst (Known ((parent, m) ∷ sent)) (sym (queues.with_origin q.enqueue_message parent m v))
          (enqueued-Known sent parent m v refl (Steps-Known steps))
    Steps-Known (from_sibling {sent} {v} k m steps) =
        subst (Known ((sibling k, m) ∷ sent))
          (sym (
            queues.transformed q.enqueue_message q.para_id_to_sibling m k v
            ∙ ap (λ o. q.enqueue_message m o v) (queues.sibling_of k)))
          (enqueued-Known sent (sibling k) m v refl (Steps-Known steps))
    Steps-Known (serve {sent} {v} o m at running steps) =
        served-Known laws sent o m v at (Steps-Known steps)
    Steps-Known (execute_here {sent} {v} o m steps) =
        subst (Known sent) (sym (queues.filtered _ _ _ o m v (λ l. refl))) (Steps-Known steps)

    -- From idle queues, in every state that arrivals of messages from the relay chain and from
    -- siblings, services of the queues and execute calls of local origins lead to, each call
    -- that a message has made has an earned origin: the relay chain for a message that it sent;
    -- a sibling chain for one that this sibling or the relay chain sent; and else the account or
    -- the XCM origin of a location inside the sender. That message has a weight and, without its
    -- topic, makes no reserve transfer to the relay chain, describes its origin well, and buys
    -- its execution or declares, as the relay chain or its executive body, that it does not pay.
    -- It is never root.
    pub Steps-Earned :
        {sent : History} {v : World}
        → Steps t x r c b e q rules calls queues id w sent v
        → All (EarnedIn sent) (dispatched v)
    Steps-Earned steps = (Steps-Known steps).justified
