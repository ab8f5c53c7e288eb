-- ===== src/Runtime/Messages/Calls.antt =====
-- Why a call that a message has made is earned.
use mathlib.Core.List.{Memᴰ}
use mathlib.Core.Path.{subst}
use polkadot_confidential_of.Base.{
  ℕ, ◌≡◌, refl, sym, ap, ◌∙◌, inl, inr, Bool, true, false, Option, none, some, [], ◌∷◌, ◌++◌,
  append-nil, append_assoc, All, All-append, All-weaken, arith,
}
use polkadot_confidential_of.Runtime.Fees.{Weights}
use polkadot_confidential_of.Runtime.Xcm.{
  LocationTypes, Location, Rules, barrier, Converters, RuntimeOrigin, OriginKind, sibling_parachain,
}
use polkadot_confidential_of.Runtime.Xcm.Barriers.{RuleLaws, barrier-eq-true_iff}
use polkadot_confidential_of.Runtime.Xcm.Origins.{
  ConverterLaws, Converted, sovereign, from_relay, from_sibling, from_account, passed,
  to_dispatch_origin-Converted,
}
use polkadot_confidential_of.Runtime.Xcm.Weighing.{Bounds, weigher}
use polkadot_confidential_of.Runtime.Xcm.Executor.{
  Config, Executor, ExecutorLaws, xcm_config, Reaches, unchanged, descended, universal, aliased,
}
use polkadot_confidential_of.Runtime.Messages.{
  AggregateMessageOrigin, sender, here, parent, sibling, Queues,
}
use polkadot_confidential_of.Runtime.Messages.Incoming.{
  QueueLaws, Sent, Passes, Inside, Earned, as_relay, as_sibling, as_sibling_by_relay, as_account,
  as_location,
}

module _ (t : LocationTypes) (x : Weights) (r : Rules t) (c : Converters t) (b : Bounds x)
    (e : Executor t x r b) (q : Queues t e.World b.Message) (rules : RuleLaws t r)
    (calls : ExecutorLaws t x r c b e rules) (queues : QueueLaws t x r c b e q rules calls)
    (id : ℕ) where
  open e use {World}
  open b use {Message}
  open calls use {dispatched}

  abbrev History : Type 0
  History = Sent t x r c b e q rules calls queues id

  abbrev PassesAs : AggregateMessageOrigin → Message → Type 0
  PassesAs = Passes t x r c b e q rules calls queues id

  abbrev InsideOf : AggregateMessageOrigin → Location t → Type 0
  InsideOf = Inside t x r c b e q rules calls queues id

  abbrev EarnedIn : History → RuntimeOrigin t → Type 0
  EarnedIn = Earned t x r c b e q rules calls queues id

  Reaches-Inside :
      (o : AggregateMessageOrigin) {n : Location t}
      → Reaches t x r c b e (xcm_config t x r c b e id) (sender t o) n
      → InsideOf o n
  unfolding xcm_config
  Reaches-Inside o unchanged = (refl, [], sym (append-nil _))
  Reaches-Inside o (descended js way) =
      let (level, ks, at) = Reaches-Inside o way in (level, ks ++ js, rw (at, append_assoc))
  Reaches-Inside o (universal j way h) = absurd (cc h)
  Reaches-Inside o (aliased way h) = absurd (cc h)

  -- Once weighed, a message that the barrier lets pass has a reason to.
  weigher-Passes :
      (o : AggregateMessageOrigin) (m : Message) (v : x.Weight)
      → weigher x b m ≡ some v
      → barrier t r id (e.request (sender t o) m) ≡ true
      → PassesAs o m
  weigher-Passes o m v weight open_ =
      let from = sender t o in
      let (kept, why) = (barrier-eq-true_iff t r rules id (e.request from m)).0 open_ in
      elim why [
        | inl credit ↦ absurd (cc (credit, calls.no_credit from m))
        | inr (well, paid) ↦ ((v, weight), kept, well, paid)
      ]

  pub Earned-cons :
      {sent : History} (s : AggregateMessageOrigin × Message) (o : RuntimeOrigin t)
      → EarnedIn sent o
      → EarnedIn (s ∷ sent) o
  Earned-cons s _ (as_relay m at p) = as_relay m (Memᴰ.tail at) p
  Earned-cons s _ (as_sibling m at p) = as_sibling m (Memᴰ.tail at) p
  Earned-cons s _ (as_sibling_by_relay m at p) = as_sibling_by_relay m (Memᴰ.tail at) p
  Earned-cons s _ (as_account o m l at p i k) = as_account o m l (Memᴰ.tail at) p i k
  Earned-cons s _ (as_location o m at p i) = as_location o m (Memᴰ.tail at) p i

  -- The origin that a converter makes of a location inside the sender of a message.
  Converted-Earned :
      (sent : History) (s : AggregateMessageOrigin) (m : Message) (n : Location t)
      (kind : OriginKind) (o : RuntimeOrigin t)
      → Memᴰ (s, m) sent
      → (sender t s).parents ≡ 1
      → PassesAs s m
      → InsideOf s n
      → Converted t c n kind o
      → EarnedIn sent o
  Converted-Earned sent s m n kind o at out p i (sovereign _ account made) =
      subst (EarnedIn sent) (sym made) (as_account s m n at p i account)
  Converted-Earned sent parent m n kind o at out p i (from_relay _ where_ made) =
      subst (EarnedIn sent) (sym made) (as_relay m at p)
  Converted-Earned sent here m n kind o at out p i (from_relay _ where_ made) = absurd (omega arith)
  Converted-Earned sent (sibling k) m n kind o at out p (level, js, e') (from_relay _ where_ made) =
      absurd (cc)
  Converted-Earned sent parent m n kind o at out p i (from_sibling _ where_ made) =
      subst (EarnedIn sent) (sym made) (as_sibling_by_relay m at p)
  Converted-Earned sent here m n kind o at out p i (from_sibling _ where_ made) =
      absurd (omega arith)
  Converted-Earned sent (sibling k) m n kind o at out p (level, js, e')
        (from_sibling {id = k'} _ where_ made) =
      let same : k' ≡ k = cc in
      subst (EarnedIn sent) (sym (made ∙ ap (λ i. sibling_parachain i) same)) (as_sibling m at p)
  Converted-Earned sent s m n kind o at out p (level, js, e') (from_account _ where_ made) =
      absurd (omega (arith, ap (λ l. l.parents) where_))
  Converted-Earned sent s m n kind o at out p i (passed _ made) =
      subst (EarnedIn sent) (sym made) (as_location s m at p i)

  -- Every call of a message that is served has an earned origin, if all calls before have.
  pub execute-Earned :
      (laws : ConverterLaws t c) (sent : History) (s : AggregateMessageOrigin) (m : Message)
      (w : World)
      → Memᴰ (s, m) sent
      → (sender t s).parents ≡ 1
      → All (EarnedIn sent) (dispatched w)
      → All (EarnedIn sent) (dispatched (e.execute (xcm_config t x r c b e id) (sender t s) m w))
  unfolding xcm_config
  execute-Earned laws sent s m w at out before = by_weight (weigher x b m) refl
    where
      g : Config t x Message e.Asset e.Call
      g = xcm_config t x r c b e id

      l : Location t
      l = sender t s

      same_calls :
          dispatched (e.execute g l m w) ≡ dispatched w
          → All (EarnedIn sent) (dispatched (e.execute g l m w))
      same_calls same = subst (All (EarnedIn sent)) (sym same) before

      more_calls : PassesAs s m → All (EarnedIn sent) (dispatched (e.execute g l m w))
      more_calls p =
          let (new, grown, why) = calls.executed g l m w in
          subst (All (EarnedIn sent)) (sym grown) (
            All-append (EarnedIn sent) new (dispatched w)
              (All-weaken _ (EarnedIn sent)
                (λ o (n, kind, way, made).
                  Converted-Earned sent s m n kind o at out p (Reaches-Inside s way)
                    (to_dispatch_origin-Converted t c laws n kind o made).0)
                new why)
              before)

      by_barrier :
          (v : x.Weight)
          → weigher x b m ≡ some v
          → (pass : Bool) → barrier t r id (e.request l m) ≡ pass
          → All (EarnedIn sent) (dispatched (e.execute g l m w))
      by_barrier v weight true h = more_calls (weigher-Passes s m v weight h)
      by_barrier v weight false h = same_calls (calls.refused g l m w h)

      by_weight :
          (v : Option x.Weight)
          → weigher x b m ≡ v
          → All (EarnedIn sent) (dispatched (e.execute g l m w))
      by_weight none h = same_calls (calls.unweighed g l m w h)
      by_weight (some v) h = by_barrier v h (barrier t r id (e.request l m)) refl
