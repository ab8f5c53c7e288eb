-- ===== src/Runtime/Messages/QueueMemory.antt =====
-- Queues that are one list, which show that the assumptions about them can be met.
use mathlib.Core.List.{Memᴰ}
use mathlib.Core.List.Memᴰ
use mathlib.Core.Path.{subst}
use polkadot_confidential_of.Base.{
  ℕ, ◌≡◌, ◌⊎◌, refl, inl, inr, Bool, true, false, ◌==◌, Option, none, some, List, [], ◌∷◌, arith,
  if◌then◌else◌, Bool-cases,
}
use polkadot_confidential_of.Runtime.Fees.Memory.{pair_weights}
use polkadot_confidential_of.Runtime.Xcm.{Location}
use polkadot_confidential_of.Runtime.Xcm.RouteMemory.{plain_senders}
use polkadot_confidential_of.Runtime.Xcm.Memory.{
  numbers, plain_rules, plain_rules-RuleLaws, plain_converters, counted,
}
use polkadot_confidential_of.Runtime.Messages.{
  AggregateMessageOrigin, sender, here, parent, sibling, Queues,
}
use polkadot_confidential_of.Runtime.Messages.Incoming.{QueueLaws}
use polkadot_confidential_of.Runtime.Messages.Memory.{
  Sized, Chain, one_call, one_call_laws, gated_waiting,
}

abbrev pub same : AggregateMessageOrigin → AggregateMessageOrigin → Bool
same here here = true
same here parent = false
same here (sibling k) = false
same parent here = false
same parent parent = true
same parent (sibling k) = false
same (sibling j) here = false
same (sibling j) parent = false
same (sibling j) (sibling k) = j == k

same_lem : (o s : AggregateMessageOrigin) → same o s ≡ true → o ≡ s
same_lem here here h = refl
same_lem here parent h = cc
same_lem here (sibling k) h = cc
same_lem parent here h = cc
same_lem parent parent h = refl
same_lem parent (sibling k) h = cc
same_lem (sibling j) here h = cc
same_lem (sibling j) parent h = cc
same_lem (sibling j) (sibling k) h = ground arith

abbrev pub select : AggregateMessageOrigin → List (AggregateMessageOrigin × Sized) → List Sized
select o [] = []
select o ((s, m) ∷ ws) = if same o s then m ∷ select o ws else select o ws

abbrev pub drop_first :
    AggregateMessageOrigin
    → List (AggregateMessageOrigin × Sized)
    → List (AggregateMessageOrigin × Sized)
drop_first o [] = []
drop_first o ((s, m) ∷ ws) = if same o s then ws else (s, m) ∷ drop_first o ws

abbrev pub narrow : (ℕ → Chain → Bool) → AggregateMessageOrigin → Chain → Bool
narrow paused here w = false
narrow paused parent w = false
narrow paused (sibling k) w = paused k w

-- What pallet-xcm does with a message, for the location of the origin.
abbrev pub run_if :
    (Location numbers × Sized → Bool)
    → (Location numbers → Sized → Chain → Chain)
    → Option (Location numbers)
    → Sized
    → Chain
    → Chain
run_if filter run none m w = w
run_if filter run (some l) m w = if filter (l, m) then run l m w else w

pub run_if-filtered :
    (filter : Location numbers × Sized → Bool) (run : Location numbers → Sized → Chain → Chain)
    (o : Option (Location numbers)) (m : Sized) (w : Chain)
    → ((l : Location numbers) → filter (l, m) ≡ false)
    → run_if filter run o m w ≡ w
run_if-filtered filter run none m w h = refl
run_if-filtered filter run (some l) m w h = rw (h l)

abbrev pub one_list : Queues numbers Chain Sized
one_list = record {
  enqueue_message = λ m o w. record w { waiting = (o, m) ∷ w.waiting };
  enqueue_with_origin = λ h o m w. h m o w;
  transform_origin = λ h f m k w. h m (f k) w;
  para_id_to_sibling = λ k. sibling k;
  is_paused = λ k w. false;
  narrow_origin_to_sibling = narrow;
  process_xcm_message = λ run m o w. run (sender numbers o) m w;
  take = λ m o w. record w { waiting = drop_first o w.waiting };
  senders = plain_senders;
  execute = λ ensure filter run o m w. run_if filter run (ensure o) m w;
}

pub select-cons :
    (m' m : Sized) (o s : AggregateMessageOrigin) (ws : List (AggregateMessageOrigin × Sized))
    → Memᴰ m' (select o ((s, m) ∷ ws))
    → Memᴰ m' (select o ws) ⊎ ((m' ≡ m) × (o ≡ s))
select-cons m' m o s ws at = elim (Bool-cases (same o s)) [
  | inl yes_ ↦ elim (Memᴰ.cases_cons (rw yes_ at at)) [
    | inl e ↦ inr (e, same_lem o s yes_)
    | inr rest ↦ inl rest
  ]
  | inr no_ ↦ inl (rw no_ at at)
]

select-tail :
    (m' m : Sized) (o s : AggregateMessageOrigin) (ws : List (AggregateMessageOrigin × Sized))
    → Memᴰ m' (select o ws)
    → Memᴰ m' (select o ((s, m) ∷ ws))
select-tail m' m o s ws at = elim (Bool-cases (same o s)) [
  | inl mine ↦ rw mine (Memᴰ.tail at)
  | inr other ↦ rw other at
]

pub select-drop_first :
    (m' : Sized) (o s : AggregateMessageOrigin) (ws : List (AggregateMessageOrigin × Sized))
    → Memᴰ m' (select o (drop_first s ws))
    → Memᴰ m' (select o ws)
select-drop_first m' o s [] at = at
select-drop_first m' o s ((k, m) ∷ ws) at =
    let below = λ (h : Memᴰ m' (select o (drop_first s ws))). select-drop_first m' o s ws h in
    elim (Bool-cases (same s k)) [
      | inl drops ↦ select-tail m' m o k ws (rw drops at at)
      | inr keeps ↦ elim (Bool-cases (same o k)) [
        | inl mine ↦ rw mine (elim (Memᴰ.cases_cons (rw (keeps, mine) at at)) [
          | inl e ↦ Memᴰ.head e
          | inr rest ↦ Memᴰ.tail (below rest)
        ])
        | inr other ↦ rw other (below (rw (keeps, other) at at))
      ]
    ]

abbrev pub one_list_laws :
    QueueLaws numbers pair_weights plain_rules plain_converters counted one_call one_list
      plain_rules-RuleLaws one_call_laws
one_list_laws = record {
  queued = λ o w. select o w.waiting;
  enqueued = λ m m' o o' w at. select-cons m' m o' o w.waiting at;
  enqueue_dispatched = λ m o w. refl;
  taken = λ m m' o o' w at. select-drop_first m' o' o w.waiting at;
  take_dispatched = λ m o w. refl;
  execute_queued =
      λ id l m m' o w at. subst (λ ws. Memᴰ m' (select o ws)) (gated_waiting _ _ _ w) at;
  with_origin = λ h o m w. refl;
  transformed = λ h f m k w. refl;
  sibling_of = λ k. refl;
  processed = λ run m o w. refl;
  filtered = λ ensure filter run o m w h. run_if-filtered filter run (ensure o) m w h;
}
