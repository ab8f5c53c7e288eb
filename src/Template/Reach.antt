-- ===== src/Template/Reach.antt =====
-- The pallet beside the rest of the runtime: which states the stored number can reach.
use polkadot_confidential_of.Base.{ℕ, ◌≡◌, ◌≢◌, refl, none, some, Option, arith}
use polkadot_confidential_of.Frame.{Frame, FrameLaws}
use polkadot_confidential_of.Template.Counter.{
  Op, set, bump, dispatch, Fits, Valid, value, spec, dispatch-spec, spec-Fits,
}

module _ (f : Frame) (bits : ℕ) where
  open f use {State}

  -- A step of the chain: a call of the pallet, or anything that leaves the pallet's value alone.
  pub data Step (s : State) : State → Type 0 where
    call : (op : Op f bits) → Valid f bits op → Step s (dispatch f bits op s).1
    other : {s' : State} → value f bits s' ≡ value f bits s → Step s s'

  pub data Reach (s : State) : State → Type 0 where
    here : Reach s s
    next : {t u : State} → Reach s t → Step t u → Reach s u

  -- What a step keeps: the range of the number, and that there is one.
  abbrev pub Keeps : State → State → Type 0
  Keeps s t = Fits f bits (value f bits t) × (value f bits s ≢ none → value f bits t ≢ none)

  module _ (laws : FrameLaws f) where
    spec-ne-none : (op : Op f bits) (v : Option ℕ) → v ≢ none → spec f bits op v ≢ none
    spec-ne-none (set origin bn) v h = ground arith
    spec-ne-none (bump origin) none h = absurd (h refl)
    spec-ne-none (bump origin) (some n) h = cc

    Step-Keeps : (s : State) {t u : State} → Keeps s t → Step t u → Keeps s u
    Step-Keeps s {t} k (call op v) =
        let now = dispatch-spec f bits laws op t k.0 in
        (
          rw now (spec-Fits f bits laws op (value f bits t) v k.0),
          λ had. rw now (spec-ne-none op (value f bits t) (k.1 had)),
        )
    Step-Keeps s k (other same) = (rw same k.0, λ had. rw same (k.1 had))

    -- From a state whose number fits the block number type, in every state that calls and
    -- unrelated steps of the chain reach, the stored number fits its type, and a number that has
    -- been stored is never removed.
    pub Reach-Keeps : {s t : State} → Fits f bits (value f bits s) → Reach s t → Keeps s t
    Reach-Keeps h here = (h, λ had. had)
    Reach-Keeps h (next r st) = Step-Keeps _ (Reach-Keeps h r) st
