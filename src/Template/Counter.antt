-- ===== src/Template/Counter.antt =====
-- The stored number as a counter that stops at its largest value: an abstract specification of
-- the pallet, and that any sequence of calls implements it.
use polkadot_confidential_of.Base.{
  ℕ, zero, suc, ◌+◌, ◌-◌, ◌^◌, ◌<◌, ◌≡◌, ◌∙◌, refl, ap, Option, none, some, List, [], ◌∷◌, Result,
  ok, err, arith, Bool, true, false, if◌then◌else◌, min, replicate, All,
}
use polkadot_confidential_of.Frame.{CompositeStruct, something_stored, Frame, FrameLaws}
use polkadot_confidential_of.Template.{do_something, cause_error}
use polkadot_confidential_of.Template.Calls.{
  Reply, Outcome, not_signed, no_value, at_maximum, incremented, cause_error-Outcome,
  do_something_signed, do_something_unsigned,
}

abbrev pub number_of : Option CompositeStruct → Option ℕ
number_of none = none
number_of (some c) = some c.block_number

module _ (f : Frame) (bits : ℕ) where
  open f use {State, AccountId, Origin, BadOrigin, ensure_signed, get, put, deposit_event}

  -- The calls that the chain dispatches.
  pub data Op : Type 0 where
    set : Origin → ℕ → Op
    bump : Origin → Op

  abbrev pub dispatch : Op → State → Reply f bits
  dispatch (set origin bn) = do_something f bits origin bn
  dispatch (bump origin) = cause_error f bits origin

  pub run : List Op → State → State
  run [] s = s
  run (op ∷ ops) s = run ops (dispatch op s).1

  abbrev accepts : Result AccountId BadOrigin → Bool
  accepts (ok who) = true
  accepts (err b) = false

  abbrev largest : ℕ
  largest = 2 ^ bits - 1

  -- The specification: a signed `set` replaces the number, a signed `bump` adds one up to the
  -- largest value, and nothing else changes it.
  abbrev pub spec : Op → Option ℕ → Option ℕ
  spec (set origin bn) v = if accepts (ensure_signed origin) then some bn else v
  spec (bump origin) none = none
  spec (bump origin) (some n) =
      some (if accepts (ensure_signed origin) then min (n + 1) largest else n)

  abbrev pub spec_run : List Op → Option ℕ → Option ℕ
  spec_run [] v = v
  spec_run (op ∷ ops) v = spec_run ops (spec op v)

  abbrev pub Fits : Option ℕ → Type 0
  Fits none = Unit
  Fits (some n) = n < 2 ^ bits

  -- The argument of a `set` is a block number.
  abbrev pub Valid : Op → Type 0
  Valid (set origin bn) = bn < 2 ^ bits
  Valid (bump origin) = Unit

  abbrev pub value : State → Option ℕ
  value s = number_of (get s)

  module _ (laws : FrameLaws f) where
    bump-spec :
        (origin : Origin) (s : State) {r : Reply f bits}
        → Fits (value s)
        → Outcome f bits origin s r
        → value r.1 ≡ spec (bump origin) (value s)
    bump-spec origin s h (not_signed e) = ground arith
    bump-spec origin s h (no_value e g) = ground arith
    bump-spec origin s h (at_maximum e g m) = ground arith
    bump-spec origin s h (incremented {old} e g m) =
        ground (arith, laws.get_put (record { block_number = old.block_number + 1 }) s)

    -- One call changes the number as the specification says.
    pub dispatch-spec :
        (op : Op) (s : State) → Fits (value s) → value (dispatch op s).1 ≡ spec op (value s)
    dispatch-spec (set origin bn) s h = by_origin (ensure_signed origin) refl
      where
        by_origin :
            (r : Result AccountId BadOrigin)
            → ensure_signed origin ≡ r
            → value (do_something f bits origin bn s).1
              ≡ (if accepts (ensure_signed origin) then some bn else value s)
        by_origin (ok who) e = ground (
          arith,
          do_something_signed f bits origin bn s e,
          laws.get_deposit (something_stored bn who) (put (record { block_number = bn }) s),
          laws.get_put (record { block_number = bn }) s,
        )
        by_origin (err b) e = ground (arith, do_something_unsigned f bits origin bn s e)
    dispatch-spec (bump origin) s h = bump-spec origin s h (cause_error-Outcome f bits origin s)

    pub spec-Fits : (op : Op) (v : Option ℕ) → Valid op → Fits v → Fits (spec op v)
    spec-Fits (set origin bn) v ok_bn h = ground arith
    spec-Fits (bump origin) none _ h = tt
    spec-Fits (bump origin) (some n) _ h = ground arith

    -- From a number and with arguments that fit the block number type, any sequence of calls of
    -- the template pallet, by signed and unsigned origins, changes the stored number as an
    -- abstract counter does that stops at the largest block number, and the number keeps fitting
    -- its type.
    pub run-spec_run :
        (ops : List Op) (s : State)
        → All Valid ops
        → Fits (value s)
        → (value (run ops s) ≡ spec_run ops (value s)) × Fits (value (run ops s))
    unfolding run
    run-spec_run [] s v h = (refl, h)
    run-spec_run (op ∷ ops) s v h =
        let now = dispatch-spec op s h in
        let fits : Fits (value (dispatch op s).1) = rw now (spec-Fits op (value s) v.0 h) in
        let (same, kept) = run-spec_run ops (dispatch op s).1 v.1 fits in
        (same ∙ ap (spec_run ops) now, kept)

    spec_run-bumps :
        (k : ℕ) (origin : Origin) (n : ℕ) {who : AccountId}
        → ensure_signed origin ≡ ok who
        → n < 2 ^ bits
        → spec_run (replicate k (bump origin)) (some n) ≡ some (min (n + k) largest)
    spec_run-bumps zero origin n e h = ground arith
    spec_run-bumps (suc k) origin n e h =
        let ih = spec_run-bumps k origin (min (n + 1) largest) e (ground arith) in
        let now : spec (bump origin) (some n) ≡ some (min (n + 1) largest) = ground arith in
        ap (spec_run (replicate k (bump origin))) now ∙ ih ∙ ap some (omega arith)

    spec_set :
        (origin : Origin) (b : ℕ) (v : Option ℕ) {who : AccountId}
        → ensure_signed origin ≡ ok who
        → spec (set origin b) v ≡ some b
    spec_set origin b v e = ground arith

    replicate-Valid : (k : ℕ) (origin : Origin) → All Valid (replicate k (bump origin))
    replicate-Valid zero origin = tt
    replicate-Valid (suc k) origin = (tt, replicate-Valid k origin)

    -- After a signed do_something with b and k signed calls of cause_error the stored number is
    -- the lesser of b + k and the largest block number; it never wraps round.
    pub run-bumps :
        (k : ℕ) (origin : Origin) (b : ℕ) (s : State) {who : AccountId}
        → ensure_signed origin ≡ ok who
        → b < 2 ^ bits
        → Fits (value s)
        → value (run (set origin b ∷ replicate k (bump origin)) s) ≡ some (min (b + k) largest)
    run-bumps k origin b s e hb h =
        let ops = replicate k (bump origin) in
        (run-spec_run (set origin b ∷ ops) s (hb, replicate-Valid k origin) h).0
        ∙ ap (spec_run ops) (spec_set origin b (value s) e)
        ∙ spec_run-bumps k origin b e hb
