-- ===== src/Ocw/Calls.antt =====
-- The dispatchable of pallets/offchain-worker/src/lib.rs.
use polkadot_confidential_of.Base.{
  ℕ, ◌≡◌, ◌<◌, refl, some, [], ◌∷◌, ◌++◌, ok, err, returned, failed, arith, Result, Ended,
}
use polkadot_confidential_of.Frame.{something_stored, Frame, FrameLaws}
use polkadot_confidential_of.Frame.Stored.{after_lem}
use polkadot_confidential_of.Ocw.{do_something}

module _ (f : Frame) where
  open f use {State, AccountId, Origin, BadOrigin, ensure_signed, get, put, deposit_event}

  -- What the caller of `do_something` is promised, by what the origin is.
  abbrev pub Recorded :
      FrameLaws f
      → ℕ
      → State
      → Result AccountId BadOrigin
      → Ended BadOrigin (Unit {0}) × State
      → Type 0
  Recorded laws bn s (err b) (r, s') = (r ≡ failed b) × (s' ≡ s)
  Recorded laws bn s (ok who) (r, s') =
      (r ≡ returned tt)
      × (get s' ≡ some (record { block_number = bn }))
      × (laws.events s' ≡ laws.events s ++ something_stored bn who ∷ [])

  pub accepted :
      (origin : Origin) (bn : ℕ) (s : State) {who : AccountId}
      → ensure_signed origin ≡ ok who
      → do_something f origin bn s ≡ (
        returned tt,
        deposit_event (something_stored bn who) (put (record { block_number = bn }) s),
      )
  unfolding do_something
  accepted origin bn s e = ground arith

  pub refused :
      (origin : Origin) (bn : ℕ) (s : State) {b : BadOrigin}
      → ensure_signed origin ≡ err b
      → do_something f origin bn s ≡ (failed b, s)
  unfolding do_something
  refused origin bn s e = ground arith

  -- The do_something of the offchain worker pallet refuses an unsigned origin with the state
  -- unchanged; of a signed one it stores the argument and, after the genesis block, adds exactly
  -- one event.
  pub do_something-Recorded :
      (laws : FrameLaws f) (origin : Origin) (bn : ℕ) (s : State)
      → 0 < laws.number s
      → Recorded laws bn s (ensure_signed origin) (do_something f origin bn s)
  do_something-Recorded laws origin bn s later = by_origin (ensure_signed origin) refl
    where
      by_origin :
          (r : Result AccountId BadOrigin)
          → ensure_signed origin ≡ r
          → Recorded laws bn s r (do_something f origin bn s)
      by_origin (ok who) e = ground (arith, accepted origin bn s e, after_lem f laws bn who s later)
      by_origin (err b) e = ground (arith, refused origin bn s e)
