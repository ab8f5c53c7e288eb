-- ===== src/Template/Calls.antt =====
-- Each call of the template pallet, on every origin and every stored value.
use mathlib.Core.Path.{subst}
use polkadot_confidential_of.Base.{
  ℕ, ◌+◌, ◌^◌, ◌≤◌, ◌<◌, ◌≡◌, refl, sym, inl, inr, Option, none, some, [], ◌∷◌, ◌++◌, Result, ok,
  err, Ended, returned, failed, arith, ltb, Bool-cases,
}
use polkadot_confidential_of.Frame.{CompositeStruct, something_stored, Frame, FrameLaws}
use polkadot_confidential_of.Frame.Stored.{after_lem}
use polkadot_confidential_of.Template.{
  none_value, storage_overflow, DispatchError, bad_origin, module_error, do_something, cause_error,
}

module _ (f : Frame) (bits : ℕ) where
  open f use {State, AccountId, Origin, BadOrigin, ensure_signed, get, put, deposit_event}

  abbrev pub Reply : Type 0
  Reply = Ended (DispatchError BadOrigin) (Unit {0}) × State

  -- What a call may do with the stored value: keep it and refuse, or replace it.
  pub data Outcome (origin : Origin) (s : State) : Reply → Type 0 where
    not_signed :
        {b : BadOrigin} → ensure_signed origin ≡ err b → Outcome origin s (failed (bad_origin b), s)
    no_value :
        {who : AccountId}
        → ensure_signed origin ≡ ok who
        → get s ≡ none
        → Outcome origin s (failed (module_error none_value), s)
    at_maximum :
        {who : AccountId} {old : CompositeStruct}
        → ensure_signed origin ≡ ok who
        → get s ≡ some old
        → 2 ^ bits ≤ old.block_number + 1
        → Outcome origin s (failed (module_error storage_overflow), s)
    incremented :
        {who : AccountId} {old : CompositeStruct}
        → ensure_signed origin ≡ ok who
        → get s ≡ some old
        → old.block_number + 1 < 2 ^ bits
        → Outcome origin s (returned tt, put (record { block_number = old.block_number + 1 }) s)

  -- cause_error refuses an unsigned origin, a missing value and the largest number, each with
  -- its own error and the state unchanged, and otherwise stores the next number.
  pub cause_error-Outcome :
      (origin : Origin) (s : State) → Outcome origin s (cause_error f bits origin s)
  unfolding cause_error
  cause_error-Outcome origin s = by_origin (ensure_signed origin) refl
    where
      ends :
          {r : Reply}
          → Outcome origin s r
          → cause_error f bits origin s ≡ r
          → Outcome origin s (cause_error f bits origin s)
      ends h e = subst (Outcome origin s) (sym e) h

      by_value :
          {who : AccountId}
          → ensure_signed origin ≡ ok who
          → (v : Option CompositeStruct) → get s ≡ v
          → Outcome origin s (cause_error f bits origin s)
      by_value e none g = ends (no_value e g) (ground arith)
      by_value e (some old) g = elim (Bool-cases (ltb (old.block_number + 1) (2 ^ bits))) [
        | inl fits ↦ ends (incremented e g (ground arith)) (ground arith)
        | inr full ↦ ends (at_maximum e g (ground arith)) (ground arith)
      ]

      by_origin :
          (r : Result AccountId BadOrigin)
          → ensure_signed origin ≡ r
          → Outcome origin s (cause_error f bits origin s)
      by_origin (ok who) e = by_value e (get s) refl
      by_origin (err b) e = ends (not_signed e) (ground arith)

  -- `do_something` of a signed origin.
  pub do_something_signed :
      (origin : Origin) (bn : ℕ) (s : State) {who : AccountId}
      → ensure_signed origin ≡ ok who
      → do_something f bits origin bn s ≡ (
        returned tt,
        deposit_event (something_stored bn who) (put (record { block_number = bn }) s),
      )
  unfolding do_something
  do_something_signed origin bn s e = ground arith

  pub do_something_unsigned :
      (origin : Origin) (bn : ℕ) (s : State) {b : BadOrigin}
      → ensure_signed origin ≡ err b
      → do_something f bits origin bn s ≡ (failed (bad_origin b), s)
  unfolding do_something
  do_something_unsigned origin bn s e = ground arith

  -- What the caller of `do_something` is promised, by what the origin is.
  abbrev pub Promised : FrameLaws f → ℕ → State → Result AccountId BadOrigin → Reply → Type 0
  Promised laws bn s (err b) (r, s') = (r ≡ failed (bad_origin b)) × (s' ≡ s)
  Promised laws bn s (ok who) (r, s') =
      (r ≡ returned tt)
      × (get s' ≡ some (record { block_number = bn }))
      × (laws.events s' ≡ laws.events s ++ something_stored bn who ∷ [])

  -- The do_something of the template pallet refuses an unsigned origin with the state unchanged;
  -- of a signed one it stores the argument and, after the genesis block, adds exactly one event.
  pub do_something-Promised :
      (laws : FrameLaws f) (origin : Origin) (bn : ℕ) (s : State)
      → 0 < laws.number s
      → Promised laws bn s (ensure_signed origin) (do_something f bits origin bn s)
  do_something-Promised laws origin bn s later = by_origin (ensure_signed origin) refl
    where
      by_origin :
          (r : Result AccountId BadOrigin)
          → ensure_signed origin ≡ r
          → Promised laws bn s r (do_something f bits origin bn s)
      by_origin (ok who) e =
          ground (arith, do_something_signed origin bn s e, after_lem f laws bn who s later)
      by_origin (err b) e = ground (arith, do_something_unsigned origin bn s e)
