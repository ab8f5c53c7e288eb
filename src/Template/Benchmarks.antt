-- ===== src/Template/Benchmarks.antt =====
-- pallets/template/src/benchmarking.rs: the benchmarks of both calls, with what they assert about
-- the stored value. The account that they call from is FRAME's: it is the parameter `Setup`.
use polkadot_confidential_of.Base.{
  ℕ, ◌^◌, ◌<◌, ◌≡◌, ◌==◌, Option, none, some, ok, returned, modify, pure, panic, ◌>>◌, arith,
  if◌then◌else◌,
}
use polkadot_confidential_of.Frame.{CompositeStruct, something_stored, Frame, FrameLaws}
use polkadot_confidential_of.Template.{do_something, cause_error, increment, Call}
use polkadot_confidential_of.Template.Calls.{do_something_signed}

module _ (f : Frame) (bits : ℕ) where
  open f use {State, AccountId, Origin, get, put, deposit_event}

  pub record Setup : Type 0 where
    pub whitelisted_caller : AccountId
    pub signed : AccountId → Origin  -- `RawOrigin::Signed`

  -- `assert_eq!(Something::<T>::get().map(|v| v.block_number), Some(n))`
  assert_stored : ℕ → Option CompositeStruct → Call f bits (Unit {0})
  assert_stored n none = panic "assertion `left == right` failed"
  assert_stored n (some v) =
      if v.block_number == n then pure tt else panic "assertion `left == right` failed"

  module _ (setup : Setup) where
    unfoldable pub benchmark_do_something : Call f bits (Unit {0})
    unfolding assert_stored
    benchmark_do_something = do
      do_something f bits (setup.signed setup.whitelisted_caller) 100
      λ s. assert_stored 100 (get s) s

    unfoldable pub benchmark_cause_error : Call f bits (Unit {0})
    unfolding assert_stored
    benchmark_cause_error = do
      modify (put (record { block_number = 100 }))
      cause_error f bits (setup.signed setup.whitelisted_caller)
      λ s. assert_stored 101 (get s) s

    -- From every state, both benchmarks end normally, which is to say that their assertions hold,
    -- if block numbers go beyond 101 and the signed origin is that of the caller; the
    -- first adds the event of the call, the second leaves 101 stored and adds none.
    pub benchmarks_lem :
        (laws : FrameLaws f)
        → 101 < 2 ^ bits
        → f.ensure_signed (setup.signed setup.whitelisted_caller) ≡ ok setup.whitelisted_caller
        → (s : State)
        → (benchmark_do_something s ≡ (
          returned tt,
          deposit_event
              (something_stored 100 setup.whitelisted_caller)
              (put (record { block_number = 100 }) s),
        ))
          × (benchmark_cause_error s ≡ (
            returned tt,
            put (record { block_number = 101 }) (put (record { block_number = 100 }) s),
          ))
    unfolding benchmark_do_something benchmark_cause_error cause_error increment assert_stored
    benchmarks_lem laws wide e s =
        let who = setup.whitelisted_caller in
        let origin = setup.signed who in
        let held = laws.get_put (record { block_number = 100 }) s in
        let kept =
          laws.get_deposit (something_stored 100 who) (put (record { block_number = 100 }) s) in
        let held' =
          laws.get_put (record { block_number = 101 }) (put (record { block_number = 100 }) s) in
        (ground (arith, do_something_signed f bits origin 100 s e, held, kept), ground arith)
