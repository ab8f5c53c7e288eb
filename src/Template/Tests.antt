-- ===== src/Template/Tests.antt =====
-- The theorems on the template pallet at concrete inputs, among them those of
-- pallets/template/src/tests.rs, whose block numbers have 64 bits.
use polkadot_confidential_of.Base.{ℕ, ◌≡◌, refl, none, some, List, [], ◌∷◌, returned, failed, arith}
use polkadot_confidential_of.Frame.{something_stored}
use polkadot_confidential_of.Frame.Memory.{root, unsigned, signed, Chain, memory_frame, memory_laws}
use polkadot_confidential_of.Template.{
  none_value, storage_overflow, module_error, do_something, cause_error,
}
use polkadot_confidential_of.Template.Calls.{Outcome, cause_error-Outcome}
use polkadot_confidential_of.Template.Counter.{
  Op, set, bump, run, spec_run, value, Fits, run-spec_run,
}
use polkadot_confidential_of.Template.Reach.{Reach, here, next, call, Keeps, Reach-Keeps}

abbrev empty : Chain
empty = record { something = none; events = []; number = 1 }

abbrev holding : ℕ → Chain
holding n = record empty { something = some (record { block_number = n }) }

it_works_for_default_value :
    do_something memory_frame 64 (signed 1) 42 empty
    ≡ (returned tt, record (holding 42) { events = something_stored 42 1 ∷ [] })
unfolding do_something
it_works_for_default_value = refl

correct_error_for_none_value :
    cause_error memory_frame 64 (signed 1) empty ≡ (failed (module_error none_value), empty)
unfolding cause_error
correct_error_for_none_value = refl

overflows :
    (cause_error memory_frame 32 (signed 1) (holding 4294967295)).0
    ≡ failed (module_error storage_overflow)
unfolding cause_error
overflows = refl

cause_error-Outcome_example :
    Outcome memory_frame 32
      (signed 1)
      (holding 7)
      (cause_error memory_frame 32 (signed 1) (holding 7))
cause_error-Outcome_example = cause_error-Outcome memory_frame 32 (signed 1) (holding 7)

abbrev calls : List (Op memory_frame 32)
calls =
    bump (signed 3) ∷ set root 9 ∷ bump unsigned ∷ set (signed 4) 4294967295 ∷ bump (signed 3) ∷ []

run-spec_run_example :
    (value memory_frame 32 (run memory_frame 32 calls (holding 7))
      ≡ spec_run memory_frame 32 calls (some 7))
    × Fits memory_frame 32 (value memory_frame 32 (run memory_frame 32 calls (holding 7)))
run-spec_run_example =
    run-spec_run memory_frame 32 memory_laws calls (holding 7) (omega arith) (omega arith)

abbrev later : Chain
later = (do_something memory_frame 32 (signed 1) 5 empty).1

path : Reach memory_frame 32 empty later
path = next here (call (set (signed 1) 5) (omega arith))

Reach-Keeps_example : Keeps memory_frame 32 empty later
Reach-Keeps_example = Reach-Keeps memory_frame 32 memory_laws tt path
