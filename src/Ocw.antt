-- ===== src/Ocw.antt =====
-- pallets/offchain-worker/src/lib.rs: the offchain worker's pallet.
pub mod Worker
pub mod Calls
pub mod Endings
pub mod History
mod Tests
use polkadot_confidential_of.Base.{
  ℕ, ◌+◌, ◌-◌, ◌^◌, ◌%◌, String, Bool, Result, ok, err, some, [], ◌∷◌, codes, leb, if◌then◌else◌,
  Exec, pure, fail, panic, attempt, map_err, from_result, modify, ◌>>=◌, ◌>>◌,
}
use polkadot_confidential_of.Utf8.{Str}
use polkadot_confidential_of.Offchain.{
  LogLine, log_line, error, info, debug, trace, Arg, text, message, number, Host,
}
use polkadot_confidential_of.Offchain.ApiKey.{fetch_api_key_for_request}
use polkadot_confidential_of.Offchain.Fetcher.{HttpRequest, new, add_header, fetch_string}
use polkadot_confidential_of.Frame.{something_stored, Frame}

-- `do_something`, which is the template's; the pallet's own `Error` has no constructor, so the
-- only error is that of `ensure_signed`.
module _ (f : Frame) where
  open f use {State, AccountId, Origin, BadOrigin, put, deposit_event}

  unfoldable pub do_something : Origin → ℕ → Exec State BadOrigin (Unit {0})
  do_something origin bn = do
    who ← from_result (f.ensure_signed origin)
    modify (put (record { block_number = bn }))
    modify (deposit_event (something_stored bn who))

-- A `-` on `u32`. With overflow checks a result below zero is a panic, without them it wraps.
unfoldable pub sub_u32 : {W E : Type 0} → Bool → ℕ → ℕ → Exec W E ℕ
sub_u32 checks a b =
    if leb b a
    then pure (a - b)
    else if checks
    then panic "attempt to subtract with overflow"
    else pure ((a + 2 ^ 32 - b) % 2 ^ 32)

abbrev pub endpoint : Str
endpoint = codes "https://postman-echo.com/basic-auth"

abbrev pub ping_line : LogLine
ping_line = record (log_line trace "Ping from offchain workers!" []) { target = some "logger" }

abbrev pub fetch_failed_line : String → LogLine
fetch_failed_line e = log_line error "Failed to fetch API key: {:?}" (message e ∷ [])

abbrev pub key_line : Str → LogLine
key_line api_key = log_line info "API key retrieved: {}" (text api_key ∷ [])

abbrev pub worker_error_line : String → LogLine
worker_error_line e = log_line error "Offchain worker error: {:?}" (message e ∷ [])

abbrev pub response_line : Str → LogLine
response_line response = log_line info "Response: {}" (text response ∷ [])

abbrev pub no_data_line : String → LogLine
no_data_line e = log_line error "Failed to fetch data: {:?}" (message e ∷ [])

abbrev pub block_line : ℕ → Str → LogLine
block_line n hash =
    log_line debug "Current block: {:?} (parent hash: {:?})" (number n ∷ text hash ∷ [])

abbrev pub api_key_name : Str
api_key_name = codes "api_key"

-- The request that the worker makes with a key.
unfoldable pub worker_request : Str → HttpRequest
worker_request api_key = add_header (new endpoint) (codes "Authorization") api_key

-- `checks` says whether the build has overflow checks.
module _ (h : Host) (checks : Bool) where
  open h use {World, log, block_hash, debug_hash}

  unfoldable pub get_api_key : Exec World String Str
  get_api_key = do
    found ← attempt (fetch_api_key_for_request h api_key_name)
    elim found [
      | ok key ↦ pure key
      | err e ↦ modify (log (fetch_failed_line e)) >> fail "API key not found in offchain storage"
    ]

  -- The end of the worker: the hash of the parent block is logged.
  log_block : ℕ → Exec World ⊥ (Unit {0})
  unfolding sub_u32
  log_block block_number = do
    parent ← sub_u32 checks block_number 1
    λ w. modify (log (block_line block_number (debug_hash (block_hash parent w)))) w

  -- The worker after it has its key.
  with_key : ℕ → Str → Exec World ⊥ (Unit {0})
  unfolding log_block
  with_key block_number api_key = do
    modify (log (key_line api_key))
    response ← attempt (fetch_string h (worker_request api_key))
    elim response [
      | ok body ↦ modify (log (response_line body))
      | err e ↦ modify (log (no_data_line e))
    ]
    log_block block_number

  -- The hook: it returns nothing, so no error can leave it.
  unfoldable pub offchain_worker : ℕ → Exec World ⊥ (Unit {0})
  unfolding get_api_key with_key
  offchain_worker block_number = do
    modify (log ping_line)
    found ← attempt get_api_key
    elim found [
      | ok api_key ↦ with_key block_number api_key
      | err e ↦ modify (log (worker_error_line e))
    ]
