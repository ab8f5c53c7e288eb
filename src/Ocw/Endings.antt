-- ===== src/Ocw/Endings.antt =====
-- All the ways in which a run of the offchain worker ends, at the genesis block too.
use mathlib.Core.Path.{subst}
use polkadot_confidential_of.Base.{
  ℕ, zero, suc, ◌-◌, ◌^◌, ◌≡◌, ◌∙◌, refl, sym, String, Bool, if◌then◌else◌, Result, ok, err, Option,
  none, some, Ended, returned, failed, panicked, arith,
}
use polkadot_confidential_of.Utf8.{Str, Bytes, from_utf8}
use polkadot_confidential_of.Offchain.{Host}
use polkadot_confidential_of.Offchain.Laws.{StorageLaws}
use polkadot_confidential_of.Offchain.ApiKey.{not_found_line}
use polkadot_confidential_of.Offchain.ApiKey.RoundTrip.{stored, fetch_valid}
use polkadot_confidential_of.Offchain.Fetcher.{fetch_string}
use polkadot_confidential_of.Ocw.{
  ping_line, fetch_failed_line, key_line, worker_error_line, response_line, no_data_line,
  block_line, api_key_name, worker_request, log_block, with_key, offchain_worker,
}
use polkadot_confidential_of.Ocw.Worker.{
  report, settled, announced, worker_without_key, worker_invalid_key,
}

module _ (h : Host) (checks : Bool) where
  open h use {World, log, block_hash, debug_hash}

  abbrev pub Reply : Type 0
  Reply = Ended ⊥ (Unit {0}) × World

  -- The end of a run: the hash of the parent block is logged. At the genesis block the number of the
  -- parent is below zero, a panic with overflow checks, and the largest `u32` without them.
  abbrev pub logged : ℕ → World → Reply
  logged zero w =
      if checks
      then (panicked "attempt to subtract with overflow", w)
      else (returned tt, log (block_line 0 (debug_hash (block_hash (2 ^ 32 - 1) w))) w)
  logged (suc n) w = (returned tt, log (block_line (suc n) (debug_hash (block_hash n w))) w)

  log_block-logged : (n : ℕ) (w : World) → log_block h checks n w ≡ logged n w
  unfolding log_block
  log_block-logged zero w = ground arith
  log_block-logged (suc n) w = ground arith

  abbrev pub unkeyed : World → World
  unkeyed w =
      log (worker_error_line "API key not found in offchain storage") (
        log (fetch_failed_line "Missing or invalid API key") (log not_found_line (log ping_line w)))

  -- The ways in which a run ends: without a key, with a key that is no text, with a panic of the
  -- request, or after the result of the request has been logged.
  pub data Ending (n : ℕ) (w : World) : Reply → Type 0 where
    no_key : stored h api_key_name w ≡ none → Ending n w (returned tt, unkeyed w)
    invalid_key :
        {bs : Bytes}
        → stored h api_key_name w ≡ some bs
        → from_utf8 bs ≡ none
        → Ending n w (panicked "Invalid UTF-8", log ping_line w)
    request_panicked :
        {bs : Bytes} {key : Str} {msg : String} {w' : World}
        → stored h api_key_name w ≡ some bs
        → from_utf8 bs ≡ some key
        → fetch_string h (worker_request key) (announced h checks key w) ≡ (panicked msg, w')
        → Ending n w (panicked msg, w')
    reported :
        {bs : Bytes} {key : Str} (r : Result Str String) {w' : World}
        → stored h api_key_name w ≡ some bs
        → from_utf8 bs ≡ some key
        → fetch_string h (worker_request key) (announced h checks key w) ≡ (settled h checks r, w')
        → Ending n w (logged n (log (report r) w'))

  module _ (laws : StorageLaws h) where
    keyed :
        (n : ℕ) (key : Str) (w : World) {bs : Bytes}
        → stored h api_key_name w ≡ some bs
        → from_utf8 bs ≡ some key
        → offchain_worker h checks n w ≡ with_key h checks n key (log ping_line w)
    unfolding offchain_worker
    keyed n key w found good =
        let q =
          fetch_valid h api_key_name key (log ping_line w) (laws.get_log _ ping_line w ∙ found)
            good in
        ground (arith, q)

    with_key-panicked :
        (n : ℕ) (key : Str) (msg : String) (w w' : World)
        → fetch_string h (worker_request key) (log (key_line key) w) ≡ (panicked msg, w')
        → with_key h checks n key w ≡ (panicked msg, w')
    unfolding with_key
    with_key-panicked n key msg w w' e = ground arith

    with_key-reported :
        (n : ℕ) (key : Str) (r : Result Str String) (w w' : World)
        → fetch_string h (worker_request key) (log (key_line key) w) ≡ (settled h checks r, w')
        → with_key h checks n key w ≡ logged n (log (report r) w')
    unfolding with_key
    with_key-reported n key (ok body) w w' e =
        ground (arith, log_block-logged n (log (response_line body) w'))
    with_key-reported n key (err m) w w' e =
        ground (arith, log_block-logged n (log (no_data_line m) w'))

    -- Every run of the worker, in every block and on every host whose persistent storage is a
    -- map, ends in one of four ways: without a key normally after four log lines, with a key
    -- that is no text in a panic after the first line, with a panic of its request in that
    -- panic, and else, once the result of the request is logged, with the line of the parent
    -- block; at the genesis block this is a panic with overflow checks, and the line of block
    -- 4294967295 without them.
    pub offchain_worker-Ending : (n : ℕ) (w : World) → Ending n w (offchain_worker h checks n w)
    offchain_worker-Ending n w = by_bytes (stored h api_key_name w) refl
      where
        goal : Type 0
        goal = Ending n w (offchain_worker h checks n w)

        ends : {r : Reply} → Ending n w r → offchain_worker h checks n w ≡ r → goal
        ends c e = subst (Ending n w) (sym e) c

        by_request :
            (bs : Bytes) (key : Str)
            → stored h api_key_name w ≡ some bs
            → from_utf8 bs ≡ some key
            → (r : Ended String Str) (w' : World)
            → fetch_string h (worker_request key) (announced h checks key w) ≡ (r, w')
            → goal
        by_request bs key found good (returned body) w' e =
            ends (reported (ok body) found good e)
              (keyed n key w found good ∙ with_key-reported n key (ok body) (log ping_line w) w' e)
        by_request bs key found good (failed m) w' e =
            ends (reported (err m) found good e)
              (keyed n key w found good ∙ with_key-reported n key (err m) (log ping_line w) w' e)
        by_request bs key found good (panicked msg) w' e =
            ends (request_panicked found good e)
              (keyed n key w found good ∙ with_key-panicked n key msg (log ping_line w) w' e)

        by_text :
            (bs : Bytes)
            → stored h api_key_name w ≡ some bs
            → (o : Option Str) → from_utf8 bs ≡ o
            → goal
        by_text bs found none bad =
            ends (invalid_key found bad) (worker_invalid_key h checks laws n w found bad)
        by_text bs found (some key) good = by_request bs key found good _ _ refl

        by_bytes : (o : Option Bytes) → stored h api_key_name w ≡ o → goal
        by_bytes none missing = ends (no_key missing) (worker_without_key h checks laws n w missing)
        by_bytes (some bs) found = by_text bs found (from_utf8 bs) refl
