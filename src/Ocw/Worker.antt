-- ===== src/Ocw/Worker.antt =====
-- A run of the offchain worker, for every state of the key store and every answer of the network.
use polkadot_confidential_of.Base.{
  ℕ, ◌-◌, ◌<◌, ◌≡◌, ◌∙◌, refl, sym, ap, String, Bool, Result, ok, err, List, [], ◌∷◌, ◌++◌,
  append_assoc, codes, none, some, Ended, returned, failed, panicked, arith, All,
}
use polkadot_confidential_of.Utf8.{Str, Bytes, IsScalar, as_bytes, from_utf8}
use polkadot_confidential_of.Utf8.RoundTrip.{from_utf8-as_bytes}
use polkadot_confidential_of.Offchain.{LogLine, Host}
use polkadot_confidential_of.Offchain.Laws.{StorageLaws, RequestLaws, LogLaws, NetworkLaws}
use polkadot_confidential_of.Offchain.ApiKey.{not_found_line, store_api_key}
use polkadot_confidential_of.Offchain.ApiKey.RoundTrip.{
  stored, fetch_missing, fetch_valid, fetch_invalid,
}
use polkadot_confidential_of.Offchain.Fetcher.{new, add_header, build, fetch_string}
use polkadot_confidential_of.Offchain.Fetcher.Requests.{build_lem, fetch_string-lines}
use polkadot_confidential_of.Ocw.{
  endpoint, ping_line, fetch_failed_line, key_line, worker_error_line, response_line, no_data_line,
  block_line, api_key_name, worker_request, log_block, with_key, offchain_worker,
}

-- The line that the worker writes for the result of its request.
abbrev pub report : Result Str String → LogLine
report (ok body) = response_line body
report (err e) = no_data_line e

module _ (h : Host) (checks : Bool) where
  open h use {World, Request, send, log, block_hash, debug_hash}

  log_block_lem :
      (n : ℕ) (w : World)
      → 0 < n
      → log_block h checks n w
        ≡ (returned tt, log (block_line n (debug_hash (block_hash (n - 1) w))) w)
  unfolding log_block
  log_block_lem n w later = ground arith

  -- How a request ends that does not panic.
  abbrev pub settled : Result Str String → Ended String Str
  settled (ok body) = returned body
  settled (err e) = failed e

  -- The world after the key has been logged, in which the request is made.
  abbrev pub announced : Str → World → World
  announced key w = log (key_line key) (log ping_line w)

  -- The world at the end of a run whose request ended with `r` in the world `w`.
  abbrev pub finished : ℕ → Result Str String → World → World
  finished n r w =
      let w' = log (report r) w in log (block_line n (debug_hash (block_hash (n - 1) w'))) w'

  with_key_lem :
      (n : ℕ) (key : Str) (w w' : World) (r : Result Str String)
      → 0 < n
      → fetch_string h (worker_request key) (log (key_line key) w) ≡ (settled r, w')
      → with_key h checks n key w ≡ (returned tt, finished n r w')
  unfolding with_key
  with_key_lem n key w w' (ok body) later e =
      ground (arith, log_block_lem n (log (response_line body) w') later)
  with_key_lem n key w w' (err m) later e =
      ground (arith, log_block_lem n (log (no_data_line m) w') later)

  module _ (laws : StorageLaws h) where
    -- With no key in the storage the worker makes no request: it writes exactly four log lines
    -- and ends normally.
    pub worker_without_key :
        (n : ℕ) (w : World)
        → stored h api_key_name w ≡ none
        → offchain_worker h checks n w ≡ (
          returned tt,
          log (worker_error_line "API key not found in offchain storage") (
              log
                (fetch_failed_line "Missing or invalid API key")
                (log not_found_line (log ping_line w))),
        )
    unfolding offchain_worker
    worker_without_key n w missing =
        let q =
          fetch_missing h api_key_name (log ping_line w) (laws.get_log _ ping_line w ∙ missing) in
        ground (arith, q)

    -- With a stored key that is text, in any block after the genesis and for every result of the
    -- request that is no panic, the worker ends normally; it has logged the key, the result or
    -- error of its one request, and the hash of the parent block.
    pub worker_with_key :
        (n : ℕ) (key : Str) (r : Result Str String) (w w' : World)
        → 0 < n
        → All IsScalar key
        → stored h api_key_name w ≡ some (as_bytes key)
        → fetch_string h (worker_request key) (announced key w) ≡ (settled r, w')
        → offchain_worker h checks n w ≡ (returned tt, finished n r w')
    unfolding offchain_worker
    worker_with_key n key r w w' later valid found e =
        let q =
          fetch_valid h api_key_name key (log ping_line w) (laws.get_log _ ping_line w ∙ found)
            (from_utf8-as_bytes key valid) in
        ground (arith, q, with_key_lem n key (log ping_line w) w' r later e)

    -- A worker that runs, in a block after the genesis, after a key that is text was stored
    -- makes its request with this key and ends normally, for every result of the request that is
    -- no panic.
    pub worker-store :
        (n : ℕ) (key : Str) (r : Result Str String) (w w' : World)
        → 0 < n
        → All IsScalar key
        → let w₁ = store_api_key h api_key_name key w in
          fetch_string h (worker_request key) (announced key w₁) ≡ (settled r, w')
          → offchain_worker h checks n w₁ ≡ (returned tt, finished n r w')
    unfolding store_api_key
    worker-store n key r w w' later valid e =
        worker_with_key n key r (store_api_key h api_key_name key w) w' later valid
          (laws.get_set _ _ w) e

    forbidden_request :
        (msg : String) (key : Str) (w : World)
        → ((q : Request) (v : World) → send q v ≡ (panicked msg, v))
        → fetch_string h (worker_request key) w ≡ (panicked msg, w)
    unfolding fetch_string
    forbidden_request msg key w forbidden =
        let q = forbidden (build h (worker_request key) w) w in ground (arith, q)

    -- On a host that forbids http requests, where sending one panics, the worker with a stored
    -- key that is text logs the key and then panics, in every block; it does not log the block.
    pub worker_forbidden :
        (n : ℕ) (key : Str) (msg : String) (w : World)
        → ((q : Request) (v : World) → send q v ≡ (panicked msg, v))
        → All IsScalar key
        → stored h api_key_name w ≡ some (as_bytes key)
        → offchain_worker h checks n w ≡ (panicked msg, announced key w)
    unfolding offchain_worker
    worker_forbidden n key msg w forbidden valid found =
        let q =
          fetch_valid h api_key_name key (log ping_line w) (laws.get_log _ ping_line w ∙ found)
            (from_utf8-as_bytes key valid) in
        let failed_request = forbidden_request msg key (announced key w) forbidden in
        ground (arith, q, failed_request)

    -- A stored key that is no UTF-8 makes the worker panic after its first log line.
    pub worker_invalid_key :
        (n : ℕ) (w : World) {bs : Bytes}
        → stored h api_key_name w ≡ some bs
        → from_utf8 bs ≡ none
        → offchain_worker h checks n w ≡ (panicked "Invalid UTF-8", log ping_line w)
    unfolding offchain_worker
    worker_invalid_key n w found bad =
        let q =
          fetch_invalid h api_key_name (log ping_line w) (laws.get_log _ ping_line w ∙ found) bad in
        ground (arith, q)

  -- The request of the worker goes to the fixed address and carries the stored key, with nothing
  -- before it, as the value of its one header.
  pub worker_request-headers :
      (laws : RequestLaws h) (key : Str) (w : World)
      → let sent = build h (worker_request key) w in
        (laws.url sent ≡ endpoint) × (laws.headers sent ≡ (codes "Authorization", key) ∷ [])
  unfolding worker_request new add_header
  worker_request-headers laws key w =
      let (at_url, with_headers, due) = build_lem h laws (worker_request key) w in
      (at_url, with_headers)

  module _ (logs : LogLaws h) (network : NetworkLaws h logs) where
    open logs use {lines}

    lines-finished :
        (n : ℕ) (r : Result Str String) (w : World) {before : List LogLine}
        → lines w ≡ before
        → lines (finished n r w)
          ≡ before
            ++ report r ∷ block_line n (debug_hash (block_hash (n - 1) (log (report r) w))) ∷ []
    lines-finished n r w e = simp (logs.log_lines, e, append_assoc)

    -- A run with a stored key that is text, in a block after the genesis and with no panic of
    -- its request, writes exactly four log lines, of which the second shows the key in clear, if
    -- the network leaves the log alone.
    pub worker_log :
        (laws : StorageLaws h) (n : ℕ) (key : Str) (r : Result Str String) (w w' : World)
        → 0 < n
        → All IsScalar key
        → stored h api_key_name w ≡ some (as_bytes key)
        → fetch_string h (worker_request key) (announced key w) ≡ (settled r, w')
        → lines (offchain_worker h checks n w).1
          ≡ lines w
            ++ ping_line
              ∷ key_line key
              ∷ report r
              ∷ block_line n (debug_hash (block_hash (n - 1) (log (report r) w')))
              ∷ []
    worker_log laws n key r w w' later valid found e =
        let run = worker_with_key laws n key r w w' later valid found e in
        let silent : lines w' ≡ lines (announced key w) =
          ap (λ x. lines x.1) (sym e)
          ∙ fetch_string-lines h logs network (worker_request key) (announced key w) in
        let before : lines (announced key w) ≡ (lines w ++ ping_line ∷ []) ++ key_line key ∷ [] =
          rw (logs.log_lines, logs.log_lines) refl in
        ap (λ x. lines x.1) run ∙ lines-finished n r w' (silent ∙ before) ∙ simp append_assoc
