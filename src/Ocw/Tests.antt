-- ===== src/Ocw/Tests.antt =====
-- Runs of the worker on a host in memory, and the theorems at concrete inputs.
use polkadot_confidential_of.Base.{
  List, map, ◌≡◌, refl, none, some, [], ◌∷◌, returned, panicked, All, arith, codes, true, false, ok,
}
use native.Mathlib.Decide.{ℕ_discrete}
use polkadot_confidential_of.Utf8.{Str, IsScalar, as_bytes, from_utf8}
use polkadot_confidential_of.Offchain.{Host}
use polkadot_confidential_of.Offchain.Laws.{StorageLaws}
use polkadot_confidential_of.Offchain.ApiKey.{
  store_api_key, not_found_line, fetch_api_key_for_request,
}
use polkadot_confidential_of.Offchain.Fetcher.{build, fetch_string, new, add_header}
use polkadot_confidential_of.Offchain.Memory.{
  Memory, silent, answer, memory_host, memory_storage, memory_requests, memory_log, memory_network,
  memory_traffic, Bytes-discrete,
}
use polkadot_confidential_of.Ocw.{
  endpoint, ping_line, fetch_failed_line, key_line, worker_error_line, response_line, no_data_line,
  block_line, offchain_worker, worker_request,
}
use polkadot_confidential_of.Ocw.History.{
  Op, store_key, block, View, Carries, happen, history, history-Carries,
}
use polkadot_confidential_of.Ocw.Endings.{Ending, offchain_worker-Ending}
use polkadot_confidential_of.Ocw.Worker.{
  announced, worker_forbidden, worker_request-headers, worker_log,
}

abbrev empty : Memory
empty = record { store = λ k. none; lines = []; sent = []; reply = silent; now = 0 }

abbrev key : Str
key = codes "my_secret_api_key_12345"

abbrev answering : Memory
answering = record empty { store = λ k. some (as_bytes key); reply = answer 200 (codes "ok") }

abbrev refusing : Memory
refusing = record empty { store = λ k. some (as_bytes key); reply = answer 401 [] }

abbrev with_garbage : Memory
with_garbage = record empty { store = λ k. some (0xFF ∷ []) }

key-IsScalar : All IsScalar key
key-IsScalar = ground arith

without_key_runs :
    (offchain_worker memory_host true 7 empty).1.lines
    ≡ ping_line
      ∷ not_found_line
      ∷ fetch_failed_line "Missing or invalid API key"
      ∷ worker_error_line "API key not found in offchain storage"
      ∷ []
unfolding offchain_worker fetch_api_key_for_request
without_key_runs = refl

refused_runs :
    (offchain_worker memory_host true 7 refusing).1.lines
    ≡ ping_line
      ∷ key_line key
      ∷ no_data_line "Non-200 response code received"
      ∷ block_line 7 (6 ∷ [])
      ∷ []
unfolding offchain_worker fetch_api_key_for_request fetch_string as_bytes from_utf8
refused_runs = refl

-- At the genesis block the subtraction of one is below zero.
genesis_runs :
    ((offchain_worker memory_host true 0 answering).0
      ≡ panicked "attempt to subtract with overflow")
    × ((offchain_worker memory_host false 0 answering).1.lines
        ≡ ping_line
          ∷ key_line key
          ∷ response_line (codes "ok")
          ∷ block_line 0 (4294967295 ∷ [])
          ∷ [])
unfolding offchain_worker fetch_api_key_for_request fetch_string as_bytes from_utf8
genesis_runs = (refl, refl)

abbrev after_request : Memory
after_request =
    (fetch_string memory_host (worker_request key) (announced memory_host true key answering)).1

fetch_string_answers :
    fetch_string memory_host (worker_request key) (announced memory_host true key answering)
    ≡ (returned (codes "ok"), after_request)
unfolding fetch_string from_utf8 as_bytes
fetch_string_answers = refl

offchain_worker-Ending_example :
    Ending memory_host true 0 with_garbage (offchain_worker memory_host true 0 with_garbage)
offchain_worker-Ending_example =
    offchain_worker-Ending memory_host true memory_storage 0 with_garbage

garbage_runs : (offchain_worker memory_host true 7 with_garbage).0 ≡ panicked "Invalid UTF-8"
unfolding offchain_worker fetch_api_key_for_request from_utf8
garbage_runs = refl

worker_request-headers_example :
    ((build memory_host (worker_request key) answering).url ≡ endpoint)
    × ((build memory_host (worker_request key) answering).headers
        ≡ (codes "Authorization", key) ∷ [])
worker_request-headers_example =
    worker_request-headers memory_host true memory_requests key answering

worker_log_example :
    (offchain_worker memory_host true 7 answering).1.lines
    ≡ ping_line ∷ key_line key ∷ response_line (codes "ok") ∷ block_line 7 (6 ∷ []) ∷ []
worker_log_example =
    worker_log memory_host true memory_log memory_network memory_storage 7 key (ok (codes "ok"))
      answering after_request (omega arith) key-IsScalar refl fetch_string_answers

-- The host of a node whose workers may not make http requests: sending one panics.
abbrev offline_host : Host
offline_host = record memory_host {
  send =
      λ r m. (panicked "Attempting to call a forbidden API in this context: http_request_start", m);
}

offline_storage : StorageLaws offline_host
offline_storage = record {
  get_set = memory_storage.get_set;
  get_set_ne = memory_storage.get_set_ne;
  get_log = memory_storage.get_log;
}

worker_forbidden_example : offchain_worker offline_host true 7 answering ≡ (
  panicked "Attempting to call a forbidden API in this context: http_request_start",
  announced offline_host true key answering,
)
worker_forbidden_example =
    worker_forbidden offline_host true offline_storage 7 key
      "Attempting to call a forbidden API in this context: http_request_start" answering
      (λ q v. refl) key-IsScalar refl

-- The worker runs without a key, then a key is stored, and it runs twice more.
abbrev ops : List Op
ops = block 6 ∷ store_key key ∷ block 7 ∷ block 8 ∷ []

asks_twice :
    (history memory_host true ops (record empty { reply = answer 200 (codes "ok") })).sent
    ≡ record { url = endpoint; headers = (codes "Authorization", key) ∷ []; due = some 2000 }
      ∷ record { url = endpoint; headers = (codes "Authorization", key) ∷ []; due = some 2000 }
      ∷ []
unfolding history happen offchain_worker store_api_key fetch_api_key_for_request fetch_string
    as_bytes from_utf8 Bytes-discrete worker_request new add_header ℕ_discrete
asks_twice = refl

history-Carries_example :
    (vs : List View) × (map (λ r. (r.url, r.headers)) (history memory_host true ops empty).sent
      ≡ vs)
    × Carries none ops vs
history-Carries_example =
    history-Carries memory_host true memory_storage memory_requests memory_traffic ops none empty
      refl (ground (arith, key-IsScalar))
