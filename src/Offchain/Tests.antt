-- ===== src/Offchain/Tests.antt =====
-- The theorems on the key store and the fetcher at concrete inputs, among them those of
-- offchain-utils/src/tests.rs.
use polkadot_confidential_of.Base.{
  ◌≡◌, ◌≢◌, ◌↔◌, refl, none, some, [], ◌∷◌, returned, failed, panicked, All, arith, codes,
}
use polkadot_confidential_of.Utf8.{Str, Bytes, IsScalar, as_bytes, from_utf8}
use polkadot_confidential_of.Offchain.ApiKey.{
  not_found_line, fetch_api_key_for_request, store_api_key,
}
use polkadot_confidential_of.Offchain.ApiKey.RoundTrip.{
  stored, fetch_missing, fetch-eq-returned_iff, fetch-eq-panicked_iff, fetch-store, fetch-store_ne,
}
use polkadot_confidential_of.Offchain.Fetcher.{HttpRequest, build, fetch, fetch_string}
use polkadot_confidential_of.Offchain.Fetcher.Requests.{build_lem, Exchange, fetch-Exchange}
use polkadot_confidential_of.Offchain.Memory.{
  Memory, silent, answer, memory_host, memory_storage, memory_requests,
}

abbrev empty : Memory
empty = record { store = λ k. none; lines = []; sent = []; reply = silent; now = 5 }

abbrev answering : Memory
answering = record empty { reply = answer 200 (0x68 ∷ 0xC3 ∷ 0xA9 ∷ []) }

abbrev test_key : Str
test_key = codes "test_api_key"

abbrev other_key : Str
other_key = codes "api_key"

abbrev mock_value : Str
mock_value = codes "mock_key_value"

abbrev with_mock : Memory
with_mock = record empty { store = λ k. some (as_bytes mock_value) }

abbrev with_garbage : Memory
with_garbage = record empty { store = λ k. some (0xFF ∷ []) }

test_fetch_api_key :
    (fetch_api_key_for_request memory_host test_key with_mock).0 ≡ returned mock_value
unfolding fetch_api_key_for_request as_bytes from_utf8
test_fetch_api_key = refl

test_missing_api_key :
    (fetch_api_key_for_request memory_host (codes "non_existent_key") empty).0
    ≡ failed "Missing or invalid API key"
unfolding fetch_api_key_for_request
test_missing_api_key = refl

utf8_tests :
    (from_utf8 (0xE2 ∷ 0x82 ∷ 0xAC ∷ 0xF0 ∷ 0x9F ∷ 0x94 ∷ 0x90 ∷ []) ≡ some (0x20AC ∷ 0x1F510 ∷ []))
    × (from_utf8 (0xC0 ∷ 0x80 ∷ []) ≡ none)
    × (from_utf8 (0xED ∷ 0xA0 ∷ 0x80 ∷ []) ≡ none)
    × (from_utf8 (0xE2 ∷ 0x82 ∷ []) ≡ none)
    × (from_utf8 (0xF4 ∷ 0x90 ∷ 0x80 ∷ 0x80 ∷ []) ≡ none)
unfolding from_utf8
utf8_tests = (refl, refl, refl, refl, refl)

mock_value-IsScalar : All IsScalar mock_value
mock_value-IsScalar = ground arith

test_key-IsScalar : All IsScalar test_key
test_key-IsScalar = ground arith

other_key-IsScalar : All IsScalar other_key
other_key-IsScalar = ground arith

test_key-ne-other_key : test_key ≢ other_key
test_key-ne-other_key = ground arith

fetch-store_example :
    fetch_api_key_for_request memory_host test_key
      (store_api_key memory_host test_key mock_value empty)
    ≡ (returned mock_value, store_api_key memory_host test_key mock_value empty)
fetch-store_example =
    fetch-store memory_host memory_storage test_key mock_value empty mock_value-IsScalar

fetch-store_ne_example :
    (fetch_api_key_for_request memory_host test_key
      (store_api_key memory_host other_key mock_value empty)).0
    ≡ (fetch_api_key_for_request memory_host test_key empty).0
fetch-store_ne_example =
    fetch-store_ne memory_host memory_storage test_key other_key mock_value empty test_key-IsScalar
      other_key-IsScalar test_key-ne-other_key

fetch_missing_example :
    fetch_api_key_for_request memory_host test_key empty
    ≡ (failed "Missing or invalid API key", memory_host.log not_found_line empty)
fetch_missing_example = fetch_missing memory_host test_key empty refl

fetch-eq-returned_iff_example :
    ((fetch_api_key_for_request memory_host test_key with_mock).0 ≡ returned mock_value) ↔ (
      All IsScalar mock_value
      × (stored memory_host test_key with_mock ≡ some (as_bytes mock_value)))
fetch-eq-returned_iff_example = fetch-eq-returned_iff memory_host test_key mock_value with_mock

fetch-eq-panicked_iff_example :
    ((fetch_api_key_for_request memory_host test_key with_garbage).0 ≡ panicked "Invalid UTF-8") ↔ (
      (bs : Bytes) × (stored memory_host test_key with_garbage ≡ some bs)
      × ((s : Str) → All IsScalar s → as_bytes s ≢ bs))
fetch-eq-panicked_iff_example = fetch-eq-panicked_iff memory_host test_key with_garbage

abbrev request : HttpRequest
request = record { url = codes "http://x"; headers = (codes "a", codes "b") ∷ (codes "c", []) ∷ [] }

build_lem_example :
    ((build memory_host request answering).url ≡ codes "http://x")
    × ((build memory_host request answering).headers ≡ request.headers)
    × ((build memory_host request answering).due ≡ some 2005)
build_lem_example = build_lem memory_host memory_requests request answering

fetch-Exchange_example :
    Exchange memory_host
      (build memory_host request answering)
      answering
      (fetch memory_host request answering)
fetch-Exchange_example = fetch-Exchange memory_host request answering

fetch_string_runs : (fetch_string memory_host request answering).0 ≡ returned (codes "hé")
unfolding fetch_string from_utf8
fetch_string_runs = refl
