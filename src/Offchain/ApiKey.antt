-- ===== src/Offchain/ApiKey.antt =====
-- offchain-utils/src/offchain_api_key.rs: the default methods of `OffchainApiKey`, which both
-- implementors take as they are.
pub mod RoundTrip
use polkadot_confidential_of.Base.{
  String, Option, none, some, Exec, pure, ok_or, expect, modify, ◌>>=◌, ◌>>◌, [],
}
use polkadot_confidential_of.Utf8.{Str, as_bytes, from_utf8}
use polkadot_confidential_of.Offchain.{persistent, error, LogLine, log_line, Host}

abbrev pub not_found_line : LogLine
not_found_line = log_line error "API key not found in offchain storage" []

module _ (h : Host) where
  open h use {World, local_storage_get, local_storage_set, log}

  -- The raw key from the local storage; bytes that are no UTF-8 are a panic.
  unfoldable pub do_fetch_local : {E : Type 0} → Str → Exec World E (Option Str)
  do_fetch_local key w = elim (local_storage_get persistent (as_bytes key) w) [
    | some api_key_bytes ↦
        (do api_key ← expect (from_utf8 api_key_bytes) "Invalid UTF-8"; pure (some api_key)) w
    | none ↦ (modify (log not_found_line) >> pure none) w
  ]

  unfoldable pub fetch_api_key_for_request : Str → Exec World String Str
  unfolding do_fetch_local
  fetch_api_key_for_request key = do
    found ← do_fetch_local key
    ok_or found "Missing or invalid API key"

  unfoldable pub store_api_key : Str → Str → World → World
  store_api_key key value = local_storage_set persistent (as_bytes key) (as_bytes value)
