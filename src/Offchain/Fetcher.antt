-- ===== src/Offchain/Fetcher.antt =====
-- offchain-utils/src/fetcher.rs: `HttpRequest` and the default methods of `OffchainFetcher`.
pub mod Requests
pub mod Traffic
use polkadot_confidential_of.Base.{
  ℕ, String, Bool, not, List, [], ◌∷◌, ◌++◌, Exec, pure, fail, map_err, ok_or, ◌>>=◌, returned,
  ◌==◌, if◌then◌else◌,
}
use polkadot_confidential_of.Utf8.{Str, Bytes, from_utf8}
use polkadot_confidential_of.Offchain.{Host}

pub record HttpRequest : Type 0 where
  pub url : Str
  pub headers : List (Str × Str)

-- `HttpRequest::new`
unfoldable pub new : Str → HttpRequest
new url = record { url = url; headers = [] }

unfoldable pub add_header : HttpRequest → Str → Str → HttpRequest
add_header request key value = record request { headers = request.headers ++ (key, value) ∷ [] }

module _ (h : Host) where
  open h use {World, Request, from_millis, timestamp, send, wait, code, body}

  -- The loop over the headers in `fetch`.
  unfoldable pub set_headers : Request → List (Str × Str) → Request
  set_headers builder [] = builder
  set_headers builder ((key, value) ∷ headers) =
      set_headers (h.add_header builder key value) headers

  -- The request as it is sent: the headers, and a deadline two seconds from now.
  unfoldable pub build : HttpRequest → World → Request
  unfolding set_headers
  build request w =
      h.deadline (set_headers (h.get request.url) request.headers)
        (h.add (timestamp w) (from_millis 2000))

  unfoldable pub fetch : HttpRequest → Exec World String Bytes
  unfolding build
  fetch request w =
      (do
        pending ← map_err (λ _. "Failed to send HTTP request") (send (build request w))
        response ← map_err (λ _. "No response received") (wait pending)
        if not (code response == 200) then fail "Non-200 response code received" else λ w'.
            (returned (body response w').0, (body response w').1))
        w

  unfoldable pub fetch_string : HttpRequest → Exec World String Str
  unfolding fetch
  fetch_string request = do
    bytes ← fetch request
    ok_or (from_utf8 bytes) "Failed to parse response as UTF-8"
