-- ===== src/Offchain/Fetcher/Requests.antt =====
-- What `fetch` sends, and what each outcome of it means.
use mathlib.Core.Path.{subst}
use polkadot_confidential_of.Base.{
  String, ◌≡◌, ◌≢◌, ◌↔◌, ◌∙◌, refl, sym, ap, inl, inr, some, List, [], ◌∷◌, ◌++◌, append_assoc,
  append-nil, Ended, returned, failed, panicked, arith, ◌==◌, Bool-cases, All, Option-cases,
}
use polkadot_confidential_of.Utf8.{Str, Bytes, IsScalar, as_bytes, from_utf8}
use polkadot_confidential_of.Utf8.RoundTrip.{from_utf8-as_bytes}
use polkadot_confidential_of.Utf8.Soundness.{from_utf8-Encodes}
use polkadot_confidential_of.Offchain.{Host}
use polkadot_confidential_of.Offchain.Laws.{RequestLaws, LogLaws, NetworkLaws}
use polkadot_confidential_of.Offchain.Fetcher.{HttpRequest, set_headers, build, fetch, fetch_string}

module _ (h : Host) where
  open h use {
    World, Request, Pending, Response, HttpError, from_millis, timestamp, send, wait, code, body,
  }

  module _ (laws : RequestLaws h) where
    open laws use {url, headers, due}

    set_headers_lem :
        (hs : List (Str × Str)) (r : Request)
        → (headers (set_headers h r hs) ≡ headers r ++ hs) × (url (set_headers h r hs) ≡ url r)
    unfolding set_headers
    set_headers_lem [] r = (sym (append-nil (headers r)), refl)
    set_headers_lem ((k, v) ∷ hs) r =
        let (same, at_url) = set_headers_lem hs (h.add_header r k v) in
        (
          rw (same, laws.add_header_headers) (append_assoc (headers r) ((k, v) ∷ []) hs),
          at_url ∙ laws.add_header_url r k v,
        )

    -- The request that fetch sends has the configured address, exactly the configured headers in
    -- their order, and a deadline of 2000 milliseconds after the time of the host.
    pub build_lem :
        (request : HttpRequest) (w : World)
        → (url (build h request w) ≡ request.url)
          × (headers (build h request w) ≡ request.headers)
          × (due (build h request w) ≡ some (h.add (timestamp w) (from_millis 2000)))
    unfolding build
    build_lem request w =
        let (same, at_url) = set_headers_lem request.headers (h.get request.url) in
        (
          laws.deadline_url _ _ ∙ at_url ∙ laws.get_url request.url,
          laws.deadline_headers _ _
              ∙ same
              ∙ ap (λ hs. hs ++ request.headers) (laws.get_headers request.url),
          laws.deadline_due _ _,
        )

  -- How an exchange over the network ends: with a body, or in one of three failures.
  pub data Exchange (r : Request) (w : World) : Ended String Bytes × World → Type 0 where
    unsent :
        {e : HttpError} {w' : World}
        → send r w ≡ (failed e, w')
        → Exchange r w (failed "Failed to send HTTP request", w')
    unanswered :
        {p : Pending} {e : HttpError} {w' w'' : World}
        → send r w ≡ (returned p, w')
        → wait p w' ≡ (failed e, w'')
        → Exchange r w (failed "No response received", w'')
    refused :
        {p : Pending} {q : Response} {w' w'' : World}
        → send r w ≡ (returned p, w')
        → wait p w' ≡ (returned q, w'')
        → code q ≢ 200
        → Exchange r w (failed "Non-200 response code received", w'')
    answered :
        {p : Pending} {q : Response} {w' w'' : World}
        → send r w ≡ (returned p, w')
        → wait p w' ≡ (returned q, w'')
        → code q ≡ 200
        → Exchange r w (returned (body q w'').0, (body q w'').1)
    trapped_send :
        {m : String} {w' : World} → send r w ≡ (panicked m, w') → Exchange r w (panicked m, w')
    trapped_wait :
        {p : Pending} {m : String} {w' w'' : World}
        → send r w ≡ (returned p, w')
        → wait p w' ≡ (panicked m, w'')
        → Exchange r w (panicked m, w'')

  -- fetch sends the built request once and ends, on every behaviour of the host, as the exchange
  -- does: the body exactly for status 200, and one of three errors, or the panic of the host,
  -- otherwise.
  pub fetch-Exchange :
      (request : HttpRequest) (w : World) → Exchange (build h request w) w (fetch h request w)
  unfolding fetch
  fetch-Exchange request w = after_send (send r w) refl
    where
      r : Request
      r = build h request w

      ends :
          {x : Ended String Bytes × World}
          → Exchange r w x
          → fetch h request w ≡ x
          → Exchange r w (fetch h request w)
      ends h e = subst (Exchange r w) (sym e) h

      after_wait :
          (p : Pending) (w' : World)
          → send r w ≡ (returned p, w')
          → (y : Ended HttpError Response × World) → wait p w' ≡ y
          → Exchange r w (fetch h request w)
      after_wait p w' e (returned q, w'') f = elim (Bool-cases (code q == 200)) [
        | inl done ↦ ends (answered e f (ground arith)) (ground arith)
        | inr other ↦ ends (refused e f (ground arith)) (ground arith)
      ]
      after_wait p w' e (failed x, w'') f = ends (unanswered e f) (ground arith)
      after_wait p w' e (panicked m, w'') f = ends (trapped_wait e f) (ground arith)

      after_send :
          (x : Ended HttpError Pending × World) → send r w ≡ x → Exchange r w (fetch h request w)
      after_send (returned p, w') e = after_wait p w' e (wait p w') refl
      after_send (failed x, w') e = ends (unsent e) (ground arith)
      after_send (panicked m, w') e = ends (trapped_send e) (ground arith)

  -- fetch_string returns a text exactly if the text is valid and fetch returns its UTF-8
  -- encoding, in the same world.
  pub fetch_string-eq-returned_iff :
      (request : HttpRequest) (s : Str) (w w' : World)
      → (fetch_string h request w ≡ (returned s, w'))
        ↔ (All IsScalar s × (fetch h request w ≡ (returned (as_bytes s), w')))
  unfolding fetch_string
  fetch_string-eq-returned_iff request s w w' = (to (fetch h request w) refl, from)
    where
      to :
          (x : Ended String Bytes × World)
          → fetch h request w ≡ x
          → fetch_string h request w ≡ (returned s, w')
          → All IsScalar s × (fetch h request w ≡ (returned (as_bytes s), w'))
      to (returned bs, v) e q = elim (Option-cases (from_utf8 bs)) [
        | inl bad ↦ absurd (ground arith)
        | inr (t, good) ↦
            let (valid, encoded) = from_utf8-Encodes bs t good in
            let same : t ≡ s = ground arith in (rw same at valid, ground arith)
      ]
      to (failed m, v) e q = absurd (ground arith)
      to (panicked m, v) e q = absurd (ground arith)

      from :
          All IsScalar s × (fetch h request w ≡ (returned (as_bytes s), w'))
          → fetch_string h request w ≡ (returned s, w')
      from (valid, e) =
          let good : from_utf8 (as_bytes s) ≡ some s = from_utf8-as_bytes s valid in ground arith

  pub fetch_string_world :
      (request : HttpRequest) (w : World) → (fetch_string h request w).1 ≡ (fetch h request w).1
  unfolding fetch_string
  fetch_string_world request w = ground arith

  module _ (logs : LogLaws h) (network : NetworkLaws h logs) where
    open logs use {lines}

    Exchange-lines :
        (r : Request) (w : World) {x : Ended String Bytes × World}
        → Exchange r w x
        → lines x.1 ≡ lines w
    Exchange-lines r w (unsent e) = ground (arith, network.send_lines r w)
    Exchange-lines r w (unanswered {p} {w'} e f) =
        ground (arith, network.send_lines r w, network.wait_lines p w')
    Exchange-lines r w (refused {p} {w'} e f other) =
        ground (arith, network.send_lines r w, network.wait_lines p w')
    Exchange-lines r w (answered {p} {q} {w'} {w''} e f done) =
        ground (arith, network.send_lines r w, network.wait_lines p w', network.body_lines q w'')
    Exchange-lines r w (trapped_send e) = ground (arith, network.send_lines r w)
    Exchange-lines r w (trapped_wait {p} {w'} e f) =
        ground (arith, network.send_lines r w, network.wait_lines p w')

    -- A fetch writes no log line.
    pub fetch_string-lines :
        (request : HttpRequest) (w : World) → lines (fetch_string h request w).1 ≡ lines w
    fetch_string-lines request w =
        ap lines (fetch_string_world request w)
        ∙ Exchange-lines (build h request w) w (fetch-Exchange request w)
