-- ===== src/Offchain/Laws.antt =====
-- What the host is documented to do, as hypotheses of the theorems that need it.
use polkadot_confidential_of.Base.{◌≡◌, ◌≢◌, ◌⊎◌, List, [], ◌∷◌, ◌++◌, Option, some}
use polkadot_confidential_of.Utf8.{Str, Bytes}
use polkadot_confidential_of.Offchain.{persistent, LogLine, Host}

module _ (h : Host) where
  open h use {
    World, Request, Timestamp, local_storage_get, local_storage_set, log, get, add_header, deadline,
  }

  -- The persistent storage is a map, and logging leaves it alone.
  pub record StorageLaws : Type 0 where
    pub get_set :
        (k v : Bytes) (w : World)
        → local_storage_get persistent k (local_storage_set persistent k v w) ≡ some v
    pub get_set_ne :
        (j k v : Bytes) (w : World)
        → j ≢ k
        → local_storage_get persistent j (local_storage_set persistent k v w)
          ≡ local_storage_get persistent j w
    pub get_log :
        (k : Bytes) (e : LogLine) (w : World)
        → local_storage_get persistent k (log e w) ≡ local_storage_get persistent k w

  -- A request carries an address, headers in the order of their addition, and a deadline.
  pub record RequestLaws : Type 0 where
    pub url : Request → Str
    pub headers : Request → List (Str × Str)
    pub due : Request → Option Timestamp
    pub get_url : (u : Str) → url (get u) ≡ u
    pub get_headers : (u : Str) → headers (get u) ≡ []
    pub add_header_url : (r : Request) (k v : Str) → url (add_header r k v) ≡ url r
    pub add_header_headers :
        (r : Request) (k v : Str) → headers (add_header r k v) ≡ headers r ++ (k, v) ∷ []
    pub deadline_url : (r : Request) (t : Timestamp) → url (deadline r t) ≡ url r
    pub deadline_headers : (r : Request) (t : Timestamp) → headers (deadline r t) ≡ headers r
    pub deadline_due : (r : Request) (t : Timestamp) → due (deadline r t) ≡ some t

  -- The log is written at its end.
  pub record LogLaws : Type 0 where
    pub lines : World → List LogLine
    pub log_lines : (e : LogLine) (w : World) → lines (log e w) ≡ lines w ++ e ∷ []

  -- The network leaves the log alone.
  pub record NetworkLaws (laws : LogLaws) : Type 0 where
    pub send_lines : (r : Request) (w : World) → laws.lines (h.send r w).1 ≡ laws.lines w
    pub wait_lines : (p : h.Pending) (w : World) → laws.lines (h.wait p w).1 ≡ laws.lines w
    pub body_lines : (q : h.Response) (w : World) → laws.lines (h.body q w).1 ≡ laws.lines w

  -- The requests that left the node, in their order: sending one may fail before it does, and
  -- nothing else sends. The network leaves the persistent storage alone.
  pub record TrafficLaws : Type 0 where
    pub sent : World → List Request
    pub send_sent :
        (r : Request) (w : World)
        → (sent (h.send r w).1 ≡ sent w) ⊎ (sent (h.send r w).1 ≡ sent w ++ r ∷ [])
    pub wait_sent : (p : h.Pending) (w : World) → sent (h.wait p w).1 ≡ sent w
    pub body_sent : (q : h.Response) (w : World) → sent (h.body q w).1 ≡ sent w
    pub log_sent : (e : LogLine) (w : World) → sent (log e w) ≡ sent w
    pub set_sent : (k v : Bytes) (w : World) → sent (local_storage_set persistent k v w) ≡ sent w
    pub send_get :
        (k : Bytes) (r : Request) (w : World)
        → local_storage_get persistent k (h.send r w).1 ≡ local_storage_get persistent k w
    pub wait_get :
        (k : Bytes) (p : h.Pending) (w : World)
        → local_storage_get persistent k (h.wait p w).1 ≡ local_storage_get persistent k w
    pub body_get :
        (k : Bytes) (q : h.Response) (w : World)
        → local_storage_get persistent k (h.body q w).1 ≡ local_storage_get persistent k w
