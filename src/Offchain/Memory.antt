-- ===== src/Offchain/Memory.antt =====
-- A host in memory, which shows that the assumptions about the host can be met, and on which the
-- examples run. Its network answers every request with the reply that the world holds.
use polkadot_confidential_of.Base.{
  ℕ, String, ◌+◌, ◌≡◌, ◌⊎◌, refl, inl, inr, List, [], ◌∷◌, ◌++◌, Option, none, some, Exec, returned,
  failed,
}
use mathlib.Core.Logic.{ite, if_pos, if_neg}
use native.Mathlib.Decide.{ℕ_discrete}
use polkadot_confidential_of.Utf8.{Str, Bytes}
use polkadot_confidential_of.Offchain.{StorageKind, persistent, local, LogLine, Host}
use polkadot_confidential_of.Offchain.Laws.{
  StorageLaws, RequestLaws, LogLaws, NetworkLaws, TrafficLaws,
}

pub record Sent : Type 0 where
  pub url : Str
  pub headers : List (Str × Str)
  pub due : Option ℕ

-- What the network does with a request.
pub data Reply : Type 0 where
  unreachable : Reply
  silent : Reply
  answer : ℕ → Bytes → Reply

pub record Memory : Type 0 where
  pub store : Bytes → Option Bytes
  pub lines : List LogLine
  pub sent : List Sent
  pub reply : Reply
  pub now : ℕ

unfoldable pub Bytes-discrete : Discrete Bytes
Bytes-discrete = hlevel ℕ_discrete

abbrev memory_get : StorageKind → Bytes → Memory → Option Bytes
memory_get persistent k m = m.store k
memory_get local k m = none

abbrev memory_set : StorageKind → Bytes → Bytes → Memory → Memory
memory_set persistent k v m = record m {
  store = λ j. ite (Bytes-discrete j k) (some v) (m.store j);
}
memory_set local k v m = m

abbrev deliver : Reply → Sent → Exec Memory String Reply
deliver unreachable r m = (failed "unreachable", m)
deliver silent r m = (returned silent, record m { sent = m.sent ++ r ∷ [] })
deliver (answer c b) r m = (returned (answer c b), record m { sent = m.sent ++ r ∷ [] })

abbrev receive : Reply → Exec Memory String (ℕ × Bytes)
receive unreachable m = (failed "unreachable", m)
receive silent m = (failed "timeout", m)
receive (answer c b) m = (returned (c, b), m)

abbrev pub memory_host : Host
memory_host = record {
  World = Memory;
  Request = Sent;
  Pending = Reply;
  Response = ℕ × Bytes;
  HttpError = String;
  Timestamp = ℕ;
  Duration = ℕ;
  Hash = ℕ;
  local_storage_get = memory_get;
  local_storage_set = memory_set;
  log = λ e m. record m { lines = m.lines ++ e ∷ [] };
  timestamp = λ m. m.now;
  from_millis = λ n. n;
  add = λ t d. t + d;
  get = λ u. record { url = u; headers = []; due = none };
  add_header = λ r k v. record r { headers = r.headers ++ (k, v) ∷ [] };
  deadline = λ r t. record r { due = some t };
  send = λ r m. deliver m.reply r m;
  wait = receive;
  code = λ p. p.0;
  body = λ p m. (p.1, m);
  block_hash = λ n m. n;
  debug_hash = λ n. n ∷ [];
}

abbrev pub memory_storage : StorageLaws memory_host
memory_storage = record {
  get_set = λ k v m. if_pos (Bytes-discrete k k) refl (some v) (m.store k);
  get_set_ne = λ j k v m ne. if_neg (Bytes-discrete j k) ne (some v) (m.store j);
  get_log = λ k e m. refl;
}

abbrev pub memory_requests : RequestLaws memory_host
memory_requests = record {
  url = λ r. r.url;
  headers = λ r. r.headers;
  due = λ r. r.due;
  get_url = λ u. refl;
  get_headers = λ u. refl;
  add_header_url = λ r k v. refl;
  add_header_headers = λ r k v. refl;
  deadline_url = λ r t. refl;
  deadline_headers = λ r t. refl;
  deadline_due = λ r t. refl;
}

abbrev pub memory_log : LogLaws memory_host
memory_log = record { lines = λ m. m.lines; log_lines = λ e m. refl }

deliver-lines : (r : Reply) (q : Sent) (m : Memory) → (deliver r q m).1.lines ≡ m.lines
deliver-lines unreachable q m = refl
deliver-lines silent q m = refl
deliver-lines (answer c b) q m = refl

receive-lines : (r : Reply) (m : Memory) → (receive r m).1.lines ≡ m.lines
receive-lines unreachable m = refl
receive-lines silent m = refl
receive-lines (answer c b) m = refl

pub memory_network : NetworkLaws memory_host memory_log
memory_network = record {
  send_lines = λ q m. deliver-lines m.reply q m;
  wait_lines = receive-lines;
  body_lines = λ q m. refl;
}

pub deliver-sent :
    (r : Reply) (q : Sent) (m : Memory)
    → ((deliver r q m).1.sent ≡ m.sent) ⊎ ((deliver r q m).1.sent ≡ m.sent ++ q ∷ [])
deliver-sent unreachable q m = inl refl
deliver-sent silent q m = inr refl
deliver-sent (answer c b) q m = inr refl

pub receive-sent : (r : Reply) (m : Memory) → (receive r m).1.sent ≡ m.sent
receive-sent unreachable m = refl
receive-sent silent m = refl
receive-sent (answer c b) m = refl

pub deliver-get :
    (k : Bytes) (r : Reply) (q : Sent) (m : Memory) → (deliver r q m).1.store k ≡ m.store k
deliver-get k unreachable q m = refl
deliver-get k silent q m = refl
deliver-get k (answer c b) q m = refl

pub receive-get : (k : Bytes) (r : Reply) (m : Memory) → (receive r m).1.store k ≡ m.store k
receive-get k unreachable m = refl
receive-get k silent m = refl
receive-get k (answer c b) m = refl

abbrev pub memory_traffic : TrafficLaws memory_host
memory_traffic = record {
  sent = λ m. m.sent;
  send_sent = λ q m. deliver-sent m.reply q m;
  wait_sent = receive-sent;
  body_sent = λ q m. refl;
  log_sent = λ e m. refl;
  set_sent = λ k v m. refl;
  send_get = λ k q m. deliver-get k m.reply q m;
  wait_get = receive-get;
  body_get = λ k q m. refl;
}
