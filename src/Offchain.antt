-- ===== src/Offchain.antt =====
-- offchain-utils, and the host functions that it and the offchain worker call. The host (sp-io,
-- sp-runtime's http, the log crate, frame-system's block hashes) is not in this repository: it is
-- the parameter `Host`.
pub mod Laws
pub mod ApiKey
pub mod Fetcher
pub mod Memory
mod Tests
use polkadot_confidential_of.Base.{ℕ, String, List, Option, none, Exec}
use polkadot_confidential_of.Utf8.{Str, Bytes}

-- sp-core's `StorageKind`
pub data StorageKind : Type 0 where
  persistent local : StorageKind

-- The levels at which the code logs.
pub data Level : Type 0 where
  error info debug trace : Level

-- A value that a log line shows. The formatting by `{}` and `{:?}` is not modelled.
pub data Arg : Type 0 where
  text : Str → Arg
  message : String → Arg
  number : ℕ → Arg

-- A log line: its level, its target if the code names one, its format string and the values that
-- it shows.
pub record LogLine : Type 0 where
  pub level : Level
  pub target : Option String
  pub format : String
  pub args : List Arg

abbrev pub log_line : Level → String → List Arg → LogLine
log_line level format args = record { level = level; target = none; format = format; args = args }

-- What the node's host and the framework offer to an offchain worker.
pub record Host : Type 1 where
  pub World : Type 0
  pub Request : Type 0
  pub Pending : Type 0
  pub Response : Type 0
  pub HttpError : Type 0
  pub Timestamp : Type 0
  pub Duration : Type 0
  pub Hash : Type 0
  pub local_storage_get : StorageKind → Bytes → World → Option Bytes
  pub local_storage_set : StorageKind → Bytes → Bytes → World → World
  pub log : LogLine → World → World
  pub timestamp : World → Timestamp
  pub from_millis : ℕ → Duration
  pub add : Timestamp → Duration → Timestamp
  pub get : Str → Request  -- http::Request::get
  pub add_header : Request → Str → Str → Request
  pub deadline : Request → Timestamp → Request
  pub send : Request → Exec World HttpError Pending
  pub wait : Pending → Exec World HttpError Response
  pub code : Response → ℕ
  pub body : Response → World → Bytes × World  -- response.body().collect()
  pub block_hash : ℕ → World → Hash
  pub debug_hash : Hash → Str  -- the hash, as `{:?}` shows it
