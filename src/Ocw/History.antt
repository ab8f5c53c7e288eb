-- ===== src/Ocw/History.antt =====
-- The worker over a history of blocks, in which keys are stored under the name of the key.
use mathlib.Core.Path.{subst}
use polkadot_confidential_of.Base.{
  ℕ, zero, suc, ◌-◌, ◌^◌, ◌≡◌, ◌⊎◌, ◌∙◌, refl, sym, ap, inl, inr, Bool, true, false, Option, none,
  some, List, [], ◌∷◌, ◌++◌, map, map-append, append-nil, append_assoc, codes, Ended, returned,
  panicked, All, if◌then◌else◌,
}
use polkadot_confidential_of.Utf8.{Str, Bytes, IsScalar, as_bytes, from_utf8}
use polkadot_confidential_of.Utf8.RoundTrip.{from_utf8-as_bytes}
use polkadot_confidential_of.Offchain.{LogLine, Host}
use polkadot_confidential_of.Offchain.Laws.{StorageLaws, RequestLaws, TrafficLaws}
use polkadot_confidential_of.Offchain.ApiKey.{store_api_key}
use polkadot_confidential_of.Offchain.ApiKey.RoundTrip.{stored}
use polkadot_confidential_of.Offchain.Fetcher.{build, fetch_string}
use polkadot_confidential_of.Offchain.Fetcher.Traffic.{Sends, fetch_string-Sends}
use polkadot_confidential_of.Ocw.{
  ping_line, block_line, api_key_name, endpoint, worker_request, offchain_worker,
}
use polkadot_confidential_of.Ocw.Worker.{announced, worker_request-headers}
use polkadot_confidential_of.Ocw.Endings.{
  Ending, no_key, invalid_key, request_panicked, reported, logged, offchain_worker-Ending,
}

-- What can happen: a key is stored, or the worker runs for a block.
pub data Op : Type 0 where
  store_key : Str → Op
  block : ℕ → Op

-- A request by its address and its headers.
abbrev pub View : Type 0
View = Str × List (Str × Str)

abbrev pub with_header : Str → View
with_header key = (endpoint, (codes "Authorization", key) ∷ [])

-- The requests that a history may send, from the key that is stored at its start: at most one for
-- each block, with the key that was stored last.
pub data Carries : Option Str → List Op → List View → Type 0 where
  ended : {key : Option Str} → Carries key [] []
  stored_key :
      {key : Option Str} {new : Str} {ops : List Op} {views : List View}
      → Carries (some new) ops views
      → Carries key (store_key new ∷ ops) views
  silent :
      {key : Option Str} {n : ℕ} {ops : List Op} {views : List View}
      → Carries key ops views
      → Carries key (block n ∷ ops) views
  asked :
      {key : Str} {n : ℕ} {ops : List Op} {views : List View}
      → Carries (some key) ops views
      → Carries (some key) (block n ∷ ops) (with_header key ∷ views)

-- All keys that are stored are texts.
abbrev pub HasTexts : List Op → Type 0
HasTexts = All (λ op. elim op [ store_key key ↦ All IsScalar key | block n ↦ Unit {0} ])

module _ (h : Host) (checks : Bool) where
  open h use {World, Request, log, block_hash, debug_hash}

  unfoldable pub happen : Op → World → World
  happen (store_key key) w = store_api_key h api_key_name key w
  happen (block n) w = (offchain_worker h checks n w).1

  unfoldable pub history : List Op → World → World
  history [] w = w
  history (op ∷ ops) w = history ops (happen op w)

  module _ (storage : StorageLaws h) (requests : RequestLaws h) (traffic : TrafficLaws h) where
    abbrev pub views : World → List View
    views w = map (λ r. (requests.url r, requests.headers r)) (traffic.sent w)

    -- The bytes under the name of the key.
    abbrev pub HasKey : Option Str → World → Type 0
    HasKey none w = stored h api_key_name w ≡ none
    HasKey (some key) w = All IsScalar key × (stored h api_key_name w ≡ some (as_bytes key))

    -- From `w` to `v`, no request was sent, or the one with the stored key, which has stayed.
    record Ran (key : Option Str) (w v : World) : Type 0 where
      kept : stored h api_key_name v ≡ stored h api_key_name w
      sends :
          (views v ≡ views w)
          ⊎ ((k : Str) × (key ≡ some k) × (views v ≡ views w ++ with_header k ∷ []))

    Ran-log : (key : Option Str) (e : LogLine) (w v : World) → Ran key w v → Ran key w (log e v)
    Ran-log key e w v r = record {
      kept = storage.get_log _ e v ∙ r.kept;
      sends =
          let same : views (log e v) ≡ views v = ap (map _) (traffic.log_sent e v) in
          elim r.sends [ inl q ↦ inl (same ∙ q) | inr (k, at, q) ↦ inr (k, at, same ∙ q) ];
    }

    Ran-start : (key : Option Str) (w : World) → Ran key w w
    Ran-start key w = record { kept = refl; sends = inl refl }

    Ran-logged :
        (key : Option Str) (n : ℕ) (w v : World) → Ran key w v → Ran key w (logged h checks n v).1
    Ran-logged key (suc n) w v r = Ran-log key _ w v r
    Ran-logged key zero w v r = by_checks checks
      where
        by_checks :
            (b : Bool)
            → Ran key w
                (if◌then◌else◌ {A = Ended ⊥ (Unit {0}) × World} b
                  (panicked "attempt to subtract with overflow", v)
                  (returned tt, log (block_line 0 (debug_hash (block_hash (2 ^ 32 - 1) v))) v)).1
        by_checks true = r
        by_checks false = Ran-log key _ w v r

    views-sent :
        (key : Str) (w v u : World)
        → Sends h traffic (build h (worker_request key) w) v u
        → (views u ≡ views v) ⊎ (views u ≡ views v ++ with_header key ∷ [])
    views-sent key w v u s =
        let view : Request → View = λ r. (requests.url r, requests.headers r) in
        let r = build h (worker_request key) w in
        let (at_url, with_headers) = worker_request-headers h checks requests key w in
        elim s.at_most [
          | inl e ↦ inl (ap (map view) e)
          | inr e ↦ inr (
              ap (map view) e
              ∙ map-append view (traffic.sent v) (r ∷ [])
              ∙ ap (λ x. views v ++ x ∷ []) (λ i. (at_url i, with_headers i)))
        ]

    Ran-fetch :
        (key : Str) (w v : World)
        → stored h api_key_name v ≡ stored h api_key_name w
        → views v ≡ views w
        → Ran (some key) w (fetch_string h (worker_request key) v).1
    Ran-fetch key w v kept same =
        let s = fetch_string-Sends h traffic (worker_request key) v in
        record {
          kept = s.same_storage (as_bytes api_key_name) ∙ kept;
          sends = elim (views-sent key v v _ s) [
            | inl q ↦ inl (q ∙ same)
            | inr q ↦ inr (key, refl, q ∙ ap (λ x. x ++ with_header key ∷ []) same)
          ];
        }

    -- The request is made in the world after the key has been logged.
    Ran-request :
        (key : Str) (w : World)
        → Ran (some key) w (fetch_string h (worker_request key) (announced h checks key w)).1
    Ran-request key w =
        Ran-fetch key w (announced h checks key w)
          (storage.get_log _ _ _ ∙ storage.get_log _ ping_line w)
          (ap (map _) (traffic.log_sent _ _ ∙ traffic.log_sent ping_line w))

    HasKey-unique :
        (key : Option Str) (k : Str) (bs : Bytes) (w : World)
        → HasKey key w
        → stored h api_key_name w ≡ some bs
        → from_utf8 bs ≡ some k
        → key ≡ some k
    HasKey-unique none k bs w has found good = cc
    HasKey-unique (some k') k bs w (valid, has) found good =
        let q = from_utf8-as_bytes k' valid in cc

    Ran-Ending :
        (key : Option Str) (n : ℕ) (w : World) {x : Ended ⊥ (Unit {0}) × World}
        → HasKey key w
        → Ending h checks n w x
        → Ran key w x.1
    Ran-Ending key n w has (no_key missing) =
        Ran-log key _ w _
          (Ran-log key _ w _ (Ran-log key _ w _ (Ran-log key _ w w (Ran-start key w))))
    Ran-Ending key n w has (invalid_key found bad) = Ran-log key _ w w (Ran-start key w)
    Ran-Ending key n w has (request_panicked {bs} {key = k} {w'} found good e) =
        subst (λ x. Ran x w w') (sym (HasKey-unique key k bs w has found good))
          (subst (λ x. Ran (some k) w x.1) e (Ran-request k w))
    Ran-Ending key n w has (reported {bs} {key = k} r {w'} found good e) = Ran-logged key n w _ (
        Ran-log key _ w w' (
          subst (λ x. Ran x w w') (sym (HasKey-unique key k bs w has found good))
            (subst (λ x. Ran (some k) w x.1) e (Ran-request k w))))

    Ran-block :
        (key : Option Str) (n : ℕ) (w : World)
        → HasKey key w
        → Ran key w (offchain_worker h checks n w).1
    Ran-block key n w has = Ran-Ending key n w has (offchain_worker-Ending h checks storage n w)

    abbrev Carried : Option Str → List Op → World → World → Type 0
    Carried key ops w v = (vs : List View) × (views v ≡ views w ++ vs) × Carries key ops vs

    block-Carried :
        (key : Option Str) (n : ℕ) (ops : List Op) (w v u : World)
        → Ran key w v
        → Carried key ops v u
        → Carried key (block n ∷ ops) w u
    block-Carried key n ops w v u ran (vs, e, rest) = elim ran.sends [
      | inl same ↦ (vs, e ∙ ap (λ x. x ++ vs) same, silent rest)
      | inr (k, at, q) ↦ (
        with_header k ∷ vs,
        e ∙ ap (λ x. x ++ vs) q ∙ append_assoc (views w) (with_header k ∷ []) vs,
        subst (λ x. Carries x (block n ∷ ops) (with_header k ∷ vs)) (sym at)
            (asked (subst (λ x. Carries x ops vs) at rest)),
      )
    ]

    HasKey-Ran : (key : Option Str) (w v : World) → Ran key w v → HasKey key w → HasKey key v
    HasKey-Ran none w v ran has = ran.kept ∙ has
    HasKey-Ran (some k) w v ran (valid, has) = (valid, ran.kept ∙ has)

    -- Over any sequence of worker runs and of stores of keys that are text, from a world with no
    -- key or one that is text, on a host whose persistent storage is a map that the network
    -- leaves alone: at most one request leaves the node in each run, none while no key is
    -- stored, and each goes to the fixed address with the key that was stored last as its one
    -- header.
    pub history-Carries :
        (ops : List Op) (key : Option Str) (w : World)
        → HasKey key w
        → HasTexts ops
        → (vs : List View) × (views (history ops w) ≡ views w ++ vs) × Carries key ops vs
    unfolding history happen store_api_key
    history-Carries [] key w has texts = ([], sym (append-nil (views w)), ended)
    history-Carries (block n ∷ ops) key w has texts =
        let v = (offchain_worker h checks n w).1 in
        let ran = Ran-block key n w has in
        block-Carried key n ops w v (history ops v) ran
          (history-Carries ops key v (HasKey-Ran key w v ran has) texts.1)
    history-Carries (store_key new ∷ ops) key w has texts =
        let v = store_api_key h api_key_name new w in
        let same : views v ≡ views w = ap (map _) (traffic.set_sent _ _ w) in
        let (vs, e, rest) =
          history-Carries ops (some new) v (texts.0, storage.get_set _ _ w) texts.1 in
        (vs, e ∙ ap (λ x. x ++ vs) same, stored_key rest)
