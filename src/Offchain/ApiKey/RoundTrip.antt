-- ===== src/Offchain/ApiKey/RoundTrip.antt =====
-- What a reader of the key store gets, on every state of the storage.
use polkadot_confidential_of.Base.{
  ◌≡◌, ◌≢◌, ap, Option, none, some, returned, failed, panicked, All, arith, inl, inr, Option-cases,
  ◌↔◌,
}
use polkadot_confidential_of.Utf8.{Str, Bytes, IsScalar, as_bytes, from_utf8}
use polkadot_confidential_of.Utf8.RoundTrip.{from_utf8-as_bytes, as_bytes_injective}
use polkadot_confidential_of.Utf8.Soundness.{from_utf8-Encodes}
use polkadot_confidential_of.Offchain.{persistent, Host}
use polkadot_confidential_of.Offchain.Laws.{StorageLaws}
use polkadot_confidential_of.Offchain.ApiKey.{
  not_found_line, fetch_api_key_for_request, store_api_key,
}

module _ (h : Host) where
  open h use {World, local_storage_get, log}

  -- What is in the storage under a key.
  abbrev pub stored : Str → World → Option Bytes
  stored key w = local_storage_get persistent (as_bytes key) w

  -- Nothing stored: one log line, and an error.
  pub fetch_missing :
      (key : Str) (w : World)
      → stored key w ≡ none
      → fetch_api_key_for_request h key w
        ≡ (failed "Missing or invalid API key", log not_found_line w)
  unfolding fetch_api_key_for_request
  fetch_missing key w e = ground arith

  pub fetch_valid :
      (key s : Str) (w : World) {bs : Bytes}
      → stored key w ≡ some bs
      → from_utf8 bs ≡ some s
      → fetch_api_key_for_request h key w ≡ (returned s, w)
  unfolding fetch_api_key_for_request
  fetch_valid key s w e d = ground arith

  -- Bytes that are no UTF-8: a panic.
  pub fetch_invalid :
      (key : Str) (w : World) {bs : Bytes}
      → stored key w ≡ some bs
      → from_utf8 bs ≡ none
      → fetch_api_key_for_request h key w ≡ (panicked "Invalid UTF-8", w)
  unfolding fetch_api_key_for_request
  fetch_invalid key w e d = ground arith

  -- A fetch of a key returns a text exactly if that text is valid and its UTF-8 encoding is what
  -- is stored under the name.
  pub fetch-eq-returned_iff :
      (key s : Str) (w : World)
      → ((fetch_api_key_for_request h key w).0 ≡ returned s)
        ↔ (All IsScalar s × (stored key w ≡ some (as_bytes s)))
  fetch-eq-returned_iff key s w =
      (to, λ v. ap (λ r. r.0) (fetch_valid key s w v.1 (from_utf8-as_bytes s v.0)))
    where
      to :
          (fetch_api_key_for_request h key w).0 ≡ returned s
          → All IsScalar s × (stored key w ≡ some (as_bytes s))
      to e = elim (Option-cases (stored key w)) [
        | inl missing ↦ cc (fetch_missing key w missing)
        | inr (bs, found) ↦ elim (Option-cases (from_utf8 bs)) [
          | inl bad ↦ cc (fetch_invalid key w found bad)
          | inr (t, good) ↦
              let (valid, encoded) = from_utf8-Encodes bs t good in
              let same : t ≡ s = cc (fetch_valid key t w found good) in (rw same at valid, cc)
        ]
      ]

  -- A fetch of a key panics exactly if bytes are stored under the name that are the UTF-8
  -- encoding of no text.
  pub fetch-eq-panicked_iff :
      (key : Str) (w : World)
      → ((fetch_api_key_for_request h key w).0 ≡ panicked "Invalid UTF-8")
        ↔ ((bs : Bytes) × (stored key w ≡ some bs) × ((s : Str) → All IsScalar s → as_bytes s ≢ bs))
  fetch-eq-panicked_iff key w = (
    to,
    λ (bs, found, none_such). elim (Option-cases (from_utf8 bs)) [
      | inl bad ↦ ap (λ r. r.0) (fetch_invalid key w found bad)
      | inr (t, good) ↦
          let (valid, encoded) = from_utf8-Encodes bs t good in absurd (none_such t valid encoded)
    ],
  )
    where
      to :
          (fetch_api_key_for_request h key w).0 ≡ panicked "Invalid UTF-8"
          → (bs : Bytes) × (stored key w ≡ some bs) × ((s : Str) → All IsScalar s → as_bytes s ≢ bs)
      to e = elim (Option-cases (stored key w)) [
        | inl missing ↦ cc (fetch_missing key w missing)
        | inr (bs, found) ↦ elim (Option-cases (from_utf8 bs)) [
          | inl bad ↦ (bs, found, λ s valid same. cc (from_utf8-as_bytes s valid))
          | inr (t, good) ↦ cc (fetch_valid key t w found good)
        ]
      ]

  module _ (laws : StorageLaws h) where
    -- A key that is stored as text is fetched unchanged under the same name, and the fetch
    -- changes nothing, on any host whose persistent storage is a map.
    pub fetch-store :
        (key value : Str) (w : World)
        → All IsScalar value
        → fetch_api_key_for_request h key (store_api_key h key value w)
          ≡ (returned value, store_api_key h key value w)
    unfolding store_api_key
    fetch-store key value w valid =
        fetch_valid key value _ (laws.get_set _ _ w) (from_utf8-as_bytes value valid)

    -- Storing a key under a name that is text leaves what is fetched under any other such name
    -- as it was, on any host whose persistent storage is a map.
    pub fetch-store_ne :
        (j k value : Str) (w : World)
        → All IsScalar j
        → All IsScalar k
        → j ≢ k
        → (fetch_api_key_for_request h j (store_api_key h k value w)).0
          ≡ (fetch_api_key_for_request h j w).0
    unfolding fetch_api_key_for_request store_api_key
    fetch-store_ne j k value w vj vk ne =
        let apart : as_bytes j ≢ as_bytes k = λ e. ne (as_bytes_injective j k vj vk e) in
        let same : stored j (store_api_key h k value w) ≡ stored j w =
          laws.get_set_ne (as_bytes j) (as_bytes k) (as_bytes value) w apart in
        ground arith
