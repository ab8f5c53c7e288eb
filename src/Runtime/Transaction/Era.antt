-- ===== src/Runtime/Transaction/Era.antt =====
-- The era of a signed transaction, and how its creation ends.
use mathlib.Core.Path.{subst}
use native.Mathlib.Decide.{dec_le}
use polkadot_confidential_of.Base.{
  ℕ, ◌-◌, ◌*◌, ◌^◌, ◌≤◌, ◌<◌, ◌≡◌, refl, sym, Option, none, some, arith, Result, ok, err, Ended,
  returned, failed,
}
use polkadot_confidential_of.Runtime.Transaction.{
  SignedExtra, Signing, SignedTransaction, period, current_block, extra_of, create_transaction,
}
use polkadot_confidential_of.Runtime.Transaction.Period.{period_cases}

-- What the period of an era is, for the number of block hashes that are kept.
pub data IsPeriod (count p : ℕ) : Type 0 where
  no_period : count ≤ 1 → p ≡ 0 → IsPeriod count p
  power_below : (e : ℕ) → 2 ≤ count → p ≡ 2 ^ e → p < count → count ≤ 2 * p → IsPeriod count p
  least_period : 2 ^ 31 < count → p ≡ 2 → IsPeriod count p

period-IsPeriod : (count : ℕ) → count < 2 ^ 32 → IsPeriod count (period count)
period-IsPeriod count fits =
    let (small, middle, large) = period_cases count fits in
    elim (dec_le count 1) [
      | yes few ↦ no_period few (small few)
      | no more ↦ elim (dec_le count (2 ^ 31)) [
        | yes most ↦
            let ((e, power), below, half) = middle (omega arith) most in
            power_below e (omega arith) power below half
        | no many ↦ let above : 2 ^ 31 < count = omega arith in least_period above (large above)
      ]
    ]

module _ (s : Signing) where
  open s use {
    World, RuntimeCall, Public, AccountId, Signature, Era, Payload, InvalidTransaction,
    block_hash_count, block_number, mortal, new_payload, warn, sign, deconstruct,
  }

  abbrev Reply : Type 0
  Reply = Ended (Unit {0}) (SignedTransaction s) × World

  -- How the creation of a transaction with given extensions ends.
  pub data Creation (extra : SignedExtra Era) (call : RuntimeCall) (public : Public)
      (account : AccountId) (w : World) : Reply → Type 0 where
    invalid :
        {e : InvalidTransaction}
        → new_payload call (extra) w ≡ err e
        → Creation extra call public account w (failed tt, warn e w)
    unsigned :
        {p : Payload}
        → new_payload call (extra) w ≡ ok p
        → sign p public w ≡ none
        → Creation extra call public account w (failed tt, w)
    created :
        {p : Payload} {signature : Signature}
        → new_payload call (extra) w ≡ ok p
        → sign p public w ≡ some signature
        → Creation extra call public account w (
          returned
              (record { call = call; address = account; signature = signature; extra = extra }),
          w,
        )

  module _
      (apart : (call : RuntimeCall) (extra : SignedExtra Era) (w : World) (p : Payload)
        → new_payload call extra w ≡ ok p
        → deconstruct p ≡ (call, extra))
      (call : RuntimeCall) (public : Public) (account : AccountId) (nonce : ℕ) (w : World) where
    -- The extensions, for a period.
    abbrev extra_for : ℕ → SignedExtra Era
    extra_for p = record { era = mortal p (block_number w - 1); nonce = nonce; tip = 0 }

    creation :
        Creation
          (extra_for (period block_hash_count))
          call
          public
          account
          w
          (create_transaction s call public account nonce w)
    unfolding create_transaction extra_of current_block
    creation = by_payload (new_payload call extra w) refl
      where
        extra : SignedExtra Era
        extra = extra_for (period block_hash_count)

        goal : Type 0
        goal =
            Creation extra call public account w (create_transaction s call public account nonce w)

        ends :
            {r : Reply}
            → Creation extra call public account w r
            → create_transaction s call public account nonce w ≡ r
            → goal
        ends c e = subst (Creation extra call public account w) (sym e) c

        by_signature :
            (p : Payload)
            → new_payload call extra w ≡ ok p
            → (r : Option Signature) → sign p public w ≡ r
            → goal
        by_signature p e none f = ends (unsigned e f) (ground arith)
        by_signature p e (some signature) f =
            ends (created e f) (ground (arith, apart call extra w p e))

        by_payload : (r : Result Payload InvalidTransaction) → new_payload call extra w ≡ r → goal
        by_payload (err x) e = ends (invalid e) (ground arith)
        by_payload (ok p) e = by_signature p e (sign p public w) refl

    -- For payloads that come apart as they were put together, and a u32 number of kept block
    -- hashes, a signed transaction is made exactly if its payload is valid and the key signs it;
    -- it holds the given call, account and nonce, a tip of 0, and the mortal era that FRAME
    -- makes of the number of the block under construction less one, or 0, and of a period, which
    -- is 0 for at most one block hash, 2 for more than 2 ^ 31, and else the power of two that is
    -- below their number and at least half of it; otherwise nothing is made, and only an invalid
    -- payload is logged.
    pub create_transaction-Creation :
        block_hash_count < 2 ^ 32
        → (p : ℕ) × IsPeriod block_hash_count p
          × Creation
              (record { era = mortal p (block_number w - 1); nonce = nonce; tip = 0 })
              call
              public
              account
              w
              (create_transaction s call public account nonce w)
    create_transaction-Creation fits =
        (period block_hash_count, period-IsPeriod block_hash_count fits, creation)
