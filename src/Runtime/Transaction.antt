-- ===== src/Runtime/Transaction.antt =====
-- `create_transaction` of runtime/src/lib.rs. The signed extensions, the mortal eras, the payload
-- and the signature come from FRAME and the caller: they are parameters.
pub mod Period
pub mod Era
mod Tests
use polkadot_confidential_of.Base.{
  ℕ, zero, suc, ◌+◌, ◌-◌, ◌*◌, ◌/◌, ◌^◌, ◌%◌, Option, none, some, leb, ltb, if◌then◌else◌, Exec,
  modify, pure, fail, ok_or, ◌>>=◌, ◌>>◌, Result, ok, err, attempt, String,
}

-- The least power of two that is not below `n`, searched from `2 ^ e` with `fuel` rounds.
power_from : ℕ → ℕ → ℕ → ℕ
power_from zero e n = 2 ^ e
power_from (suc fuel) e n =
    let rest = power_from fuel (suc e) n in if leb n (2 ^ e) then 2 ^ e else rest

-- Rust's `u32::checked_next_power_of_two`.
unfoldable pub checked_next_power_of_two : ℕ → Option ℕ
unfolding power_from
checked_next_power_of_two n = let p = power_from 32 0 n in if ltb p (2 ^ 32) then some p else none

-- `.map(|c| c / 2).unwrap_or(2) as u64`
abbrev pub halved_or_two : Option ℕ → ℕ
halved_or_two none = 2
halved_or_two (some c) = c / 2

-- The period of the era, from the number of block hashes that are kept.
unfoldable pub period : ℕ → ℕ
unfolding checked_next_power_of_two
period block_hash_count = halved_or_two (checked_next_power_of_two block_hash_count)

-- `System::block_number().saturated_into::<u64>().saturating_sub(1)`
unfoldable pub current_block : ℕ → ℕ
current_block block_number = block_number - 1

-- `SignedExtra`: the extensions that carry data. The other five are built by `new()`.
pub record SignedExtra (Era : Type 0) : Type 0 where
  pub era : Era
  pub nonce : ℕ
  pub tip : ℕ

-- What FRAME and the caller provide.
pub record Signing : Type 1 where
  pub World : Type 0
  pub RuntimeCall : Type 0
  pub Public : Type 0
  pub AccountId : Type 0
  pub Signature : Type 0
  pub Era : Type 0
  pub Payload : Type 0
  pub InvalidTransaction : Type 0
  pub block_hash_count : ℕ
  pub block_number : World → ℕ
  pub mortal : ℕ → ℕ → Era
  pub new_payload : RuntimeCall → SignedExtra Era → World → Result Payload InvalidTransaction
  pub warn : InvalidTransaction → World → World
  pub sign : Payload → Public → World → Option Signature
  pub deconstruct : Payload → RuntimeCall × SignedExtra Era

module _ (s : Signing) where
  open s use {
    World, RuntimeCall, Public, AccountId, Signature, Era, Payload, InvalidTransaction,
    block_hash_count, block_number, mortal, new_payload, warn, sign, deconstruct,
  }

  -- The call and its signature payload; the address is `MultiAddress::Id` of the account.
  pub record SignedTransaction : Type 0 where
    pub call : RuntimeCall
    pub address : AccountId
    pub signature : Signature
    pub extra : SignedExtra Era

  -- `tip = 0`, and an era from the block before the one under construction.
  unfoldable pub extra_of : ℕ → World → SignedExtra Era
  unfolding period current_block
  extra_of nonce w = record {
    era = mortal (period block_hash_count) (current_block (block_number w));
    nonce = nonce;
    tip = 0;
  }

  -- The end of the function, once the payload is made.
  finish : AccountId → Public → Payload → Exec World (Unit {0}) SignedTransaction
  finish account public raw_payload w = elim (sign raw_payload public w) [
    | none ↦ fail tt w
    | some signature ↦
        pure
          (record {
            call = (deconstruct raw_payload).0;
            address = account;
            signature = signature;
            extra = (deconstruct raw_payload).1;
          })
          w
  ]

  -- `None` is the failure.
  unfoldable pub create_transaction :
      RuntimeCall → Public → AccountId → ℕ → Exec World (Unit {0}) SignedTransaction
  unfolding finish extra_of
  create_transaction call public account nonce w = elim (new_payload call (extra_of nonce w) w) [
    | err e ↦ (modify (warn e) >> fail tt) w
    | ok raw_payload ↦ finish account public raw_payload w
  ]
