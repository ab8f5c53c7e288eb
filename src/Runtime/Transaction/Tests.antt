-- ===== src/Runtime/Transaction/Tests.antt =====
-- Witnesses of the laws of the transactions, signed by a key that is a number.
use polkadot_confidential_of.Base.{ℕ, ◌+◌, ◌*◌, ◌^◌, ◌≤◌, ◌<◌, ◌≡◌, some, ok, arith}
use polkadot_confidential_of.Runtime.Transaction.{period, SignedExtra, Signing, create_transaction}
use polkadot_confidential_of.Runtime.Transaction.Period.{period_cases}
use polkadot_confidential_of.Runtime.Transaction.Era.{
  IsPeriod, Creation, create_transaction-Creation,
}

abbrev number_signing : Signing
number_signing = record {
  World = ℕ;
  RuntimeCall = ℕ;
  Public = ℕ;
  AccountId = ℕ;
  Signature = ℕ;
  Era = ℕ × ℕ;
  Payload = ℕ × SignedExtra (ℕ × ℕ);
  InvalidTransaction = ℕ;
  block_hash_count = 2400;
  block_number = λ w. w;
  mortal = λ p b. (p, b);
  new_payload = λ call extra w. ok (call, extra);
  warn = λ e w. w;
  sign = λ p public w. some (p.0 + public);
  deconstruct = λ p. p;
}

period_cases_example :
    (2400 ≤ 1 → period 2400 ≡ 0)
    × (2 ≤ 2400
        → 2400 ≤ 2 ^ 31
        → ((e : ℕ) × (period 2400 ≡ 2 ^ e)) × (period 2400 < 2400) × (2400 ≤ 2 * period 2400))
    × (2 ^ 31 < 2400 → period 2400 ≡ 2)
period_cases_example = period_cases 2400 (omega arith)

create_transaction-Creation_example :
    (p : ℕ) × IsPeriod 2400 p
    × Creation number_signing
        (record { era = (p, 99); nonce = 0; tip = 0 })
        5
        6
        6
        100
        (create_transaction number_signing 5 6 6 0 100)
create_transaction-Creation_example =
    create_transaction-Creation number_signing (λ call extra w p e. ground arith) 5 6 6 0 100
      (omega arith)
