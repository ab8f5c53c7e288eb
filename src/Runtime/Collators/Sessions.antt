-- ===== src/Runtime/Collators/Sessions.antt =====
-- When sessions end, and which candidates are lazy.
use polkadot_confidential_of.Base.{
  ℕ, ◌+◌, ◌-◌, ◌*◌, ◌%◌, ◌≤◌, ◌<◌, ◌≡◌, ◌↔◌, true, false, arith, ltb, Bool-cases, inl, inr,
}
use polkadot_confidential_of.Runtime.{milli_secs_per_block}
use polkadot_confidential_of.Runtime.Collators.{
  SessionPallets, should_end_session, is_lazy_candidate,
}

module _ (p : SessionPallets) where
  -- What the pallets document. A session ends at the offset and after each period; a candidate is
  -- lazy whose last block is at least the threshold ago.
  pub record SessionLaws : Type 0 where
    pub periodic_lem :
        (period offset now : ℕ)
        → 0 < period
        → (p.periodic_end period offset now ≡ true)
          ↔ ((offset ≤ now) × ((now - offset) % period ≡ 0))
    pub lazy_lem :
        (threshold now last : ℕ) → (p.is_lazy threshold now last ≡ true) ↔ (threshold ≤ now - last)

  module _ (laws : SessionLaws) where
    ends_iff : (n : ℕ) → (should_end_session p n ≡ true) ↔ (n % 3600 ≡ 0)
    unfolding should_end_session
    ends_iff n =
        let law = laws.periodic_lem 3600 0 n (omega arith) in
        (
          λ h. let (at_least, divides) = law.0 h in omega arith,
          λ h. law.1 (omega arith, omega arith),
        )

    lazy_iff : (n last : ℕ) → (is_lazy_candidate p n last ≡ true) ↔ (3600 ≤ n - last)
    unfolding is_lazy_candidate
    lazy_iff n last = laws.lazy_lem 3600 n last

    at_next :
        (n later : ℕ)
        → n % 3600 ≡ 0
        → later % 3600 ≡ 0
        → n < later
        → ltb (n + 3600) later ≡ false
        → later ≡ n + 3600
    at_next n later h k after reached = ground arith

    -- Of two ends of sessions with none between, the later one is 3600 blocks, or six hours at
    -- the time of a block, after the first, and at it exactly those candidates count as lazy,
    -- and may be kicked, whose last block is not after the first.
    pub sessions_lem :
        (n later last : ℕ)
        → should_end_session p n ≡ true
        → should_end_session p later ≡ true
        → n < later
        → ((between : ℕ) → n < between → between < later → should_end_session p between ≡ true → ⊥)
        → (later ≡ n + 3600)
          × ((later - n) * milli_secs_per_block ≡ 6 * 60 * 60 * 1000)
          × ((is_lazy_candidate p later last ≡ true) ↔ (last ≤ n))
    sessions_lem n later last here next after none_between =
        let at_n = (ends_iff n).0 here in
        let at_later = (ends_iff later).0 next in
        let length : later ≡ n + 3600 = elim (Bool-cases (ltb (n + 3600) later)) [
          | inl passed ↦ absurd (
              none_between (n + 3600) (omega arith) (ground arith)
                ((ends_iff (n + 3600)).1 (omega arith)))
          | inr reached ↦ at_next n later at_n at_later after reached
        ] in
        let lazy = lazy_iff later last in
        (
          length,
          omega (arith, length),
          (λ h. let since = lazy.0 h in omega (arith, length), λ h. lazy.1 (omega (arith, length))),
        )
