-- ===== src/Runtime/Transaction/Period.antt =====
-- The period of the era of a signed transaction: the search for the next power of two and what is
-- made of it, for every `u32`.
use mathlib.Core.Path.{subst}
use native.Mathlib.Nat.{pow-suc}
use polkadot_confidential_of.Base.{
  ℕ, zero, suc, ◌+◌, ◌*◌, ◌/◌, ◌^◌, ◌≤◌, ◌<◌, ◌≡◌, ◌⊎◌, ◌↔◌, refl, ap, inl, inr, Option, none, some,
  if◌then◌else◌, leb, ltb, arith, Bool-cases, true,
}
use polkadot_confidential_of.Runtime.Transaction.{
  power_from, period, halved_or_two, checked_next_power_of_two,
}

-- The least power of two that is not below `n`.
abbrev IsLeast : ℕ → ℕ → Type 0
IsLeast n p = (e : ℕ) × (p ≡ 2 ^ e) × (n ≤ p) × ((p ≡ 1) ⊎ (p < 2 * n))

double : (e : ℕ) → 2 ^ suc e ≡ 2 * 2 ^ e
double e = omega (arith, pow-suc 2 e)

power_from-IsLeast :
    (fuel e n : ℕ)
    → n ≤ 2 ^ (e + fuel)
    → (2 ^ e ≡ 1) ⊎ (2 ^ e < 2 * n)
    → IsLeast n (power_from fuel e n)
unfolding power_from
power_from-IsLeast zero e n h lower =
    let whole : e + 0 ≡ e = omega arith in (e, refl, rw whole at h, lower)
power_from-IsLeast (suc fuel) e n h lower = elim (Bool-cases (leb n (2 ^ e))) [
  | inl reached ↦ rw reached (e, refl, ground arith, lower)
  | inr short ↦
      let shift : e + suc fuel ≡ suc e + fuel = omega arith in
      let next : 2 ^ e < n = ground arith in
      rw short (power_from-IsLeast fuel (suc e) n (rw shift at h) (inr (omega (arith, double e))))
]

-- Powers of two that differ do so by a factor of two.
pow_pos : (e : ℕ) → 0 < 2 ^ e
pow_pos zero = omega arith
pow_pos (suc e) = omega (arith, double e, pow_pos e)

pow_gap : (d e : ℕ) → 2 ^ d < 2 ^ e → 2 * 2 ^ d ≤ 2 ^ e
pow_gap zero zero h = absurd (omega arith)
pow_gap zero (suc e) h = omega (arith, double e, pow_pos e)
pow_gap (suc d) zero h = absurd (omega (arith, double d, pow_pos d))
pow_gap (suc d) (suc e) h = omega (arith, double d, double e, pow_gap d e)

half_power : (e : ℕ) → 2 ≤ 2 ^ e → (d : ℕ) × (2 ^ e ≡ 2 * 2 ^ d)
half_power zero h = absurd (omega arith)
half_power (suc e) h = (e, double e)

-- What Rust documents of `next_power_of_two`: the least power of two that is not below `n`.
abbrev pub IsNextPower : ℕ → ℕ → Type 0
IsNextPower n p = ((e : ℕ) × (p ≡ 2 ^ e)) × (n ≤ p) × ((d : ℕ) → n ≤ 2 ^ d → p ≤ 2 ^ d)

IsLeast-IsNextPower : (n p : ℕ) → IsLeast n p → IsNextPower n p
IsLeast-IsNextPower n p (e, is_power, above, least) =
    ((e, is_power), above, λ d h. by_gap d h least)
  where
    by_gap : (d : ℕ) → n ≤ 2 ^ d → (p ≡ 1) ⊎ (p < 2 * n) → p ≤ 2 ^ d
    by_gap d h (inl one) = omega (arith, pow_pos d)
    by_gap d h (inr close) = elim (Bool-cases (ltb (2 ^ d) p)) [
      | inl below ↦
          let gap = pow_gap d e (rw (← is_power) (ground arith)) in absurd (omega (arith, gap))
      | inr reached ↦ ground arith
    ]

-- The search with any fuel that reaches `n` ends at the next power of two.
power_from-IsNextPower : (fuel n : ℕ) → n ≤ 2 ^ fuel → IsNextPower n (power_from fuel 0 n)
power_from-IsNextPower fuel n h =
    let whole : 0 + fuel ≡ fuel = omega arith in
    IsLeast-IsNextPower n _ (power_from-IsLeast fuel 0 n (rw whole h) (inl refl))

IsNextPower-unique : (n p q : ℕ) → IsNextPower n p → IsNextPower n q → p ≡ q
IsNextPower-unique n p q ((d, at_p), above, least) ((e, at_q), above', least') =
    let le : p ≤ 2 ^ e = least e (omega arith) in
    let ge : q ≤ 2 ^ d = least' d (omega arith) in omega arith

-- A result that must fit a `u32`.
abbrev fitting : ℕ → Option ℕ
fitting q = if ltb q (2 ^ 32) then some q else none

fitting-eq-some : (q p : ℕ) → fitting q ≡ some p → (q ≡ p) × (p < 2 ^ 32)
fitting-eq-some q p h = ground arith

fitting_small : (q p : ℕ) → q ≡ p → p < 2 ^ 32 → fitting q ≡ some p
fitting_small q p e h = ground arith

fitting_large : (q : ℕ) → 2 ^ 32 ≤ q → fitting q ≡ none
fitting_large q h = ground arith

-- For every u32 the search for the next power of two, with its 32 rounds, gives a number exactly
-- if it is the least power of two that is not below the u32 and fits a u32 itself.
pub checked_next_power_of_two-eq-some_iff :
    (n p : ℕ)
    → n < 2 ^ 32
    → (checked_next_power_of_two n ≡ some p) ↔ (IsNextPower n p × (p < 2 ^ 32))
unfolding checked_next_power_of_two
checked_next_power_of_two-eq-some_iff n p h =
    let found = power_from-IsNextPower 32 n (omega arith) in
    (
      λ e.
          let (same, small) = fitting-eq-some (power_from 32 0 n) p e in
          (subst (IsNextPower n) same found, small),
      λ next. fitting_small (power_from 32 0 n) p (IsNextPower-unique n _ p found next.0) next.1,
    )

checked_too_large : (n : ℕ) → 2 ^ 31 < n → n < 2 ^ 32 → checked_next_power_of_two n ≡ none
unfolding checked_next_power_of_two
checked_too_large n lo hi =
    let ((e, is_power), above, least) = power_from-IsNextPower 32 n (omega arith) in
    let gap = pow_gap 31 e (rw (← is_power) (omega arith)) in
    fitting_large (power_from 32 0 n) (rw (← is_power) at gap)

period_lem :
    (count : ℕ)
    → 2 ≤ count
    → count ≤ 2 ^ 31
    → ((e : ℕ) × (period count ≡ 2 ^ e)) × (period count < count) × (count ≤ 2 * period count)
unfolding period
period_lem count lo hi =
    let (e, is_power, above, below) = power_from-IsLeast 32 0 count (omega arith) (inl refl) in
    let (d, halves) = half_power e (omega arith) in
    let small : ltb (power_from 32 0 count) (2 ^ 32) ≡ true = ground arith in
    let at_half : (power_from 32 0 count) / 2 ≡ 2 ^ d = omega arith in
    rw small ((d, at_half), omega arith, omega arith)

-- For every u32 number of kept block hashes the period of a transaction is 0 for at most one, 2
-- for more than 2 ^ 31, and for the others the power of two that is below their number and at
-- least half of it.
pub period_cases :
    (count : ℕ)
    → count < 2 ^ 32
    → (count ≤ 1 → period count ≡ 0)
      × (2 ≤ count
          → count ≤ 2 ^ 31
          → ((e : ℕ) × (period count ≡ 2 ^ e))
            × (period count < count)
            × (count ≤ 2 * period count))
      × (2 ^ 31 < count → period count ≡ 2)
unfolding period
period_cases count fits = (
  λ few.
      let one =
        (checked_next_power_of_two-eq-some_iff count 1 fits).1
          (((0, refl), few, λ d h. pow_pos d), omega arith) in
      ap halved_or_two one,
  period_lem count,
  λ many. ap halved_or_two (checked_too_large count many fits),
)
