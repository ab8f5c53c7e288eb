-- ===== src/Runtime/Xcm/AssetMemory.antt =====
-- An adapter on balances of numbers and a trader for one asset, which show that the assumptions about
-- them can be met.
use polkadot_confidential_of.Base.{
  ℕ, zero, suc, ◌+◌, ◌-◌, ◌≤◌, ◌<◌, ◌≡◌, ◌≢◌, ◌↔◌, ◌==◌, refl, ap, Bool, true, false, Option, none,
  some, List, [], ◌∷◌, arith, leb, if◌then◌else◌, Exec, returned, failed,
}
use polkadot_confidential_of.Runtime.{existential_deposit}
use polkadot_confidential_of.Runtime.Fees.Memory.{pair_weights}
use polkadot_confidential_of.Runtime.Limits.Memory.{pair_builder}
use polkadot_confidential_of.Runtime.Charges.Memory.{plain_charging}
use polkadot_confidential_of.Runtime.Xcm.{Junction, Location, relay_location}
use polkadot_confidential_of.Runtime.Xcm.Memory.{numbers, plain_converters}
use polkadot_confidential_of.Runtime.Xcm.Assets.{
  Fungibility, fungible, non_fungible, Adapters, Traders,
}
use polkadot_confidential_of.Runtime.Xcm.Accounts.{AdapterLaws}
use polkadot_confidential_of.Runtime.Xcm.Prices.{TraderLaws}

abbrev pub Accounts : Type 0
Accounts = ℕ → ℕ

-- What is done if there is enough.
abbrev pub if_enough : Bool → Accounts → Exec Accounts ℕ (Unit {0})
if_enough true w' w = (returned tt, w')
if_enough false w' w = (failed 0, w)

abbrev pub with_balance : ℕ → ℕ → Accounts → Accounts
with_balance a n w b = if b == a then n else w b

abbrev pub withdraw : Option ℕ → Option ℕ → Exec Accounts ℕ (Unit {0})
withdraw none o w = (failed 1, w)
withdraw (some n) none w = (failed 2, w)
withdraw (some n) (some a) w = if_enough (leb n (w a)) (with_balance a (w a - n) w) w

abbrev pub deposit : Option ℕ → Option ℕ → Exec Accounts ℕ (Unit {0})
deposit none o w = (failed 1, w)
deposit (some n) none w = (failed 2, w)
deposit (some n) (some a) w = (returned tt, with_balance a (w a + n) w)

-- The amount of the asset of the relay chain.
abbrev pub amount : ℕ → List (Junction numbers) → Fungibility ℕ → Option ℕ
amount (suc zero) [] (fungible n) = some n
amount (suc zero) [] (non_fungible i) = none
amount (suc zero) (j ∷ js) f = none
amount zero js f = none
amount (suc (suc k)) js f = none

abbrev pub plain_adapters : Adapters numbers
plain_adapters = record {
  Instance = ℕ;
  World = Accounts;
  Error = ℕ;
  Currency = Unit {0};
  Checking = Unit {0};
  balances = tt;
  no_account = tt;
  is_concrete = λ l x. amount x.id.parents x.id.interior x.fun;
  fungible_adapter = λ currency match account checking. record {
    withdraw_asset = λ x who. withdraw (match x) (account who);
    deposit_asset = λ x who. deposit (match x) (account who);
  };
}

if_enough_lem :
    (b : Bool) (v w w' : Accounts)
    → if_enough b v w ≡ (returned tt, w')
    → (b ≡ true) × ((a : ℕ) → v a ≡ w' a)
if_enough_lem true v w w' h = (refl, λ a. ap (λ r. r.1 a) h)
if_enough_lem false v w w' h = cc

withdrawn_lem :
    (m o : Option ℕ) (w w' : Accounts)
    → withdraw m o w ≡ (returned tt, w')
    → (n : ℕ) × (a : ℕ) × (m ≡ some n)
      × (o ≡ some a)
      × (w' a + n ≤ w a)
      × (existential_deposit + n ≤ w a → w' a + n ≡ w a)
      × ((b : ℕ) → b ≢ a → w' b ≡ w b)
withdrawn_lem none o w w' h = cc
withdrawn_lem (some n) none w w' h = cc
withdrawn_lem (some n) (some a) w w' h =
    let (enough, now) = if_enough_lem (leb n (w a)) (with_balance a (w a - n) w) w w' h in
    let at = now a in
    (
      n,
      a,
      refl,
      refl,
      ground (arith, at, enough),
      λ more. ground (arith, at, enough),
      λ b ne. let e = now b in ground (arith, e, ne),
    )

deposited_lem :
    (m o : Option ℕ) (w w' : Accounts)
    → deposit m o w ≡ (returned tt, w')
    → (n : ℕ) × (a : ℕ) × (m ≡ some n)
      × (o ≡ some a)
      × (w' a ≡ w a + n)
      × ((b : ℕ) → b ≢ a → w' b ≡ w b)
deposited_lem none o w w' h = cc
deposited_lem (some n) none w w' h = cc
deposited_lem (some n) (some a) w w' h =
    let now : (b : ℕ) → with_balance a (w a + n) w b ≡ w' b = λ b. ap (λ r. r.1 b) h in
    let at = now a in
    (n, a, refl, refl, ground (arith, at), λ b ne. let e = now b in ground (arith, e, ne))

amount_lem :
    (k : ℕ) (js : List (Junction numbers)) (f : Fungibility ℕ) (n : ℕ)
    → (amount k js f ≡ some n) ↔ (
        Path (Location numbers) (record { parents = k; interior = js }) (relay_location numbers)
        × (f ≡ fungible n))
amount_lem (suc zero) [] (fungible m) n = (λ h. (refl, ground arith), λ h. ground (arith, h.1))
amount_lem (suc zero) [] (non_fungible i) n = (λ h. cc, λ h. cc h.1)
amount_lem (suc zero) (j ∷ js) f n = (λ h. cc, λ h. cc h.0)
amount_lem zero js f n = (λ h. cc, λ h. cc h.0)
amount_lem (suc (suc k)) js f n = (λ h. cc, λ h. cc h.0)

pub plain_adapters_laws : AdapterLaws numbers plain_adapters plain_converters
plain_adapters_laws = record {
  balance = λ w a. w a;
  concrete_lem = λ x n. amount_lem x.id.parents x.id.interior x.fun n;
  withdrawn = λ match account x who w w' h. withdrawn_lem (match x) (account who) w w' h;
  deposited = λ match account x who w w' h. deposited_lem (match x) (account who) w w' h;
  sovereign_signed = λ account l own e. rw e;
}

-- How much a holding of the relay chain's asset has of that at a location.
abbrev pub held_at : ℕ → ℕ → List (Junction numbers) → ℕ
held_at h (suc zero) [] = h
held_at h (suc zero) (j ∷ js) = 0
held_at h zero js = 0
held_at h (suc (suc k)) js = 0

abbrev pub plain_traders : Traders numbers pair_weights
plain_traders = record {
  Holding = ℕ;
  using_components = λ fee l w h. if leb (fee w) h then some (h - fee w) else none;
}

pub held_at_ne :
    (h h' k : ℕ) (js : List (Junction numbers))
    → ¬ (Path (Location numbers) (record { parents = k; interior = js }) (relay_location numbers))
    → held_at h k js ≡ held_at h' k js
held_at_ne h h' (suc zero) [] ne = absurd (ne refl)
held_at_ne h h' (suc zero) (j ∷ js) ne = refl
held_at_ne h h' zero js ne = refl
held_at_ne h h' (suc (suc k)) js ne = refl

pub sold_if_enough :
    (fee h : ℕ)
    → fee ≤ h
    → ((if leb fee h then some (h - fee) else none) ≡ some (h - fee)) × (h - fee + fee ≡ h)
sold_if_enough fee h enough = (ground (arith, enough), omega (arith, enough))

pub not_sold :
    (fee h : ℕ) → h < fee → Path (Option ℕ) (if leb fee h then some (h - fee) else none) none
not_sold fee h poor = ground (arith, poor)

abbrev pub plain_traders_laws :
    TraderLaws numbers pair_weights pair_builder plain_charging plain_traders
plain_traders_laws = record {
  held = λ h l. held_at h l.parents l.interior;
  bought = λ fee w h positive enough.
      let (sold, paid) = sold_if_enough (fee w) h enough in
      (h - fee w, sold, paid, λ l ne. held_at_ne (h - fee w) h l.parents l.interior ne);
  too_expensive = λ fee w h poor. not_sold (fee w) h poor;
}
