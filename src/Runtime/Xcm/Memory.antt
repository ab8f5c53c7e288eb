-- ===== src/Runtime/Xcm/Memory.antt =====
-- Rules and converters on locations made of numbers, which show that the assumptions about them can
-- be met, and on which the examples run. Of other chains, only the relay
-- chain and siblings get a native origin, and none has an account.
use polkadot_confidential_of.Base.{
  ℕ, zero, suc, ◌≡◌, refl, Bool, true, ◌&&◌, ◌||◌, not, Option, none, some, List, [], ◌∷◌, arith,
  ◌+◌, ◌*◌, leb, if◌then◌else◌,
}
use polkadot_confidential_of.Runtime.Xcm.{
  LocationTypes, Junction, parachain, account_id32, plurality, other_junction, Location, Rules,
  OriginKind, native, sovereign_account, superuser, xcm_kind, RuntimeOrigin, signed, xcm,
  relay_location, Converters,
}
use polkadot_confidential_of.Runtime.Xcm.Barriers.{RuleLaws}
use polkadot_confidential_of.Runtime.Xcm.Origins.{ConverterLaws}
use polkadot_confidential_of.Runtime.Xcm.Weighing.{Bounds, BoundsLaws}
use polkadot_confidential_of.Runtime.Fees.{u64_max}
use polkadot_confidential_of.Runtime.Fees.Memory.{pair_weights}

abbrev pub numbers : LocationTypes
numbers = record { NetworkId = ℕ; OtherBody = ℕ; BodyPart = ℕ; AccountId = ℕ; OtherJunction = ℕ }

-- A message by what the rules see of it.
pub record Message : Type 0 where
  pub from : Location numbers
  pub to_relay : Bool  -- a reserve transfer to the relay chain
  pub credit : Bool
  pub pays : Bool
  pub unpaid : Bool

abbrev pub plain_rules : Rules numbers
plain_rules = record {
  Request = Message;
  origin = λ q. q.from;
  trailing_set_topic_as_id = λ rule q. rule q;
  deny_then_try = λ deny try q. not (deny q) && try q;
  denies_reserve_transfer_to_relay_chain = λ q. q.to_relay;
  take_weight_credit = λ q. q.credit;
  with_computed_origin = λ rule universal n q. rule q;
  allow_top_level_paid_execution_from = λ from q. from q.from && q.pays;
  allow_explicit_unpaid_execution_from = λ from q. from q.from && q.unpaid;
  either = λ first second q. first q || second q;
}

abbrev pub plain_rules-RuleLaws : RuleLaws numbers plain_rules
plain_rules-RuleLaws = record {
  without_topic = λ q. q;
  describes_origin = λ n q. true;
  described = λ universal n q. q;
  buys_execution = λ q. q.pays;
  declares_unpaid = λ q. q.unpaid;
  topic_lem = λ rule q. refl;
  deny_lem = λ deny try q. refl;
  either_lem = λ first second q. refl;
  computed_lem = λ rule universal n q. refl;
  paid_lem = λ from q. refl;
  unpaid_lem = λ from q. refl;
}

abbrev pub as_account : Option ℕ → OriginKind → Option (RuntimeOrigin numbers)
as_account none k = none
as_account (some a) sovereign_account = some (signed a)
as_account (some a) native = none
as_account (some a) superuser = none
as_account (some a) xcm_kind = none

abbrev pub as_relay :
    RuntimeOrigin numbers
    → ℕ
    → List (Junction numbers)
    → OriginKind
    → Option (RuntimeOrigin numbers)
as_relay chain (suc zero) [] native = some chain
as_relay chain (suc zero) [] sovereign_account = none
as_relay chain (suc zero) [] superuser = none
as_relay chain (suc zero) [] xcm_kind = none
as_relay chain (suc zero) (j ∷ js) k = none
as_relay chain (suc (suc n)) js k = none
as_relay chain zero js k = none

abbrev pub as_xcm : Location numbers → OriginKind → Option (RuntimeOrigin numbers)
as_xcm l native = none
as_xcm l sovereign_account = none
as_xcm l superuser = none
as_xcm l xcm_kind = some (xcm l)

abbrev pub if_native : {A : Type 0} → OriginKind → Option A → Option A
if_native native o = o
if_native sovereign_account o = none
if_native superuser o = none
if_native xcm_kind o = none

-- The id of a sibling chain, and the account of a location that is one on this chain.
abbrev pub as_sibling :
    (ℕ → RuntimeOrigin numbers) → ℕ → List (Junction numbers) → Option (RuntimeOrigin numbers)
as_sibling f (suc zero) (parachain id ∷ []) = some (f id)
as_sibling f (suc zero) [] = none
as_sibling f (suc zero) (parachain id ∷ j ∷ js) = none
as_sibling f (suc zero) (account_id32 network a ∷ js) = none
as_sibling f (suc zero) (plurality b p ∷ js) = none
as_sibling f (suc zero) (other_junction o ∷ js) = none
as_sibling f zero js = none
as_sibling f (suc (suc n)) js = none

abbrev pub own_account : ℕ → List (Junction numbers) → Option ℕ
own_account (suc n) js = none
own_account zero [] = none
own_account zero (parachain id ∷ js) = none
own_account zero (account_id32 none a ∷ []) = some a
own_account zero (account_id32 none a ∷ j ∷ js) = none
own_account zero (account_id32 (some network) a ∷ js) = none
own_account zero (plurality b p ∷ js) = none
own_account zero (other_junction o ∷ js) = none

abbrev pub as_signed : Option ℕ → Option (RuntimeOrigin numbers)
as_signed none = none
as_signed (some a) = some (signed a)

abbrev pub plain_converters : Converters numbers
plain_converters = record {
  parent_is_preset = λ l. none;
  sibling_parachain_converts_via = λ l. none;
  account_id32_aliases = λ network l. own_account l.parents l.interior;
  sovereign_signed_via_location = λ f l k. as_account (f l) k;
  relay_chain_as_native = λ chain l k. as_relay chain l.parents l.interior k;
  sibling_parachain_as_native = λ f l k. if_native k (as_sibling f l.parents l.interior);
  signed_account_id32_as_native =
      λ network l k. if_native k (as_signed (own_account l.parents l.interior));
  xcm_passthrough = as_xcm;
}

as_account_lem :
    (x : Option ℕ) (k : OriginKind) (o : RuntimeOrigin numbers)
    → as_account x k ≡ some o
    → (a : ℕ) × (k ≡ sovereign_account) × (x ≡ some a) × (o ≡ signed a)
as_account_lem none k o h = cc
as_account_lem (some a) sovereign_account o h = (a, refl, refl, ground arith)
as_account_lem (some a) native o h = cc
as_account_lem (some a) superuser o h = cc
as_account_lem (some a) xcm_kind o h = cc

as_relay_lem :
    (chain : RuntimeOrigin numbers) (n : ℕ) (js : List (Junction numbers)) (k : OriginKind)
    (o : RuntimeOrigin numbers)
    → as_relay chain n js k ≡ some o
    → (k ≡ native)
      × (Path (Location numbers) (record { parents = n; interior = js }) (relay_location numbers))
      × (o ≡ chain)
as_relay_lem chain (suc zero) [] native o h = (refl, refl, ground arith)
as_relay_lem chain (suc zero) [] sovereign_account o h = cc
as_relay_lem chain (suc zero) [] superuser o h = cc
as_relay_lem chain (suc zero) [] xcm_kind o h = cc
as_relay_lem chain (suc zero) (j ∷ js) k o h = cc
as_relay_lem chain (suc (suc n)) js k o h = cc
as_relay_lem chain zero js k o h = cc

as_sibling_lem :
    (f : ℕ → RuntimeOrigin numbers) (n : ℕ) (js : List (Junction numbers)) (k : OriginKind)
    (o : RuntimeOrigin numbers)
    → if_native k (as_sibling f n js) ≡ some o
    → (id : ℕ) × (k ≡ native)
      × (Path
          (Location numbers)
          (record { parents = n; interior = js })
          (record { parents = 1; interior = parachain id ∷ [] }))
      × (o ≡ f id)
as_sibling_lem f (suc zero) (parachain id ∷ []) native o h = (id, refl, refl, ground arith)
as_sibling_lem f (suc zero) [] native o h = cc
as_sibling_lem f (suc zero) (parachain id ∷ j ∷ js) native o h = cc
as_sibling_lem f (suc zero) (account_id32 network a ∷ js) native o h = cc
as_sibling_lem f (suc zero) (plurality b p ∷ js) native o h = cc
as_sibling_lem f (suc zero) (other_junction j ∷ js) native o h = cc
as_sibling_lem f zero js native o h = cc
as_sibling_lem f (suc (suc n)) js native o h = cc
as_sibling_lem f n js sovereign_account o h = cc
as_sibling_lem f n js superuser o h = cc
as_sibling_lem f n js xcm_kind o h = cc

as_signed_lem :
    (n : ℕ) (js : List (Junction numbers)) (k : OriginKind) (o : RuntimeOrigin numbers)
    → if_native k (as_signed (own_account n js)) ≡ some o
    → (a : ℕ) × (k ≡ native)
      × (Path
          (Location numbers)
          (record { parents = n; interior = js })
          (record { parents = 0; interior = account_id32 none a ∷ [] }))
      × (o ≡ signed a)
as_signed_lem zero (account_id32 none a ∷ []) native o h = (a, refl, refl, ground arith)
as_signed_lem zero [] native o h = cc
as_signed_lem zero (parachain id ∷ js) native o h = cc
as_signed_lem zero (account_id32 none a ∷ j ∷ js) native o h = cc
as_signed_lem zero (account_id32 (some network) a ∷ js) native o h = cc
as_signed_lem zero (plurality b p ∷ js) native o h = cc
as_signed_lem zero (other_junction j ∷ js) native o h = cc
as_signed_lem (suc n) js native o h = cc
as_signed_lem n js sovereign_account o h = cc
as_signed_lem n js superuser o h = cc
as_signed_lem n js xcm_kind o h = cc

as_xcm_lem :
    (l : Location numbers) (k : OriginKind) (o : RuntimeOrigin numbers)
    → as_xcm l k ≡ some o
    → (k ≡ xcm_kind) × (o ≡ xcm l)
as_xcm_lem l native o h = cc
as_xcm_lem l sovereign_account o h = cc
as_xcm_lem l superuser o h = cc
as_xcm_lem l xcm_kind o h = (refl, ground arith)

pub plain_converters-ConverterLaws : ConverterLaws numbers plain_converters
plain_converters-ConverterLaws = record {
  sovereign_lem = λ f l k o h. as_account_lem (f l) k o h;
  relay_lem = λ chain l k o h. as_relay_lem chain l.parents l.interior k o h;
  sibling_lem = λ f l k o h. as_sibling_lem f l.parents l.interior k o h;
  signed_lem = λ l k o h. as_signed_lem l.parents l.interior k o h;
  passthrough_lem = as_xcm_lem;
}

abbrev pub within_u64 : ℕ → ℕ → Option (ℕ × ℕ)
within_u64 a c = if leb a u64_max then (if leb c u64_max then some (a, c) else none) else none

-- The numbers of instructions and the weights that the calls ask for, in place of messages.
abbrev pub counted : Bounds pair_weights
counted = record {
  Message = ℕ × (ℕ × ℕ);
  fixed_weight_bounds =
      λ u n m. if leb m.0 n then within_u64 (m.0 * u.0 + m.1.0) (m.0 * u.1 + m.1.1) else none;
}

abbrev pub counted_laws : BoundsLaws pair_weights counted
counted_laws = record {
  count = λ m. m.0;
  called = λ m. m.1;
  weighed = λ u n m fits time proof.
      ((m.0 * u.0 + m.1.0, m.0 * u.1 + m.1.1), ground (arith, fits, time, proof), refl, refl);
  too_many = λ u n m more. ground arith;
}
