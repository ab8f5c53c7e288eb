-- ===== src/Runtime/Messages/Memory.antt =====
-- An executor that makes one call for each message, which shows that the assumptions can be met.
use polkadot_confidential_of.Base.{
  ℕ, ◌≡◌, refl, Bool, true, false, Option, none, some, List, [], ◌∷◌, ◌++◌, All,
}
use polkadot_confidential_of.Runtime.Fees.Memory.{pair_weights}
use polkadot_confidential_of.Runtime.Xcm.{RuntimeOrigin, native}
use polkadot_confidential_of.Runtime.Xcm.Executor.{Config, Executor, ExecutorLaws, unchanged}
use polkadot_confidential_of.Runtime.Xcm.Memory.{
  numbers, plain_rules, plain_rules-RuleLaws, plain_converters, counted,
}
use polkadot_confidential_of.Runtime.Messages.{AggregateMessageOrigin}

-- The number of the instructions and the weight that the calls ask for.
abbrev pub Sized : Type 0
Sized = ℕ × (ℕ × ℕ)

pub record Chain : Type 0 where
  pub waiting : List (AggregateMessageOrigin × Sized)
  pub made : List (RuntimeOrigin numbers)

abbrev pub Settings : Type 0
Settings = Config numbers pair_weights Sized ℕ ℕ

abbrev pub call : Option (RuntimeOrigin numbers) → Chain → Chain
call none w = w
call (some o) w = record w { made = o ∷ w.made }

abbrev pub gated : Option (ℕ × ℕ) → Bool → Option (RuntimeOrigin numbers) → Chain → Chain
gated none pass o w = w
gated (some v) false o w = w
gated (some v) true o w = call o w

abbrev pub one_call : Executor numbers pair_weights plain_rules counted
one_call = record {
  World = Chain;
  Asset = ℕ;
  Call = ℕ;
  native_asset = λ asset from. true;
  request = λ from m. record {
    from = from;
    to_relay = false;
    credit = false;
    pays = true;
    unpaid = false;
  };
  execute = λ g l m w. gated (g.weigher m) (g.should_execute l m) (g.origin_converter l native) w;
}

pub gated_new :
    (P : RuntimeOrigin numbers → Type 0) (v : Option (ℕ × ℕ)) (pass : Bool)
    (o : Option (RuntimeOrigin numbers)) (w : Chain)
    → ((a : RuntimeOrigin numbers) → o ≡ some a → P a)
    → (new : List (RuntimeOrigin numbers)) × ((gated v pass o w).made ≡ new ++ w.made) × All P new
gated_new P none pass o w f = ([], refl, tt)
gated_new P (some v) false o w f = ([], refl, tt)
gated_new P (some v) true none w f = ([], refl, tt)
gated_new P (some v) true (some a) w f = (a ∷ [], refl, (f a refl, tt))

pub gated_waiting :
    (v : Option (ℕ × ℕ)) (pass : Bool) (o : Option (RuntimeOrigin numbers)) (w : Chain)
    → (gated v pass o w).waiting ≡ w.waiting
gated_waiting none pass o w = refl
gated_waiting (some v) false o w = refl
gated_waiting (some v) true none w = refl
gated_waiting (some v) true (some a) w = refl

pub gated_unweighed :
    (v : Option (ℕ × ℕ)) (pass : Bool) (o : Option (RuntimeOrigin numbers)) (w : Chain)
    → v ≡ none
    → (gated v pass o w).made ≡ w.made
gated_unweighed none pass o w h = refl
gated_unweighed (some v) pass o w h = cc

pub gated_refused :
    (v : Option (ℕ × ℕ)) (pass : Bool) (o : Option (RuntimeOrigin numbers)) (w : Chain)
    → pass ≡ false
    → (gated v pass o w).made ≡ w.made
gated_refused none pass o w h = refl
gated_refused (some v) true o w h = cc
gated_refused (some v) false o w h = refl

abbrev pub one_call_laws :
    ExecutorLaws numbers pair_weights plain_rules plain_converters counted one_call
      plain_rules-RuleLaws
one_call_laws = record {
  dispatched = λ w. w.made;
  unweighed = λ g l m w h. gated_unweighed (g.weigher m) _ _ w h;
  refused = λ g l m w h. gated_refused (g.weigher m) _ _ w h;
  executed = λ g l m w.
      gated_new _ (g.weigher m) (g.should_execute l m) (g.origin_converter l native) w
        (λ a h. (l, native, unchanged, h));
  no_credit = λ l m. refl;
}
