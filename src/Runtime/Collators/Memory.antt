-- ===== src/Runtime/Collators/Memory.antt =====
-- The documented tests of pallet-session and pallet-collator-selection, and checks on the locations
-- made of numbers, for the examples.
use polkadot_confidential_of.Base.{
  ℕ, zero, suc, ◌-◌, ◌%◌, ◌≡◌, refl, Bool, true, false, ◌&&◌, ◌||◌, ◌==◌, leb, List, [], ◌∷◌, arith,
}
use polkadot_confidential_of.Runtime.Xcm.{
  BodyId, defense, Junction, plurality, Location, RuntimeOrigin, root, signed, relay,
  sibling_parachain, xcm, unsigned, response,
}
use polkadot_confidential_of.Runtime.Xcm.Memory.{numbers}
use polkadot_confidential_of.Runtime.Collators.{SessionPallets, OriginChecks}
use polkadot_confidential_of.Runtime.Collators.Sessions.{SessionLaws}
use polkadot_confidential_of.Runtime.Collators.Updates.{CheckLaws}

abbrev pub plain_sessions : SessionPallets
plain_sessions = record {
  periodic_end = λ period offset now. leb offset now && ((now - offset) % period == 0);
  is_lazy = λ threshold now last. leb threshold (now - last);
}

pub plain_sessions-SessionLaws : SessionLaws plain_sessions
plain_sessions-SessionLaws = record {
  periodic_lem = λ period offset now h. ground arith;
  lazy_lem = λ threshold now last. ground arith;
}

abbrev pub is_root : RuntimeOrigin numbers → Bool
is_root root = true
is_root (signed a) = false
is_root unsigned = false
is_root relay = false
is_root (sibling_parachain id) = false
is_root (xcm l) = false
is_root (response l) = false

abbrev pub passes : (Location numbers → Bool) → RuntimeOrigin numbers → Bool
passes f root = false
passes f (signed a) = false
passes f unsigned = false
passes f relay = false
passes f (sibling_parachain id) = false
passes f (xcm l) = f l
passes f (response l) = false

-- Only the defense body is looked for; it speaks with the part zero.
abbrev pub speaks : BodyId ℕ → ℕ → List (Junction numbers) → Bool
speaks defense (suc zero) (plurality defense zero ∷ []) = true
speaks body n js = false

abbrev pub plain_checks : OriginChecks numbers
plain_checks = record {
  voice = 0;
  ensure_root = is_root;
  ensure_xcm = passes;
  is_voice_of_body = λ prefix body l. speaks body l.parents l.interior;
  either_of_diverse = λ f g o. f o || g o;
}

is_root_lem : (o : RuntimeOrigin numbers) → is_root o ≡ true → o ≡ root
is_root_lem root h = refl
is_root_lem (signed a) h = cc
is_root_lem unsigned h = cc
is_root_lem relay h = cc
is_root_lem (sibling_parachain id) h = cc
is_root_lem (xcm l) h = cc
is_root_lem (response l) h = cc

passes_lem :
    (f : Location numbers → Bool) (o : RuntimeOrigin numbers)
    → passes f o ≡ true
    → (l : Location numbers) × (o ≡ xcm l) × (f l ≡ true)
passes_lem f root h = cc
passes_lem f (signed a) h = cc
passes_lem f unsigned h = cc
passes_lem f relay h = cc
passes_lem f (sibling_parachain id) h = cc
passes_lem f (xcm l) h = (l, refl, h)
passes_lem f (response l) h = cc

speaks_lem :
    (body : BodyId ℕ) (n : ℕ) (js : List (Junction numbers))
    → speaks body n js ≡ true
    → Path
        (Location numbers)
        (record { parents = n; interior = js })
        (record { parents = 1; interior = plurality body 0 ∷ [] })
speaks_lem defense (suc zero) (plurality defense zero ∷ []) h = refl
speaks_lem body n js h = ground arith

pub plain_checks-CheckLaws : CheckLaws numbers plain_checks
plain_checks-CheckLaws = record {
  root_lem = is_root_lem;
  xcm_lem = passes_lem;
  voice_lem = λ body l h. speaks_lem body l.parents l.interior h;
  either_lem = λ f g o. refl;
}
