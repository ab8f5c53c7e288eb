-- ===== src/Runtime/Xcm/RouteMemory.antt =====
-- Routers and senders on locations made of numbers, which show that the assumptions can be met.
use polkadot_confidential_of.Base.{
  ℕ, zero, suc, ◌+◌, ◌≡◌, ◌≢◌, refl, Option, none, some, List, [], ◌∷◌,
}
use polkadot_confidential_of.Runtime.Xcm.{
  Junction, parachain, account_id32, plurality, other_junction, Location, RuntimeOrigin, root,
  relay, sibling_parachain, signed, xcm, relay_location, unsigned, response,
}
use polkadot_confidential_of.Runtime.Xcm.Routes.{Routed, not_applicable, routed, Routers, Senders}
use polkadot_confidential_of.Runtime.Xcm.Outgoing.{RouterLaws, SenderLaws}
use polkadot_confidential_of.Runtime.Xcm.Memory.{numbers, plain_converters}

-- Messages go up as numbers and sideways as numbers; a topic adds one.
abbrev pub to_parent : ℕ → List (Junction numbers) → ℕ → Routed ℕ (ℕ × ℕ)
to_parent (suc zero) [] m = routed (0, m)
to_parent (suc zero) (j ∷ js) m = not_applicable
to_parent zero js m = not_applicable
to_parent (suc (suc n)) js m = not_applicable

abbrev pub to_sibling : ℕ → List (Junction numbers) → ℕ → Routed ℕ (ℕ × ℕ)
to_sibling (suc zero) (parachain id ∷ []) m = routed (id, m)
to_sibling (suc zero) (parachain id ∷ j ∷ js) m = not_applicable
to_sibling (suc zero) [] m = not_applicable
to_sibling (suc zero) (account_id32 network a ∷ js) m = not_applicable
to_sibling (suc zero) (plurality b p ∷ js) m = not_applicable
to_sibling (suc zero) (other_junction j ∷ js) m = not_applicable
to_sibling zero js m = not_applicable
to_sibling (suc (suc n)) js m = not_applicable

abbrev pub plain_routers : Routers numbers
plain_routers = record {
  Message = ℕ;
  Error = ℕ;
  Ticket = ℕ × ℕ;
  World = ℕ;
  parent_as_ump = λ to m w. to_parent to.parents to.interior m;
  xcmp_queue = λ to m w. to_sibling to.parents to.interior m;
  with_unique_topic = λ route to m w. route to (m + 1) w;
}

pub to_parent_only :
    (n : ℕ) (js : List (Junction numbers)) (m : ℕ)
    → ¬ (Path (Location numbers) (record { parents = n; interior = js }) (relay_location numbers))
    → to_parent n js m ≡ not_applicable
to_parent_only (suc zero) [] m h = absurd (h refl)
to_parent_only (suc zero) (j ∷ js) m h = refl
to_parent_only zero js m h = refl
to_parent_only (suc (suc n)) js m h = refl

pub to_sibling_only :
    (n : ℕ) (js : List (Junction numbers)) (m : ℕ)
    → ((id : ℕ)
        → ¬ (
            Path
              (Location numbers)
              (record { parents = n; interior = js })
              (record { parents = 1; interior = parachain id ∷ [] })))
    → to_sibling n js m ≡ not_applicable
to_sibling_only (suc zero) (parachain id ∷ []) m h = absurd (h id refl)
to_sibling_only (suc zero) (parachain id ∷ j ∷ js) m h = refl
to_sibling_only (suc zero) [] m h = refl
to_sibling_only (suc zero) (account_id32 network a ∷ js) m h = refl
to_sibling_only (suc zero) (plurality b p ∷ js) m h = refl
to_sibling_only (suc zero) (other_junction j ∷ js) m h = refl
to_sibling_only zero js m h = refl
to_sibling_only (suc (suc n)) js m h = refl

abbrev pub of_signed : Option ℕ → RuntimeOrigin numbers → Option (Location numbers)
of_signed network (signed a) = some (record { parents = 0; interior = account_id32 network a ∷ [] })
of_signed network root = none
of_signed network unsigned = none
of_signed network relay = none
of_signed network (sibling_parachain id) = none
of_signed network (xcm l) = none
of_signed network (response l) = none

abbrev pub or_here : Option (Location numbers) → RuntimeOrigin numbers → Option (Location numbers)
or_here (some l) o = some l
or_here none root = some (record { parents = 0; interior = [] })
or_here none (signed a) = none
or_here none unsigned = none
or_here none relay = none
or_here none (sibling_parachain id) = none
or_here none (xcm l) = none
or_here none (response l) = none

abbrev pub plain_senders : Senders numbers
plain_senders = record {
  signed_to_account_id32 = of_signed;
  ensure_xcm_origin = λ f o. or_here (f o) o;
}

of_others :
    (network : Option ℕ) (o : RuntimeOrigin numbers)
    → ((a : ℕ) → o ≢ signed a)
    → of_signed network o ≡ none
of_others network (signed a) h = absurd (h a refl)
of_others network root h = refl
of_others network unsigned h = refl
of_others network relay h = refl
of_others network (sibling_parachain id) h = refl
of_others network (xcm l) h = refl
of_others network (response l) h = refl

ensured_none :
    (x : Option (Location numbers)) (o : RuntimeOrigin numbers)
    → o ≢ root
    → x ≡ none
    → or_here x o ≡ none
ensured_none none root h e = absurd (h refl)
ensured_none none (signed a) h e = refl
ensured_none none unsigned h e = refl
ensured_none none relay h e = refl
ensured_none none (sibling_parachain id) h e = refl
ensured_none none (xcm l) h e = refl
ensured_none none (response l) h e = refl
ensured_none (some l) o h e = cc

abbrev pub plain_routers_laws : RouterLaws numbers plain_routers
plain_routers_laws = record {
  with_topic = λ m w. m + 1;
  topic_lem = λ route to m w. refl;
  up_only = λ to m w h. to_parent_only to.parents to.interior m h;
  up = λ m w h. cc;
  sideways_only = λ to m w h. to_sibling_only to.parents to.interior m h;
  sideways = λ id m w h. cc;
}

pub plain_senders_laws : SenderLaws numbers plain_senders plain_converters
plain_senders_laws = record {
  of_signed = λ network a. refl;
  of_others = of_others;
  ensured = λ f o l e. rw e;
  ensured_root = λ f e. rw e;
  ensured_none = λ f o h e. ensured_none (f o) o h e;
  signed_back = λ a. refl;
  alias = λ a. refl;
  preset_only = λ l a h. cc;
  sibling_only = λ l a h. cc;
}
