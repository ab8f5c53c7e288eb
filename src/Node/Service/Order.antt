-- ===== src/Node/Service/Order.antt =====
-- Node starts of node/src/service.rs: how they end, and which actions they add.
use mathlib.Core.Path.{subst}
use polkadot_confidential_of.Base.{
  ℕ, ◌≡◌, refl, sym, append_assoc, ◌⊎◌, inl, inr, String, Bool, true, false, Option, none, some,
  List, [], ◌∷◌, ◌++◌, Ended, returned, failed, panicked, pure, modify, All, All-append, All-first,
  if◌then◌else◌,
}
use polkadot_confidential_of.Node.{
  ◌>>=◌, ◌>>◌, collator, full_node, Action, make_pool, make_network, make_offchain_workers,
  warn_hardware, make_aura, start_network, start_relay_tasks, Trace, Platform, Configuration,
}
use polkadot_confidential_of.Node.Traces.{Done, whole, failed_after, panicked_after, Any}
use polkadot_confidential_of.Node.Service.{Libraries, non_empty}
use polkadot_confidential_of.Node.Service.Start.{
  Network, prepare_parachain_node, start_parachain_node, relay_chain_slot_duration,
}
use polkadot_confidential_of.Node.Service.Plan.{
  if_some, joined, hardware_plan, hardware_parts, partial_parts, node_parts, node_plan,
  prepare-Does,
}

module _ {E A : Type 0} where
  -- A start returns after a whole plan and the start of the network; else it did a first part of
  -- the plan, without the network.
  pub data Started (plan t : Trace) : Ended E A × Trace → Type 0 where
    running : {a : A} → Started plan t (returned a, t ++ plan ++ (start_network ∷ []))
    stopped :
        {e : E} (acts rest : Trace) → acts ++ rest ≡ plan → Started plan t (failed e, t ++ acts)
    crashed :
        {msg : String} (acts rest : Trace)
        → acts ++ rest ≡ plan
        → Started plan t (panicked msg, t ++ acts)

  finished :
      (plan t : Trace) (r : Ended E A × Trace)
      → Done Any plan t r
      → Started plan t
          (((λ u. r) >>= λ a. modify {E = E} (λ acts. acts ++ (start_network ∷ [])) >> pure a) t)
  unfolding ◌>>=◌
  finished plan t _ (whole h) = running
  finished plan t _ (failed_after acts rest h) = stopped acts rest h
  finished plan t _ (panicked_after acts rest h) = crashed acts rest h

module _ (p : Platform) (lib : Libraries p) (net : Network p) where
  -- However the libraries answer, the start of a node follows the plan of its prepared
  -- configuration in its order: a start that returns has done the whole plan and then started
  -- the network, one that fails or panics has done a first part of the plan and has not started
  -- the network.
  pub start_parachain_node-Started :
      (config polkadot_config : Configuration p) (options : net.CollatorOptions) (para_id : ℕ)
      (hwbench : Option net.HwBench) (t : Trace)
      → Started
          (node_plan net (net.prepare_node_config config) para_id hwbench)
          t
          (start_parachain_node p lib net config polkadot_config options para_id hwbench t)
  unfolding start_parachain_node ◌>>=◌
  start_parachain_node-Started config polkadot_config options para_id hwbench t =
      finished (node_plan net (net.prepare_node_config config) para_id hwbench) t
        (prepare_parachain_node p lib net (net.prepare_node_config config) polkadot_config options
          para_id hwbench t)
        (prepare-Does p lib net (net.prepare_node_config config) polkadot_config options para_id
          hwbench t)

-- What a node of a configuration may do before its network is started.
pub Allowed : {p : Platform} → Configuration p → ℕ → Action → Type 0
Allowed config para_id (make_offchain_workers validator http) =
    (config.offchain_worker_enabled ≡ true) × (validator ≡ config.is_authority) × (http ≡ false)
Allowed config para_id warn_hardware = config.is_authority ≡ true
Allowed config para_id (make_aura id slot authoring reinitialize) =
    (config.is_authority ≡ true) × (id ≡ para_id) × (reinitialize ≡ false)
Allowed config para_id (start_relay_tasks id collator slot) =
    (config.is_authority ≡ true) × (id ≡ para_id)
Allowed config para_id (start_relay_tasks id full_node slot) =
    (config.is_authority ≡ false) × (id ≡ para_id)
Allowed config para_id (make_network id) = id ≡ para_id
Allowed config para_id (make_pool authority) = authority ≡ config.is_authority
Allowed config para_id start_network = ⊥
Allowed config para_id _ = Unit

module _ (P : Action → Type 0) where
  pub All-joined : (parts : List Trace) → All (All P) parts → All P (joined parts)
  All-joined [] h = tt
  All-joined (acts ∷ parts) h = All-append P acts (joined parts) h.0 (All-joined parts h.1)

  All-when : (b : Bool) (acts : Trace) → (b ≡ true → All P acts) → All P (if b then acts else [])
  All-when true acts h = h refl
  All-when false acts h = tt

  All-unless : (b : Bool) (acts : Trace) → All P acts → All P (if b then [] else acts)
  All-unless true acts h = tt
  All-unless false acts h = h

  pub All-if_some : {A : Type 0} (o : Option A) (acts : Trace) → All P acts → All P (if_some o acts)
  All-if_some none acts h = tt
  All-if_some (some a) acts h = h

module _ {p : Platform} (net : Network p) (config : Configuration p) (para_id : ℕ) where
  abbrev P : Action → Type 0
  P = Allowed config para_id

  profile_Allowed :
      (b : Bool)
      → config.is_authority ≡ b
      → Allowed config para_id
          (start_relay_tasks para_id (if b then collator else full_node) relay_chain_slot_duration)
  unfolding Allowed
  profile_Allowed true h = (h, refl)
  profile_Allowed false h = (h, refl)

  hardware_Allowed :
      (hwbench : Option net.HwBench)
      → All (Allowed config para_id) (hardware_plan net config hwbench)
  unfolding Allowed
  hardware_Allowed none = tt
  hardware_Allowed (some hwbench) = All-joined P (hardware_parts net config hwbench) (
    (tt, tt),
    (
      All-unless P (net.meets_reference hwbench) _ (All-when P config.is_authority _ λ h. (h, tt)),
      (All-if_some P (non_empty config.telemetry_endpoints) _ (tt, tt), tt),
    ),
  )

  node_plan-Allowed :
      (hwbench : Option net.HwBench)
      → All (Allowed config para_id) (node_plan net config para_id hwbench)
  unfolding Allowed
  node_plan-Allowed hwbench = All-joined P (node_parts net config para_id hwbench) (
    All-joined P (partial_parts config) (
      All-if_some P (non_empty config.telemetry_endpoints) _ (tt, tt),
      (
        (tt, tt),
        (
          All-if_some P (non_empty config.telemetry_endpoints) _ (tt, tt),
          ((refl, tt), ((tt, tt), tt)),
        ),
      ),
    ),
    (
      (tt, tt),
      (
        (refl, tt),
        (
          All-when P config.offchain_worker_enabled _ (λ h. ((h, refl, refl), (tt, tt))),
          (
            (tt, tt),
            (
              hardware_Allowed hwbench,
              (
                (tt, tt),
                (
                  (profile_Allowed config.is_authority refl, tt),
                  (All-when P config.is_authority _ (λ h. ((h, refl, refl), (tt, tt))), tt),
                ),
              ),
            ),
          ),
        ),
      ),
    ),
  )

module _ {p : Platform} (config : Configuration p) (para_id : ℕ) where
  -- What a node of a configuration may do, with the start of its network.
  abbrev pub IsLawful : Action → Type 0
  IsLawful act = Allowed config para_id act ⊎ (act ≡ start_network)

  lawful : (acts : Trace) → All (Allowed config para_id) acts → All IsLawful acts
  lawful [] h = tt
  lawful (act ∷ acts) h = (inl h.0, lawful acts h.1)

  added :
      {E A : Type 0} (plan t : Trace) (r : Ended E A × Trace)
      → All (Allowed config para_id) plan
      → Started plan t r
      → (acts : Trace) × (r.1 ≡ t ++ acts) × All IsLawful acts
  added plan t _ h running = (
    plan ++ (start_network ∷ []),
    append_assoc t plan (start_network ∷ []),
    All-append IsLawful plan _ (lawful plan h) (inr refl, tt),
  )
  added plan t _ h (stopped acts rest e) = (
    acts,
    refl,
    lawful acts (
        All-first (Allowed config para_id) acts rest
          (subst (All (Allowed config para_id)) (sym e) h)),
  )
  added plan t _ h (crashed acts rest e) = (
    acts,
    refl,
    lawful acts (
        All-first (Allowed config para_id) acts rest
          (subst (All (Allowed config para_id)) (sym e) h)),
  )

module _ (p : Platform) (lib : Libraries p) (net : Network p) where
  -- However the libraries answer and however it ends, the start of a node makes offchain workers
  -- only if they are enabled and then without http requests, makes a consensus, warns of the
  -- hardware and takes the profile of a collator only as an authority, and makes its transaction
  -- pool for its role, and its network, its consensus and the tasks of the relay chain for its
  -- parachain id.
  pub start_parachain_node-IsLawful :
      (config polkadot_config : Configuration p) (options : net.CollatorOptions) (para_id : ℕ)
      (hwbench : Option net.HwBench) (t : Trace)
      → (acts : Trace) × ((start_parachain_node p lib net config polkadot_config options para_id
            hwbench t).1
          ≡ t ++ acts)
        × All (IsLawful (net.prepare_node_config config) para_id) acts
  start_parachain_node-IsLawful config polkadot_config options para_id hwbench t =
      added (net.prepare_node_config config) para_id
        (node_plan net (net.prepare_node_config config) para_id hwbench) t _
        (node_plan-Allowed net (net.prepare_node_config config) para_id hwbench)
        (start_parachain_node-Started p lib net config polkadot_config options para_id hwbench t)
