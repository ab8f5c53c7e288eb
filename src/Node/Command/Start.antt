-- ===== src/Node/Command/Start.antt =====
-- The start of a node from the command line: what it measures and what it passes on.
use polkadot_confidential_of.Base.{
  ℕ, ◌≡◌, refl, ap, ◌∙◌, Bool, true, false, All-weaken, Option, none, some, [], ◌∷◌, ◌++◌, Exec,
  Ended, returned, failed, panicked, ok_or, map_err, if◌then◌else◌, arith, append_assoc,
}
use polkadot_confidential_of.Node.{
  ◌>>=◌, Action, make_database_path, gather_hwbench, Trace, Platform, Configuration,
}
use polkadot_confidential_of.Node.Extends.{
  Extends, Onto-refl, unmoved, called, continued, chained, mapped,
}
use polkadot_confidential_of.Node.ChainSpec.{SpecLibrary, try_get}
use polkadot_confidential_of.Node.Service.{Libraries}
use polkadot_confidential_of.Node.Service.Start.{Network, start_parachain_node}
use polkadot_confidential_of.Node.Service.Order.{start_parachain_node-IsLawful}
use polkadot_confidential_of.Node.Command.{Commands, Cli}
use polkadot_confidential_of.Node.Command.RelayChain.{CliTypes, RelayLibrary}
use polkadot_confidential_of.Node.Command.Outcome.{bind-returned}
use polkadot_confidential_of.Node.Command.Driver.{Driver}
use polkadot_confidential_of.Node.Command.Parts.{configuration-Extends}
use polkadot_confidential_of.Node.Command.Run.{start_node, gather, para_id_of}

value : {E A : Type 0} → A → Ended E A → A
value a (returned b) = b
value a (failed e) = a
value a (panicked msg) = a

pub returned-injective :
    {E A : Type 0} {a b : A} → Path (Ended E A) (returned a) (returned b) → a ≡ b
unfolding value
returned-injective {a} h = ap (value a) h

switched_off :
    {A : Type 0} (b : Bool) (measured : Option A) → b ≡ true → (if b then none else measured) ≡ none
switched_off true measured h = refl
switched_off false measured h = cc

ok_or-returned :
    {E A : Type 0} (o : Option A) (e : E) (t u : Trace) (a : A)
    → ok_or o e t ≡ (returned a, u)
    → o ≡ some a
ok_or-returned none e t u a h = absurd (cc (ap (λ r. r.0) h))
ok_or-returned (some b) e t u a h = ap some (returned-injective (ap (λ r. r.0) h))

map_err-returned :
    {E F A : Type 0} (f : E → F) (m : Exec Trace E A) (t u : Trace) (a : A)
    → map_err f m t ≡ (returned a, u)
    → m t ≡ (returned a, u)
map_err-returned {E} {A} f m t u a h = by_end (m t).0 refl
  where
    by_end : (r : Ended E A) → (m t).0 ≡ r → m t ≡ (returned a, u)
    by_end (returned b) e = ground arith
    by_end (failed x) e = ground arith
    by_end (panicked msg) e = ground arith

ended :
    {E F A B : Type 0} (a : A) (c : B) (b : A) (u v : Trace)
    → Path (Ended E A × Trace) (returned a, u) (returned b, v)
    → Path (Ended F (A × B) × Trace) (returned (a, c), u) (returned (b, c), v)
ended {E} {F} a c b u v h =
    ap (λ x. (returned (x, c), u)) (returned-injective (ap (λ r. r.0) h))
    ∙ ap (λ w. (returned (b, c), w)) (ap (λ r. r.1) h)

module _ {p : Platform} {c : Commands} {y : CliTypes p} (spec : SpecLibrary p.ChainSpec)
    (lib : Libraries p) (net : Network p) (relay : RelayLibrary y) (d : Driver p c y net) where
  -- A node that started from the command line has a parachain id in its specification; it was
  -- started for this id and with the given options, with no hardware benchmark if the flag says
  -- so, and nothing was done after.
  pub start_node-returned :
      (cli : Cli c) (options : net.CollatorOptions) (config : Configuration p) (t : Trace)
      (tm : p.TaskManager) (v : Trace)
      → start_node spec lib net relay d cli options config t ≡ (returned tm, v)
      → (id : ℕ) × (polkadot_config : Configuration p) × (hwbench : Option net.HwBench)
        × (u : Trace) × (client : p.Client) × (para_id_of spec lib net relay d
              (try_get spec config.chain_spec)
            ≡ some id)
        × (cli.no_hardware_benchmarks ≡ true → hwbench ≡ none)
        × (start_parachain_node p lib net config polkadot_config options id hwbench u
            ≡ (returned (tm, client), v))
  unfolding start_node
  start_node-returned cli options config t tm v h =
      let (measured, u1, e1, h1) = bind-returned _ _ t tm v h in
      let (id, u2, e2, h2) = bind-returned _ _ u1 tm v h1 in
      let (polkadot_config, u3, e3, h3) = bind-returned _ _ u2 tm v h2 in
      let (logged, u4, e4, h4) = bind-returned _ _ u3 tm v h3 in
      let (started, u5, e5, h5) = bind-returned _ _ u4 tm v h4 in
      (
        id,
        polkadot_config,
        if cli.no_hardware_benchmarks then none else measured,
        u4,
        started.1,
        ok_or-returned _ _ u1 u2 id e2,
        switched_off cli.no_hardware_benchmarks measured,
        map_err-returned d.service_error
              (start_parachain_node p lib net config polkadot_config options id
                (if cli.no_hardware_benchmarks then none else measured))
              u4 u5 started e5
            ∙ ended started.0 started.1 tm u5 v h5,
      )

  -- Nothing is said of the actions.
  abbrev P : Action → Type 0
  P act = Unit

  id-Extends : (o : Option ℕ) (e : y.Error) → Extends P y.Error ℕ (ok_or o e)
  id-Extends none e t = Onto-refl P t
  id-Extends (some id) e t = Onto-refl P t

  start-Extends :
      (config polkadot_config : Configuration p) (options : net.CollatorOptions) (id : ℕ)
      (hwbench : Option net.HwBench)
      → Extends P p.Error
          (p.TaskManager × p.Client)
          (start_parachain_node p lib net config polkadot_config options id hwbench)
  start-Extends config polkadot_config options id hwbench t =
      let (acts, e, h) =
        start_parachain_node-IsLawful p lib net config polkadot_config options id hwbench t in
      (acts, e, All-weaken _ P (λ act _. tt) acts h)

  gathered :
      (path : p.FilePath) (t : Trace)
      → (gather spec lib net relay d (some path) t).1
        ≡ t ++ (make_database_path ∷ gather_hwbench ∷ [])
  unfolding gather ◌>>=◌
  gathered path t = by_end (d.hwbench path (t ++ (make_database_path ∷ []))) refl
    where
      by_end :
          (r : Ended y.Error net.HwBench)
          → d.hwbench path (t ++ (make_database_path ∷ [])) ≡ r
          → (gather spec lib net relay d (some path) t).1
            ≡ t ++ (make_database_path ∷ gather_hwbench ∷ [])
      by_end (returned a) e =
          ground (arith, append_assoc t (make_database_path ∷ []) (gather_hwbench ∷ []))
      by_end (failed a) e =
          ground (arith, append_assoc t (make_database_path ∷ []) (gather_hwbench ∷ []))
      by_end (panicked a) e =
          ground (arith, append_assoc t (make_database_path ∷ []) (gather_hwbench ∷ []))

  -- Whatever the flag against hardware benchmarks says, the first that a node with a database
  -- path does is to make this path and to run the benchmarks.
  pub start_node-measures :
      (cli : Cli c) (options : net.CollatorOptions) (config : Configuration p) (path : p.FilePath)
      (t : Trace)
      → p.database_path config.database ≡ some path
      → (acts : Trace) × ((start_node spec lib net relay d cli options config t).1
          ≡ t ++ (make_database_path ∷ gather_hwbench ∷ []) ++ acts)
  unfolding start_node
  start_node-measures cli options config path t at_path =
      let (more, e, _) =
        continued P (gather spec lib net relay d (p.database_path config.database)) _ t λ measured.
          chained P _ _ (id-Extends _ _) λ id.
            chained P _ _ (configuration-Extends P spec lib net relay d tt cli config)
              λ polkadot_config.
                chained P _ _ (called P {E = y.Error} {A = Unit {0}} _ (λ acts. returned tt) tt)
                  λ _.
                    chained P _ _
                      (mapped P d.service_error
                        (start_parachain_node p lib net config polkadot_config options id
                          (if cli.no_hardware_benchmarks then none else measured))
                        (start-Extends config polkadot_config options id
                          (if cli.no_hardware_benchmarks then none else measured)))
                      λ started. unmoved P {E = y.Error} (returned started.0) in
      (
        more,
        e
            ∙ ap (λ l. l ++ more)
                (ap (λ o. (gather spec lib net relay d o t).1) at_path ∙ gathered path t),
      )
