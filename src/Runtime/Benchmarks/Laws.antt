-- ===== src/Runtime/Benchmarks/Laws.antt =====
-- Which benchmarks run.
use mathlib.Core.List.{Memᴰ}
use mathlib.Core.List.Memᴰ
use mathlib.Core.Path.{subst}
use polkadot_confidential_of.Base.{
  ◌≡◌, ◌≢◌, ◌∙◌, refl, sym, ap, ◌⊎◌, inl, inr, String, codes, Option, none, some, List, [], ◌∷◌,
  ◌++◌, All, All-weaken, Ended, returned, failed, panicked, arith,
}
use polkadot_confidential_of.Runtime.Apis.{dispatched}
use polkadot_confidential_of.Runtime.Benchmarks.{
  Benched, benchmarks, Benchmarking, add_benchmarks, dispatch_benchmark,
}

-- No name stands twice.
abbrev pub Distinct : List (String × Benched) → Type 0
Distinct [] = Unit
Distinct ((name, p) ∷ rest) = All (λ (other, _). codes name ≢ codes other) rest × Distinct rest

benchmarks-Distinct : Distinct benchmarks
unfolding benchmarks
benchmarks-Distinct = ground arith

template_apart : All (λ (other, _). codes "pallet_template" ≢ codes other) benchmarks
unfolding benchmarks
template_apart = ground arith

parachain_template_apart :
    All (λ (other, _). codes "pallet_parachain_template" ≢ codes other) benchmarks
unfolding benchmarks
parachain_template_apart = ground arith

All-Memᴰ : {A : Type 0} (P : A → Type 0) (a : A) (xs : List A) → All P xs → Memᴰ a xs → P a
All-Memᴰ P a [] all at = absurd (Memᴰ.not-nil at)
All-Memᴰ P a (x ∷ xs) all at = elim (Memᴰ.cases_cons at) [
  | inl e ↦ subst P (sym e) all.0
  | inr rest ↦ All-Memᴰ P a xs all.1 rest
]

module _ (f : Benchmarking) where
  open f use {World, Config, Whitelist, Batch, pallet}

  abbrev pub listed : Option Batch → List Batch
  listed none = []
  listed (some batch) = batch ∷ []

  -- `batches` with what a run has added.
  abbrev pub extended :
      List Batch → Ended String (Option Batch) × World → Ended String (List Batch) × World
  extended batches (returned r, w) = (returned (batches ++ listed r), w)
  extended batches (failed e, w) = (failed e, w)
  extended batches (panicked msg, w) = (panicked msg, w)

  -- What frame-benchmarking documents: the benchmark of a pallet runs if the configuration names
  -- it, and adds a batch unless it is skipped.
  pub record BenchmarkLaws : Type 0 where
    pub run : Config → Whitelist → Benched → World → Ended String (Option Batch) × World
    pub other :
        (config : Config) (keys : Whitelist) (name : String) (p : Benched) (batches : List Batch)
        (w : World)
        → pallet config ≢ codes name
        → f.add_benchmark (config, keys) name p batches w ≡ (returned batches, w)
    pub own :
        (config : Config) (keys : Whitelist) (name : String) (p : Benched) (batches : List Batch)
        (w : World)
        → pallet config ≡ codes name
        → f.add_benchmark (config, keys) name p batches w ≡ extended batches (run config keys p w)

  module _ (laws : BenchmarkLaws) (config : Config) where
    open laws use {run}

    abbrev pub Misses : List (String × Benched) → Type 0
    Misses = All (λ (name, _). pallet config ≢ codes name)

    add_benchmarks-Misses :
        (keys : Whitelist) (list : List (String × Benched)) (batches : List Batch) (w : World)
        → Misses list
        → add_benchmarks f (config, keys) list batches w ≡ (returned batches, w)
    unfolding add_benchmarks
    add_benchmarks-Misses keys [] batches w all = refl
    add_benchmarks-Misses keys ((name, p) ∷ rest) batches w all = ground (
      arith,
      laws.other config keys name p batches w all.0,
      add_benchmarks-Misses keys rest batches w all.1,
    )

    add_benchmarks-after :
        (keys : Whitelist) (name : String) (p : Benched) (rest : List (String × Benched))
        (batches : List Batch) (w : World) (r : Ended String (Option Batch) × World)
        → Misses rest
        → f.add_benchmark (config, keys) name p batches w ≡ extended batches r
        → add_benchmarks f (config, keys) ((name, p) ∷ rest) batches w ≡ extended batches r
    unfolding add_benchmarks
    add_benchmarks-after keys name p rest batches w (returned b, w') misses e =
        ground (arith, e, add_benchmarks-Misses keys rest (batches ++ listed b) w' misses)
    add_benchmarks-after keys name p rest batches w (failed err, w') misses e = ground (arith, e)
    add_benchmarks-after keys name p rest batches w (panicked msg, w') misses e = ground (arith, e)

    add_benchmarks-Memᴰ :
        (keys : Whitelist) (name : String) (p : Benched) (list : List (String × Benched))
        (batches : List Batch) (w : World)
        → Distinct list
        → pallet config ≡ codes name
        → Memᴰ (name, p) list
        → add_benchmarks f (config, keys) list batches w ≡ extended batches (run config keys p w)
    unfolding add_benchmarks
    add_benchmarks-Memᴰ keys name p [] batches w distinct named at = absurd (Memᴰ.not-nil at)
    add_benchmarks-Memᴰ keys name p ((name', p') ∷ rest) batches w distinct named at =
        elim (Memᴰ.cases_cons at) [
          | inl e ↦
              let mine = named ∙ ap (λ x. codes x.0) e in
              let others =
                All-weaken (λ (other, _). codes name' ≢ codes other)
                  (λ (other, _). pallet config ≢ codes other) (λ x h same. h (sym mine ∙ same)) rest
                  distinct.0 in
              add_benchmarks-after keys name' p' rest batches w (run config keys p w) others (
                laws.own config keys name' p' batches w mine
                ∙ ap (λ x. extended batches (run config keys x.1 w)) (sym e))
          | inr later ↦
              let apart =
                All-Memᴰ (λ (other, _). codes name' ≢ codes other) (name, p) rest distinct.0
                  later in
              let not_named = λ (same : pallet config ≡ codes name'). apart (sym same ∙ named) in
              ground (
                arith,
                laws.other config keys name' p' batches w not_named,
                add_benchmarks-Memᴰ keys name p rest batches w distinct.1 named later,
              )
        ]

    -- How a dispatch ends, by how the run of the benchmark ended.
    abbrev pub dispatched_as :
        Ended String (Option Batch) × World → Ended String (List Batch) × World
    dispatched_as (returned none, w) = (failed "Benchmark not found for this pallet.", w)
    dispatched_as (returned (some batch), w) = (returned (batch ∷ []), w)
    dispatched_as (failed e, w) = (failed e, w)
    dispatched_as (panicked msg, w) = (panicked msg, w)

    at_end :
        (w : World) (r : Ended String (Option Batch) × World)
        → add_benchmarks f (config, f.whitelisted_storage_keys w) benchmarks [] w ≡ extended [] r
        → dispatch_benchmark f config w ≡ dispatched_as r
    unfolding dispatch_benchmark dispatched
    at_end w (returned none, w') e = ground (arith, e)
    at_end w (returned (some b), w') e = ground (arith, e)
    at_end w (failed err, w') e = ground (arith, e)
    at_end w (panicked msg, w') e = ground (arith, e)

    named-Misses :
        (name : String)
        → All (λ (other, _). codes name ≢ codes other) benchmarks
        → pallet config ≡ codes name
        → Misses benchmarks
    named-Misses name apart named =
        All-weaken (λ (other, _). codes name ≢ codes other)
          (λ (other, _). pallet config ≢ codes other) (λ x h same. h (sym named ∙ same)) benchmarks
          apart

    -- A configuration that names a pallet of the list runs the benchmark of that pallet alone
    -- and ends as it does, with its one batch or its error, or with the error Benchmark not
    -- found for this pallet if it was skipped; one that names no pallet of the list, as the
    -- template pallet under either name, ends with that error and runs nothing.
    pub dispatch_benchmark_lem :
        (w : World)
        → (Misses benchmarks
            → dispatch_benchmark f config w ≡ (failed "Benchmark not found for this pallet.", w))
          × ((name : String) (p : Benched)
              → Memᴰ (name, p) benchmarks
              → pallet config ≡ codes name
              → dispatch_benchmark f config w
                ≡ dispatched_as (run config (f.whitelisted_storage_keys w) p w))
          × ((pallet config ≡ codes "pallet_template")
                ⊎ (pallet config ≡ codes "pallet_parachain_template")
              → dispatch_benchmark f config w ≡ (failed "Benchmark not found for this pallet.", w))
    dispatch_benchmark_lem w =
        let keys = f.whitelisted_storage_keys w in
        let missing = λ (misses : Misses benchmarks).
          at_end w (returned none, w) (add_benchmarks-Misses keys benchmarks [] w misses) in
        (
          missing,
          λ name p at named.
              at_end w (run config keys p w)
                (add_benchmarks-Memᴰ keys name p benchmarks [] w benchmarks-Distinct named at),
          λ named. elim named [
            | inl e ↦ missing (named-Misses "pallet_template" template_apart e)
            | inr e ↦ missing (named-Misses "pallet_parachain_template" parachain_template_apart e)
          ],
        )
