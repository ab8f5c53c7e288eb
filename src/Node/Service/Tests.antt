-- ===== src/Node/Service/Tests.antt =====
-- Witnesses of the laws of the service: the start of a collator from an empty trace.
use polkadot_confidential_of.Base.{ℕ, ◌∷◌, ◌≡◌, [], ◌++◌, All, refl, returned, some}
use polkadot_confidential_of.Node.{Trace, start_network}
use polkadot_confidential_of.Node.Memory.{
  number_platform, number_libraries, number_network, collator_config,
}
use polkadot_confidential_of.Node.Service.Start.{start_parachain_node}
use polkadot_confidential_of.Node.Service.Plan.{node_plan}
use polkadot_confidential_of.Node.Service.Answers.{AllAnswer}
use polkadot_confidential_of.Node.Service.Liveness.{start_parachain_node-returned}
use polkadot_confidential_of.Node.Service.Order.{
  Started, IsLawful, start_parachain_node-Started, start_parachain_node-IsLawful,
}

start_parachain_node-Started_example :
    Started (node_plan number_network collator_config 1000 (some 3)) [] (
      start_parachain_node number_platform number_libraries number_network collator_config
        collator_config 0 1000
        (some 3)
        [])
start_parachain_node-Started_example =
    start_parachain_node-Started number_platform number_libraries number_network collator_config
      collator_config 0 1000 (some 3) []

start_parachain_node-IsLawful_example :
    (acts : Trace) × ((start_parachain_node number_platform number_libraries number_network
        collator_config collator_config 0 1000
        (some 3)
        []).1
      ≡ [] ++ acts)
    × All (IsLawful collator_config 1000) acts
start_parachain_node-IsLawful_example =
    start_parachain_node-IsLawful number_platform number_libraries number_network collator_config
      collator_config 0 1000 (some 3) []

number_answers : AllAnswer number_platform number_libraries number_network
number_answers = record {
  worker = λ n t. (n, refl);
  parts = λ config telemetry e b t. ((1, 2, 3, 4), refl);
  pool = λ o b r tm c t. (5, refl);
  queue = λ c i tm r telemetry t. (6, refl);
  relay = λ polkadot config w tm o hwbench t. (8, some 9, refl, λ authority. (9, refl));
  network = λ config c tp id tm r q t. (10, refl);
  workers = λ c k b tp n v http t. (tt, refl);
  tasks = λ config params n t. (tt, refl);
  overseer = λ r t. (11, refl);
  relay_tasks = λ c id r tm profile q slot o n t. (tt, refl);
  consensus = λ params r k id o slot proposer n t. (tt, refl);
}

start_parachain_node-returned_example :
    (r : ℕ × ℕ) × (start_parachain_node number_platform number_libraries number_network
        collator_config collator_config 0 1000
        (some 3)
        []
      ≡ (
        returned r,
        [] ++ node_plan number_network collator_config 1000 (some 3) ++ (start_network ∷ []),
      ))
start_parachain_node-returned_example =
    start_parachain_node-returned number_platform number_libraries number_network number_answers
      collator_config collator_config 0 1000 (some 3) []
