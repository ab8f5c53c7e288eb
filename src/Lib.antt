-- ===== src/Lib.antt =====
-- Verification of polkadot-confidential-offchain-worker: a parachain whose offchain worker keeps an
-- API key in the local storage of a node and calls an HTTP service with it.
--
-- The program's parts. A user signs calls of two pallets, which store a number and emit an event. On
-- each block a node runs the hook of the offchain worker pallet, which reads the key through the
-- traits of offchain-utils, sends one request through them, and logs the answer. The runtime composes
-- both pallets with those of FRAME, and adds genesis presets, the creation of signed transactions,
-- weights and fees, the limits of a block, the rules for messages of other chains, and the apis
-- through which the node calls it, that of the worker among them. The node binary parses a
-- command line, makes a chain specification and starts the service, which drives the client.
--
-- Which file models which part:
--   Base, Utf8             shared names; the effects of Rust code (results, early returns, panics);
--                          text as code points and its UTF-8, and the decoder
--   Offchain               the host of an offchain worker: storage, HTTP, time, log (a parameter)
--   Offchain/ApiKey        offchain-utils/src/offchain_api_key.rs: do_fetch_local,
--                          fetch_api_key_for_request, store_api_key
--   Offchain/Fetcher       offchain-utils/src/fetcher.rs: HttpRequest, fetch (set_headers, build and
--                          fetch), fetch_string
--   Frame                  what the pallets use of FRAME: origins, storage, events (a parameter)
--   Template               pallets/template/src/lib.rs: do_something, cause_error (with increment)
--   Template/Benchmarks    pallets/template/src/benchmarking.rs
--   Ocw                    pallets/offchain-worker/src/lib.rs: do_something, get_api_key and the hook
--                          offchain_worker (with_key and log_block are its end);
--                          Worker and Endings for its runs, History for its runs over many blocks,
--                          Calls for the call
--   Runtime                the constants of runtime/src/lib.rs
--   Runtime/Genesis        runtime/src/genesis_config_presets.rs; Accepted for what the pallets
--                          demand of a genesis configuration
--   Runtime/Transaction    create_transaction of runtime/src/lib.rs; Period for the period of its era
--   Runtime/Fees           runtime/src/weights, pallets/template/src/weights.rs, the weight attributes
--                          of the template pallet, WeightToFee of runtime/src/lib.rs
--   Runtime/Pallets        the runtime module of runtime/src/lib.rs: the pallets with their indices, the
--                          calls of both pallets on one state; Spec and Runs for what a block of them
--                          does, Shown and Interleaving for the order of calls of different pallets
--   Runtime/Limits         the weights of a block and of messages: RuntimeBlockWeights and the reserved
--                          weights of runtime/src/configs/mod.rs, the ratios of runtime/src/lib.rs
--   Runtime/Xcm            runtime/src/configs/xcm_config.rs: the barrier, with
--                          ParentOrParentsExecutivePlurality, the conversion of origins, and
--                          Weighing for the weights of messages beside the weight for the queue;
--                          Executor for XcmConfig, Routes and Outgoing for what is sent,
--                          Assets, Accounts and Prices for the transactor and the trader
--   Runtime/Messages       the queues of incoming messages in runtime/src/configs/mod.rs and the execute
--                          call of pallet-xcm in xcm_config.rs; Incoming for their steps and what calls
--                          may come of them, Calls and Runs for the proof
--   Runtime/Charges        RuntimeBlockLength and the fees for lengths and weights in
--                          runtime/src/configs/mod.rs
--   Runtime/Benchmarks     the benchmark api of runtime/src/apis.rs and runtime/src/benchmarks.rs
--   Runtime/Trial          the try-runtime api of runtime/src/apis.rs
--   Runtime/Collators      sessions and collators in runtime/src/configs/mod.rs: how many there may
--                          be, Sessions for the length of sessions and who is lazy, Updates for who may
--                          change the collators
--   Runtime/Apis           runtime/src/apis.rs; what it forwards to is the parameter of
--                          Runtime/ApiFrames. ConsensusHook of runtime/src/lib.rs is the hook that
--                          it asks, with its three parameters
--   Node                   the platform, and the actions that a node writes to its trace
--   Node/ChainSpec         node/src/chain_spec.rs
--   Node/Command           node/src/cli.rs and node/src/command.rs: load_spec; Interface for the
--                          texts of both commands; RelayChain for RelayChainCli; Driver for what run
--                          uses, Run for run itself; Outcome, Start and Launch for how it ends, Parts and
--                          Subcommands for what the subcommands add to the trace
--   Node/Service           node/src/service.rs: new_partial, build_import_queue; Start for
--                          start_consensus and start_parachain_node; Plan and Order for what they do
--                          in which order, Answers and Liveness for when they succeed
--   Node/Traces, Returns,  rules for chains of calls: what they add to the trace, when they return
--   Node/Extends
--   Node/Rpc               node/src/rpc.rs
-- In a Memory file the parameters are filled by concrete functions; the Tests files run on them.
--
-- How state is modelled. A call is a function from a world to how it ended (a value, an error that
-- left by `?`, a panic) and the world after it, so what was done before an error stays done. The
-- world of the pallets is the storage and the events, that of the worker is the host, that of the
-- node is the trace of the calls of client libraries; an answer of a library may depend on all that
-- was done before, and may be an error or a panic.
--
-- Bounds and fuel. Block numbers of the template pallet have a width of any number of bits, and of 32
-- in the runtime; the subtraction of the worker is that of `u32`, with and without overflow checks;
-- the heap pages of the node are cut to 32 bits. One function runs on fuel: the search for the next
-- power of two, with 32 rounds, which suffice for every `u32`. All other loops are on the structure of
-- lists.
--
-- What is not modelled: the types in runtime/src/configs that only connect FRAME pallets or name a
-- constant for them; calls of other pallets that dispatch calls or write raw storage (sudo,
-- set_storage); what a rule of staging-xcm-builder changes in a message; what the trader pays back; the
-- transfers of pallet-xcm; mocks and unit tests, build scripts; the closures that the service
-- hands to libraries (inherent data, the hash of the code, the RPC builder); the key types of the
-- offchain worker pallet; the documentation site, and the scripts.
pub mod Base
pub mod Utf8
pub mod Offchain
pub mod Frame
pub mod Template
pub mod Ocw
pub mod Runtime
pub mod Node
