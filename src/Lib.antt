-- ===== src/Lib.antt =====
-- A model of the Ghost blockchain: the consensus pallet with its pure functions, the demo miner, the
-- start of the node with its commands and its RPC, the runtime's configuration with its genesis
-- presets, and the template pallet.
--
-- The parts. A miner submits a header (`submit_block`) in the mining phase; the staker that the seed
-- selects by weight signs it (`validate_block`) in the validation phase, which pays the block reward
-- out and ends in finalization; the end of the block (`on_finalize`) returns to mining. Stakers move
-- funds into and out of an escrow account (`stake`, `unstake`); reports and long absences cut stakes
-- (`report_misbehavior`, `check_downtime_slashing`); every 100 blocks the difficulty follows from the
-- block time and the entropy of the recent producers. The node's miner looks for a nonce with the
-- same double hash that the pallet tests.
--
-- The files, and the code that they model:
--   Types, Environment, State: pallets/pallet-ghost-consensus/src/types.rs; the Config, the storage,
--     the events and the errors of its lib.rs. A call is a function from the state to a result and a
--     state (`Action`). `#[pallet::call]` wraps the body of each call in a storage layer, which undoes
--     the writes of a body that fails (`with_storage_layer`). So a failed call is no step in
--     Pallet/Transitions.
--   Pow, Difficulty, Selection, Rewards, Header, Entropy: the functions of the same names in
--     pallets/pallet-ghost-consensus/src/functions.rs, each with its theorems in child modules.
--   Pallet/Submit, Stake, Validate, Report, Hooks: the calls and the hooks of lib.rs, with what each
--     does on every branch in child modules.
--   Pallet/Transitions, Backing, Invariant: the steps of the pallet, and what holds over all of them.
--     A step is a successful signed call, a hook, or a change of the ledger elsewhere that takes
--     nothing from the escrow account, for which nobody has a key and so nobody signs.
--   Pallet/Spec: an abstract machine of a phase, headers, producers and stakes as functions, and a
--     history of miners; the pallet refines it. Pallet/Round, Growth, Stuck: a whole round of
--     calls, round after round, and the phase that needs a staker to end.
--   Miner: node/src/miner.rs. Each access of a shared atomic is a step, and the threads interleave in
--     any order, with `stop` at any point. Miner/Fairness, Turns, Termination: threads that get their
--     turns, and end. Miner/Submission: its nonces at the pallet.
--   Worker, Worker/Engine, Rpc: pallets/pallet-ghost-consensus/src/consensus.rs and rpc.rs.
--   Node, Node/Extensions: node/src/rpc.rs. Node/Commands: the GhostCommands of node/src/cli.rs and
--     handle_ghost_command of node/src/command.rs.
--   Node/Config, Startup, Crates: what the node is built over. A start-up is a run that can fail or
--     panic, and records the tasks that are spawned and the start of the network.
--   Node/Partial, Service, Marks: new_partial and new_full of node/src/service.rs, and what a run does
--     of its own.
--   Node/Run, ChainSpec, Benchmarking: run and load_spec of node/src/command.rs,
--     node/src/chain_spec.rs and node/src/benchmarking.rs.
--   Runtime: the constants and the pallets of runtime/src/lib.rs, the configuration of the pallets in
--     runtime/src/configs/mod.rs, and runtime/src/genesis_config_presets.rs.
--   Runtime/Apis: what the runtime APIs of runtime/src/apis.rs call, their functions, and the presets of
--     the genesis builder.
--   Template, Template/Weights: pallets/template/src/lib.rs and weights.rs.
--   Mock: pallets/pallet-ghost-consensus/src/mock.rs.
--   Tests: a concrete environment and runs, with the theorems applied to them; in Tests/Units the unit
--     tests of pallets/pallet-ghost-consensus/src/tests.rs, evaluated on the mock runtime.
--
-- Numbers. Accounts, balances and block numbers are natural numbers. `+ - *` on machine integers wrap
-- (`wrap_u64` and the like), as in a release build, which sets no overflow checks; the saturating and
-- checked operations are written out. `highest_bit` runs on a fuel of 64, the bits of a `u64`. The
-- mining worker's loop has the million rounds of the source.
--
-- Events. The list in a state holds every event that was deposited; frame_system clears it at each
-- block and drops the events of block 0.
--
-- Parameters. The hashes with the SCALE encodings below them, the Dilithium library, the balances
-- pallet over a ledger of any type, the escrow account and the iteration order of storage maps
-- (Environment); the runtime API client (Rpc); the crates of the Substrate SDK that the node calls
-- (Node/Crates, Node/Run, Node/Extensions, Node/Benchmarking) and that the runtime APIs call
-- (Runtime/Apis); the JSON text of a preset (Runtime/Genesis); the type of floats and the clock
-- (Miner). What is relied on is named: TransferLaws, DepositLaws and PaysOut state what the
-- documentation of the balances pallet promises, and Tests/World fulfils them; the other records whose
-- names end in Laws do the same for the crates that the node and the runtime call.
--
-- The escrow account. A transfer that may kill its sender destroys what it leaves below the
-- existential deposit, and `unstake` makes such transfers from the escrow account. So IsBacked asks,
-- where the deposit is above 1, for one beyond the stakes (Environment/Transfers). Tests/Dust runs the
-- case without it.
--
-- Not modelled: metrics, which only pass through the node; the benchmarks of the pallets and of the
-- runtime, which macros of the SDK fill; build scripts; primitives/ghost-pow, which only declares
-- types; printing of floats.
pub mod Base
pub mod Types
pub mod Environment
pub mod Pow
pub mod State
pub mod Difficulty
pub mod Selection
pub mod Rewards
pub mod Header
pub mod Entropy
pub mod Pallet
pub mod Miner
pub mod Mock
pub mod Rpc
pub mod Worker
pub mod Template
pub mod Runtime
pub mod Node
pub mod Tests
