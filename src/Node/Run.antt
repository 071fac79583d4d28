-- ===== src/Node/Run.antt =====
-- `run` of node/src/command.rs and the `Subcommand`s of node/src/cli.rs: what each command line
-- does. The commands of the substrate crates are parameters, with their arguments of a type `Args`.
-- A runner runs its closure, and one that is given a future runs it to its end.
pub mod Starts
use Prim.Native.String.{String}
use ghost_blockchain.Base.{ℕ, Bool, true, false, Option, none, some, List, ◌∷◌, [], ◌⊎◌, inl, inr}
use ghost_blockchain.Miner.{Miner, MiningBlockHeader, MiningStats}
use ghost_blockchain.Runtime.{existential_deposit}
use ghost_blockchain.Runtime.Genesis.{alice_sr25519}
use ghost_blockchain.Node.Commands.{GhostCommands, Lines, handle_ghost_command}
use ghost_blockchain.Node.Config.{Configuration, NetworkBackendType}
use ghost_blockchain.Node.Startup.{
  Outcome, ok, err, panicked, Happening, Startup, ◌>>=◌, ◌>>◌, pure, try,
}
use ghost_blockchain.Node.Crates.{Crates, Config, Library}
use ghost_blockchain.Node.Partial.{Service, new_partial}
use ghost_blockchain.Node.Service.{new_full}

-- `BenchmarkCmd`
pub data BenchmarkCmd (Args : Type 0) : Type 0 where
  pallet block storage overhead extrinsic machine : Args → BenchmarkCmd Args

-- A benchmark command's own arguments, which its runner is made from.
abbrev pub benchmark_args : {Args : Type 0} → BenchmarkCmd Args → Args
benchmark_args (pallet cmd) = cmd
benchmark_args (block cmd) = cmd
benchmark_args (storage cmd) = cmd
benchmark_args (overhead cmd) = cmd
benchmark_args (extrinsic cmd) = cmd
benchmark_args (machine cmd) = cmd

pub data Subcommand (Args : Type 0) : Type 0 where
  key build_spec check_block export_blocks export_state import_blocks purge_chain revert
        chain_info :
      Args → Subcommand Args
  benchmark : BenchmarkCmd Args → Subcommand Args
  ghost : GhostCommands → Subcommand Args

-- What a command leaves besides its tasks: nothing, or what it printed, with a hash rate of type
-- `F`.
pub data Done (F : Type 0) : Type 0 where
  quiet : Done F
  printed : Lines F → Done F

-- The commands of the crates. `InherentData` and `Builder` are those of the benchmarks.
pub record CommandLibrary (c : Crates) (Args CliError InherentData Builder : Type 0) : Type 0 where
  pub create_runner : Option Args → CliError ⊎ Config c
  pub from_service_error : c.ServiceError → CliError
  pub from_text : String → CliError
  pub run_key : Args → CliError ⊎ Unit {0}
  pub run_build_spec : Args → c.Settings → CliError ⊎ Unit {0}
  pub run_check_block : Args → c.Client → c.ImportQueue → CliError ⊎ Unit {0}
  pub run_export_blocks : Args → c.Client → c.Settings → CliError ⊎ Unit {0}
  pub run_export_state : Args → c.Client → c.Settings → CliError ⊎ Unit {0}
  pub run_import_blocks : Args → c.Client → c.ImportQueue → CliError ⊎ Unit {0}
  pub run_purge_chain : Args → c.Settings → CliError ⊎ Unit {0}
  -- With the revert of GRANDPA's own data.
  pub grandpa_revert : c.Client → (blocks : ℕ) → CliError ⊎ Unit {0}
  pub run_revert :
      Args
      → c.Client
      → c.Backend
      → Option (c.Client → c.Backend → (blocks : ℕ) → CliError ⊎ Unit {0})
      → CliError ⊎ Unit {0}
  pub run_chain_info : Args → Config c → CliError ⊎ Unit {0}
  pub run_pallet : Args → c.Settings → CliError ⊎ Unit {0}
  pub run_block : Args → c.Client → CliError ⊎ Unit {0}
  pub run_storage : Args → Config c → c.Client → c.Backend → CliError ⊎ Unit {0}
  pub run_overhead : Args → Config c → c.Client → InherentData → Builder → CliError ⊎ Unit {0}
  pub run_extrinsic : Args → c.Client → InherentData → List Builder → CliError ⊎ Unit {0}
  pub run_machine : Args → Config c → CliError ⊎ Unit {0}
  pub inherent_benchmark_data : CliError ⊎ InherentData
  pub remark_builder : c.Client → Builder
  pub transfer_keep_alive_builder : c.Client → (dest value : ℕ) → Builder

module _ {c : Crates} {Args CliError InherentData Builder F : Type 0}
    (lib : NetworkBackendType → Library c)
    (commands : CommandLibrary c Args CliError InherentData Builder) (runtime_benchmarks : Bool)
    (start : Miner → MiningBlockHeader → Option (ℕ × MiningStats F)) where
  abbrev pub Command : Type 0 → Type 0
  Command A = Startup CliError c.Future A

  -- `?` and `map_err` on an error of the service.
  abbrev pub map_outcome : {A : Type 0} → Outcome c.ServiceError A → Outcome CliError A
  map_outcome (ok a) = ok a
  map_outcome (err e) = err (commands.from_service_error e)
  map_outcome (panicked why) = panicked why

  unfoldable pub service : {A : Type 0} → Startup c.ServiceError c.Future A → Command A
  service m log = let (o, log') = m log in (map_outcome o, log')

  -- A command that writes to no log of its own.
  abbrev pub quietly : CliError ⊎ Unit {0} → Command (Done F)
  quietly r = do try r; pure quiet

  -- `service::new_partial(&config)?`, and the command with it. The calls of `new_partial` are the
  -- same for both network backends.
  abbrev pub with_client :
      (config : Config c)
      → (Service (lib config.network_backend) → CliError ⊎ Unit {0})
      → Command (Done F)
  with_client config command = do
    parts ← service (new_partial (lib config.network_backend) config)
    quietly (command parts)

  abbrev pub if_enabled : {A : Type 0} → (enabled : Bool) → String → Command A → Command A
  if_enabled false why m = try (inl (commands.from_text why))
  if_enabled true why m = m

  unfoldable pub run_benchmark : BenchmarkCmd Args → Config c → Command (Done F)
  run_benchmark (pallet cmd) config =
      if_enabled runtime_benchmarks
        "Runtime benchmarking wasn't enabled when building the node. You can enable it with `--features runtime-benchmarks`."
        (quietly (commands.run_pallet cmd config.settings))
  run_benchmark (block cmd) config =
      with_client config (λ parts. commands.run_block cmd parts.client)
  run_benchmark (storage cmd) config =
      if_enabled runtime_benchmarks
        "Storage benchmarking can be enabled with `--features runtime-benchmarks`."
        (with_client config (λ parts. commands.run_storage cmd config parts.client parts.backend))
  run_benchmark (overhead cmd) config = do
    parts ← service (new_partial (lib config.network_backend) config)
    let ext_builder = commands.remark_builder parts.client
    inherents ← try commands.inherent_benchmark_data
    quietly (commands.run_overhead cmd config parts.client inherents ext_builder)
  run_benchmark (extrinsic cmd) config = do
    parts ← service (new_partial (lib config.network_backend) config)
    let ext_factory =
        commands.remark_builder parts.client
        ∷ commands.transfer_keep_alive_builder parts.client alice_sr25519 existential_deposit
        ∷ []
    inherents ← try commands.inherent_benchmark_data
    quietly (commands.run_extrinsic cmd parts.client inherents ext_factory)
  run_benchmark (machine cmd) config = quietly (commands.run_machine cmd config)

  -- The node itself, over the network backend of the configuration.
  abbrev pub full_node : Config c → Command (Done F)
  full_node config = do service (new_full (lib config.network_backend) config); pure quiet

  -- `cli.create_runner(cmd)?`, and a runner's run of its closure.
  abbrev pub with_runner : Option Args → (Config c → Command (Done F)) → Command (Done F)
  with_runner cmd closure = try (commands.create_runner cmd) >>= closure

  unfoldable pub run : Option (Subcommand Args) → Command (Done F)
  unfolding run_benchmark service
  run (some (key cmd)) = quietly (commands.run_key cmd)
  run (some (build_spec cmd)) =
      with_runner (some cmd) (λ config. quietly (commands.run_build_spec cmd config.settings))
  run (some (check_block cmd)) = with_runner (some cmd) (λ config.
      with_client config (λ parts. commands.run_check_block cmd parts.client parts.import_queue))
  run (some (export_blocks cmd)) = with_runner (some cmd) (λ config.
      with_client config (λ parts. commands.run_export_blocks cmd parts.client config.settings))
  run (some (export_state cmd)) = with_runner (some cmd) (λ config.
      with_client config (λ parts. commands.run_export_state cmd parts.client config.settings))
  run (some (import_blocks cmd)) = with_runner (some cmd) (λ config.
      with_client config (λ parts. commands.run_import_blocks cmd parts.client parts.import_queue))
  run (some (purge_chain cmd)) =
      with_runner (some cmd) (λ config. quietly (commands.run_purge_chain cmd config.settings))
  run (some (revert cmd)) = with_runner (some cmd) (λ config. with_client config (λ parts.
      commands.run_revert cmd parts.client parts.backend
        (some (λ client backend blocks. commands.grandpa_revert client blocks))))
  run (some (benchmark cmd)) = with_runner (some (benchmark_args cmd)) (run_benchmark cmd)
  run (some (chain_info cmd)) =
      with_runner (some cmd) (λ config. quietly (commands.run_chain_info cmd config))
  run (some (ghost cmd)) = pure (printed (handle_ghost_command start cmd))
  run none = with_runner none (λ config. full_node config)
