-- ===== src/Node/Run/Starts.antt =====
-- What a command line starts.
use Prim.Native.String.{String}
use ghost_blockchain.Base.{
  ℕ, Bool, true, false, ◌&&◌, Option, none, some, List, [], ◌≡◌, ◌⊎◌, inl, inr, subst,
}
use mathlib.Core.List.{append-nil}
use ghost_blockchain.Miner.{Miner, MiningBlockHeader, MiningStats}
use ghost_blockchain.Node.Config.{NetworkBackendType}
use ghost_blockchain.Node.Startup.{Outcome, ok, err, panicked, Happening, Startup, ◌>>=◌, try}
use ghost_blockchain.Node.Crates.{Crates, Config, Library}
use ghost_blockchain.Node.Partial.{telemetry_task, Service, new_partial}
use ghost_blockchain.Node.Marks.{
  Mark, marks, Does, pure-Does, try-Does, bind-Does, Ends, IsPrefix, Leaves, Leaves-cases,
}
use ghost_blockchain.Node.Service.Tasks.{
  only_if, has_endpoints, expected_marks, new_partial-Does, new_full-Does,
}
use ghost_blockchain.Node.Run.{
  BenchmarkCmd, pallet, block, storage, overhead, extrinsic, machine, Subcommand, key, build_spec,
  check_block, export_blocks, export_state, import_blocks, purge_chain, revert, chain_info,
  benchmark, ghost, Done, CommandLibrary, benchmark_args, service, map_outcome, quietly, if_enabled,
  run_benchmark, run,
}

module _ {c : Crates} {Args CliError InherentData Builder F : Type 0}
    (lib : NetworkBackendType → Library c)
    (commands : CommandLibrary c Args CliError InherentData Builder) (runtime_benchmarks : Bool)
    (start : Miner → MiningBlockHeader → Option (ℕ × MiningStats F)) where
  -- The commands that open the client.
  abbrev pub benchmark_opens : BenchmarkCmd Args → Bool
  benchmark_opens (pallet cmd) = false
  benchmark_opens (block cmd) = true
  benchmark_opens (storage cmd) = runtime_benchmarks
  benchmark_opens (overhead cmd) = true
  benchmark_opens (extrinsic cmd) = true
  benchmark_opens (machine cmd) = false

  abbrev pub opens : Subcommand Args → Bool
  opens (key cmd) = false
  opens (build_spec cmd) = false
  opens (check_block cmd) = true
  opens (export_blocks cmd) = true
  opens (export_state cmd) = true
  opens (import_blocks cmd) = true
  opens (purge_chain cmd) = false
  opens (revert cmd) = true
  opens (chain_info cmd) = false
  opens (benchmark cmd) = benchmark_opens cmd
  opens (ghost cmd) = false

  -- What a command starts, with its configuration.
  abbrev pub started_by : Option (Subcommand Args) → Config c → List Mark
  started_by none config = expected_marks config
  started_by (some command) config =
      only_if (opens command && has_endpoints config.telemetry_endpoints) telemetry_task

  service-Leaves :
      {A : Type 0} (log : List (Happening c.Future)) (whole : List Mark)
      (r : Outcome c.ServiceError A × List (Happening c.Future))
      → Leaves log r whole
      → Leaves log (map_outcome lib commands runtime_benchmarks start r.0, r.1) whole
  service-Leaves log whole (ok a, log') h = h
  service-Leaves log whole (err e, log') h = h
  service-Leaves log whole (panicked why, log') h = h

  service-Does :
      {A : Type 0} (m : Startup c.ServiceError c.Future A) (whole : List Mark)
      → Does m whole
      → Does (service lib commands runtime_benchmarks start m) whole
  unfolding service
  service-Does m whole h = record {
    leaves = λ log. service-Leaves log whole (m log) (h.leaves log);
  }

  quietly-Does :
      (r : CliError ⊎ Unit {0}) → Does (quietly lib commands runtime_benchmarks start r) []
  quietly-Does r = bind-Does _ _ [] [] (try-Does r) (λ _. pure-Does CliError _)

  -- A run of the client, and what follows it without a task.
  client-Does :
      (config : Config c)
      (f : Service (lib config.network_backend) → Startup CliError c.Future (Done F))
      → ((parts : _) → Does (f parts) [])
      → Does
          (service lib commands runtime_benchmarks start
              (new_partial (lib config.network_backend) config)
            >>= f)
          (only_if (has_endpoints config.telemetry_endpoints) telemetry_task)
  client-Does config f h = subst (Does _) (append-nil _) (
      bind-Does _ f _ [] (service-Does _ _ (new_partial-Does (lib config.network_backend) config))
        h)

  enabled-Does :
      (enabled listens : Bool) (why : String) (m : Startup CliError c.Future (Done F))
      → Does m (only_if listens telemetry_task)
      → Does
          (if_enabled lib commands runtime_benchmarks start enabled why m)
          (only_if (enabled && listens) telemetry_task)
  enabled-Does false listens why m h = try-Does _
  enabled-Does true listens why m h = h

  enabled_quietly-Does :
      (enabled : Bool) (why : String) (r : CliError ⊎ Unit {0})
      → Does
          (if_enabled lib commands runtime_benchmarks start enabled why
            (quietly lib commands runtime_benchmarks start r))
          []
  enabled_quietly-Does false why r = try-Does _
  enabled_quietly-Does true why r = quietly-Does r

  run_benchmark-Does :
      (cmd : BenchmarkCmd Args) (config : Config c)
      → Does
          (run_benchmark lib commands runtime_benchmarks start cmd config)
          (started_by (some (benchmark cmd)) config)
  unfolding run_benchmark
  run_benchmark-Does (pallet cmd) config = enabled_quietly-Does runtime_benchmarks _ _
  run_benchmark-Does (block cmd) config = client-Does config _ (λ parts. quietly-Does _)
  run_benchmark-Does (storage cmd) config =
      enabled-Does runtime_benchmarks _ _ _ (client-Does config _ (λ parts. quietly-Does _))
  run_benchmark-Does (overhead cmd) config =
      client-Does config _ (λ parts. bind-Does _ _ [] [] (try-Does _) (λ inherents. quietly-Does _))
  run_benchmark-Does (extrinsic cmd) config =
      client-Does config _ (λ parts. bind-Does _ _ [] [] (try-Does _) (λ inherents. quietly-Does _))
  run_benchmark-Does (machine cmd) config = quietly-Does _

  -- What a runner starts: nothing without a configuration.
  abbrev pub started_with : CliError ⊎ Config c → (Config c → List Mark) → List Mark
  started_with (inl e) whole = []
  started_with (inr config) whole = whole config

  runner-Does :
      (r : CliError ⊎ Config c) (f : Config c → Startup CliError c.Future (Done F))
      (whole : Config c → List Mark)
      → ((config : Config c) → Does (f config) (whole config))
      → Does (try r >>= f) (started_with r whole)
  unfolding try ◌>>=◌
  runner-Does (inl e) f whole h = record { leaves = (try-Does {A = Done F} (inl e)).leaves }
  runner-Does (inr config) f whole h = record { leaves = λ log. (h config).leaves log }

  -- The arguments that a command's runner is made from.
  abbrev pub runner_args : Option (Subcommand Args) → Option Args
  runner_args none = none
  runner_args (some (key cmd)) = some cmd
  runner_args (some (build_spec cmd)) = some cmd
  runner_args (some (check_block cmd)) = some cmd
  runner_args (some (export_blocks cmd)) = some cmd
  runner_args (some (export_state cmd)) = some cmd
  runner_args (some (import_blocks cmd)) = some cmd
  runner_args (some (purge_chain cmd)) = some cmd
  runner_args (some (revert cmd)) = some cmd
  runner_args (some (chain_info cmd)) = some cmd
  runner_args (some (benchmark cmd)) = some (benchmark_args cmd)
  runner_args (some (ghost cmd)) = none

  nothing-Does :
      (r : CliError ⊎ Config c) (m : Startup CliError c.Future (Done F))
      → Does m []
      → Does m (started_with r (λ config. []))
  nothing-Does (inl e) m h = h
  nothing-Does (inr config) m h = h

  run-Does :
      (command : Option (Subcommand Args))
      → Does
          (run lib commands runtime_benchmarks start command)
          (started_with (commands.create_runner (runner_args command)) (started_by command))
  unfolding run
  run-Does none = runner-Does _ _ _ (λ config. subst (Does _) (append-nil _) (
      bind-Does _ _ _ [] (service-Does _ _ (new_full-Does (lib config.network_backend) config))
        (λ _. pure-Does CliError _)))
  run-Does (some (key cmd)) = nothing-Does _ _ (quietly-Does _)
  run-Does (some (build_spec cmd)) = runner-Does _ _ _ (λ config. quietly-Does _)
  run-Does (some (check_block cmd)) =
      runner-Does _ _ _ (λ config. client-Does config _ (λ parts. quietly-Does _))
  run-Does (some (export_blocks cmd)) =
      runner-Does _ _ _ (λ config. client-Does config _ (λ parts. quietly-Does _))
  run-Does (some (export_state cmd)) =
      runner-Does _ _ _ (λ config. client-Does config _ (λ parts. quietly-Does _))
  run-Does (some (import_blocks cmd)) =
      runner-Does _ _ _ (λ config. client-Does config _ (λ parts. quietly-Does _))
  run-Does (some (purge_chain cmd)) = runner-Does _ _ _ (λ config. quietly-Does _)
  run-Does (some (revert cmd)) =
      runner-Does _ _ _ (λ config. client-Does config _ (λ parts. quietly-Does _))
  run-Does (some (chain_info cmd)) = runner-Does _ _ _ (λ config. quietly-Does _)
  run-Does (some (benchmark cmd)) = runner-Does _ _ _ (run_benchmark-Does cmd)
  run-Does (some (ghost cmd)) = nothing-Does _ _ (pure-Does CliError _)

  -- Of the tasks that the node's own code spawns and the start of the network, a command line that
  -- ends well has started those of a full node, in order, if it has no subcommand, and with a
  -- subcommand the telemetry worker if there are endpoints and the subcommand opens the client, and
  -- no other; in each case with the configuration that its runner is made with, and none without
  -- one. If it fails or panics, it has started a beginning of these. So no subcommand starts the
  -- network, an author or a voter. The tasks that the calls of the crates spawn themselves, such as
  -- those of the transaction pool and of the import queue, are not counted.
  pub run-marks :
      (command : Option (Subcommand Args))
      → let r = run lib commands runtime_benchmarks start command [] in
        let whole =
          started_with (commands.create_runner (runner_args command)) (started_by command) in
        (Ends r.0 × (marks r.1 ≡ whole)) ⊎ ((¬ Ends r.0) × IsPrefix (marks r.1) whole)
  run-marks command = Leaves-cases _ _ ((run-Does command).leaves [])
