-- ===== src/Tests/Starts.antt =====
-- The theorems on the start of the node and its commands, with toy crates.
use Prim.Native.String.{String}
use ghost_blockchain.Base.{
  ℕ, ◌+◌, ◌*◌, ◌≤◌, ◌≡◌, ◌⊎◌, inl, inr, refl, arith, false, none, some, Option, [], ◌∷◌, ◌==◌,
}
use ghost_blockchain.Miner.{
  Miner, MiningBlockHeader, MiningStats, Mining, stop, start, run_thread, AllDone,
}
use ghost_blockchain.Miner.Turns.{Works, works, rests}
use ghost_blockchain.Miner.Termination.{stop-terminates}
use ghost_blockchain.Node.Marks.{Mark, task, marks, Ends, IsPrefix}
use ghost_blockchain.Node.Partial.{telemetry_task, aura_task, grandpa_task}
use ghost_blockchain.Node.Service.{new_full}
use ghost_blockchain.Node.Service.Tasks.{expected_marks, new_full-marks}
use ghost_blockchain.Node.Run.{Subcommand, run}
use ghost_blockchain.Node.Run.Starts.{started_by, started_with, run-marks}
use ghost_blockchain.Node.ChainSpec.{load_spec}
use ghost_blockchain.Node.ChainSpec.Presets.{IsBuiltIn, Built, load_spec_cases}
use ghost_blockchain.Node.Benchmarking.{
  RuntimeCall, UncheckedExtrinsic, BenchmarkLibrary, create_benchmark_extrinsic,
}
use ghost_blockchain.Node.Benchmarking.Validity.{
  Chain, ChainLaws, Accepted, create_benchmark_extrinsic-Accepted,
}
use ghost_blockchain.Tests.Toys.{toy_library, validator_config, toy_commands}
use ghost_blockchain.Tests.World.{test_hashing}
use ghost_blockchain.Tests.Nodes.{easy, single}

-- A thread that is stopped before its first step ends with it.
first_ends :
    Works test_hashing easy single 1
      (stop test_hashing easy single (start test_hashing easy single))
      (run_thread test_hashing easy single 0
        (stop test_hashing easy single (start test_hashing easy single)))
unfolding stop start
first_ends = works 0 (omega arith) (λ e. cc e) rests

stop-terminates_example :
    (k : ℕ) × (w : Mining) × Works test_hashing easy single k
      (run_thread test_hashing easy single 0
        (stop test_hashing easy single (start test_hashing easy single)))
      w
    × AllDone test_hashing easy single w
    × (1 + k ≤ 5 * single.threads)
stop-terminates_example =
    stop-terminates test_hashing easy single 1 (start test_hashing easy single) _ first_ends

load_spec_cases_example :
    (IsBuiltIn "local" × Built (some (7 ∷ [])) (load_spec (some (7 ∷ [])) (λ f. inl f) "local"))
    ⊎ ((¬ IsBuiltIn "local") × (load_spec (some (7 ∷ [])) (λ f. inl f) "local" ≡ inl "local"))
load_spec_cases_example = load_spec_cases (some (7 ∷ [])) (λ f. inl f) "local"

-- Keys sign by their name, and an era is the block that it was made for.
abbrev toy_benchmarks : BenchmarkLibrary ℕ ℕ ℕ ℕ ℕ String
toy_benchmarks = record {
  block_hash = λ n. inr (some (n + 100));
  best_hash = 150;
  best_number = 50;
  mortal = λ period current. current;
  encode = λ payload. payload.implicit.era_hash ∷ [];
  sign = λ pair message. pair;
  public = λ pair. pair;
  bob = 2;
}

abbrev toy_chain : Chain ℕ ℕ ℕ ℕ
toy_chain = record {
  hash_at = λ n. n + 100;
  birth = λ era current. era;
  verify = λ signature message public. signature == public;
}

toy_laws : ChainLaws toy_benchmarks toy_chain
toy_laws = record {
  era_birth = λ k n current a b c d. refl;
  verify_sign = λ pair message. ground arith;
  best = refl;
  genesis = refl;
}

create_benchmark_extrinsic-Accepted_example :
    (x : UncheckedExtrinsic ℕ ℕ ℕ) × (create_benchmark_extrinsic toy_benchmarks 2
        (RuntimeCall.remark [])
        0
      ≡ some x)
    × (x.call ≡ RuntimeCall.remark [])
    × (x.extension.check_nonce ≡ 0)
    × (x.signer ≡ 2)
    × Accepted toy_benchmarks toy_chain 51 x
create_benchmark_extrinsic-Accepted_example =
    create_benchmark_extrinsic-Accepted toy_benchmarks toy_chain toy_laws 2 (RuntimeCall.remark [])
      0 51 (omega arith) (omega arith)

validator_marks :
    expected_marks validator_config
    ≡ task telemetry_task ∷ Mark.start ∷ task aura_task ∷ task grandpa_task ∷ []
validator_marks = refl

new_full-marks_example :
    let r = new_full toy_library validator_config [] in
    (Ends r.0 × (marks r.1 ≡ expected_marks validator_config))
    ⊎ ((¬ Ends r.0) × IsPrefix (marks r.1) (expected_marks validator_config))
new_full-marks_example = new_full-marks toy_library validator_config

abbrev no_start : Miner → MiningBlockHeader → Option (ℕ × MiningStats ℕ)
no_start miner header = none

run-marks_example :
    let r =
      run (λ backend. toy_library) toy_commands false no_start (some (Subcommand.revert "1")) [] in
    let whole =
      started_with
        (λ backend. toy_library)
        toy_commands
        false
        no_start
        (inr validator_config)
        (started_by
          (λ backend. toy_library)
          toy_commands
          false
          no_start
          (some (Subcommand.revert "1"))) in
    (Ends r.0 × (marks r.1 ≡ whole)) ⊎ ((¬ Ends r.0) × IsPrefix (marks r.1) whole)
run-marks_example =
    run-marks (λ backend. toy_library) toy_commands false no_start (some (Subcommand.revert "1"))
