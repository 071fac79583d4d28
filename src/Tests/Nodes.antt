-- ===== src/Tests/Nodes.antt =====
-- The theorems on the miner, the worker, the node and the other pallet, at concrete runs.
use Prim.Native.String.{String}
use ghost_blockchain.Base.{ℕ, zero, suc, ◌+◌, ◌*◌, ◌≤◌, ◌≡◌, inr, refl, arith, true, some, none, []}
use ghost_blockchain.Types.{GhostBlockHeader}
use ghost_blockchain.Pow.{prefix_value, enhanced_value}
use ghost_blockchain.Miner.{
  Miner, new_miner, MiningBlockHeader, MiningStats, Mining, Run, ran, runs, AllDone, run_thread,
  advance, advance_at, start, result,
}
use ghost_blockchain.Miner.Safety.{IsHit, result-IsHit}
use ghost_blockchain.Miner.Fairness.{turns}
use ghost_blockchain.Miner.Turns.{Works}
use ghost_blockchain.Miner.Termination.{Run-terminates}
use ghost_blockchain.Miner.Submission.{Run-Reach}
use ghost_blockchain.Miner.Progress.{run_alone}
use ghost_blockchain.Worker.{GhostMiningWorker, max_attempts, mine_block}
use ghost_blockchain.Worker.Search.{Searched, mine_block-Searched}
use ghost_blockchain.Rpc.{Client}
use ghost_blockchain.Node.Commands.{sample_header}
use ghost_blockchain.Tests.World.{test_hashing, test_header}

-- Every nonce up to 100 is a hit, so that the first one is.
abbrev pub easy : MiningBlockHeader
easy = sample_header 100

abbrev pub single : Miner
single = new_miner 1 100

abbrev pub rate : (hashes elapsed : ℕ) → ℕ
rate hashes elapsed = hashes * elapsed

-- The only thread takes six steps.
pub run_alone-Run :
    (header : MiningBlockHeader) (n : ℕ) (m : Mining)
    → Run test_hashing header single m
    → Run test_hashing header single (run_alone test_hashing header single n 0 m)
run_alone-Run header zero m r = r
run_alone-Run header (suc n) m r =
    run_alone-Run header n (run_thread test_hashing header single 0 m)
      (ran r (runs 0 (omega arith)))

abbrev ended : Mining
ended = run_alone test_hashing easy single 6 0 (start test_hashing easy single)

ended-Run : Run test_hashing easy single ended
ended-Run = run_alone-Run easy 6 (start test_hashing easy single) Run.started

ended_done : AllDone test_hashing easy single ended
unfolding start run_thread advance advance_at enhanced_value prefix_value
ended_done zero lt = refl
ended_done (suc i) lt = absurd (omega arith)

abbrev ended_stats : MiningStats ℕ
ended_stats = record { hashes_computed = 1; blocks_found = 1; hash_rate = 3; elapsed_time = 3 }

ended-result : result test_hashing easy single rate 3 ended ≡ some (0, ended_stats)
unfolding result start run_thread advance advance_at enhanced_value prefix_value
ended-result = refl

result-IsHit_example : IsHit test_hashing easy single 0 × (ended_stats.blocks_found ≡ 1)
result-IsHit_example =
    result-IsHit test_hashing easy single rate 3 ended
      (Run-Reach test_hashing easy single ended ended-Run) ended_done 0 ended_stats ended-result

abbrev pub easy_block : GhostBlockHeader
easy_block = record (test_header 1 0) {
  parent_hash = easy.parent_hash;
  state_root = easy.state_root;
  extrinsics_root = easy.extrinsics_root;
}

hit : IsHit test_hashing easy single (0 + 0 * single.threads)
unfolding enhanced_value prefix_value
hit = omega arith

six_turns : turns test_hashing easy single 0 ended-Run ≡ 6
unfolding ended-Run run_alone-Run
six_turns = refl

Run-terminates_example :
    (ended.shared.found_solution ≡ true)
    × ((n : ℕ) (u : Mining)
        → Works test_hashing easy single n ended u
        → (j : ℕ) × (w : Mining) × Works test_hashing easy single j u w
          × AllDone test_hashing easy single w
          × (n + j ≤ 4 * single.threads))
Run-terminates_example =
    Run-terminates test_hashing easy single 0 0 ended ended-Run (omega arith) hit
      (omega (arith, six_turns))

abbrev worker : GhostMiningWorker
worker = record { difficulty = 100 }

mine_block-Searched_example :
    Searched test_hashing worker
      (test_header 1 0)
      0
      max_attempts
      (mine_block test_hashing worker (test_header 1 0))
mine_block-Searched_example = mine_block-Searched test_hashing worker (test_header 1 0)

-- A client whose API answers the number of the phase at each block.
abbrev client : Client ℕ String
client = record {
  best_hash = 4;
  api_get_difficulty = λ h. inr 100;
  api_get_current_phase = λ h. inr h;
  api_get_validator_stake = λ h v. inr none;
  api_get_all_validators = λ h. inr [];
  api_get_slashing_records_count = λ h. inr 0;
  display = λ e. e;
}
