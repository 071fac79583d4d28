-- ===== src/Tests/Mining.antt =====
-- The miner works on a header over the stored header of the start state.
use ghost_blockchain.Base.{ℕ, zero, suc, ◌≡◌, refl, arith, some, [], ◌∷◌}
use ghost_blockchain.Types.{Origin}
use ghost_blockchain.State.{ok}
use ghost_blockchain.Pow.{prefix_value, enhanced_value}
use ghost_blockchain.Miner.{
  MiningBlockHeader, MiningStats, Mining, Run, AllDone, run_thread, advance, advance_at, start,
  result,
}
use ghost_blockchain.Miner.Progress.{run_alone}
use ghost_blockchain.Miner.Submission.{mined_block, BuildsOn, result-submit_block}
use ghost_blockchain.Pallet.Submit.{submit_block}
use ghost_blockchain.Pallet.Submit.Outcome.{mined}
use ghost_blockchain.Tests.World.{test_env, test_hashing, test_header, start_state}
use ghost_blockchain.Tests.Nodes.{single, rate, run_alone-Run}

abbrev work : MiningBlockHeader
work = record {
  number = 1;
  parent_hash = 0 ∷ [];
  state_root = [];
  extrinsics_root = [];
  difficulty = 100;
}

abbrev ended : Mining
ended = run_alone test_hashing work single 6 0 (start test_hashing work single)

ended-Run : Run test_hashing work single ended
ended-Run = run_alone-Run work 6 (start test_hashing work single) Run.started

ended_done : AllDone test_hashing work single ended
unfolding start run_thread advance advance_at enhanced_value prefix_value
ended_done zero lt = refl
ended_done (suc i) lt = absurd (omega arith)

builds : BuildsOn test_env work (test_header 0 0) start_state
builds = record {
  mining = refl;
  above = omega arith;
  stored = refl;
  next_number = refl;
  links = refl;
  not_low = omega arith;
  not_high = omega arith;
}

result-submit_block_example :
    (nonce : ℕ) × (stats : MiningStats ℕ) × (result test_hashing work single rate 3 ended
      ≡ some (nonce, stats))
    × (submit_block test_env (Origin.signed 3) (mined_block work nonce) start_state
        ≡ (ok tt, mined test_env 3 (mined_block work nonce) start_state))
result-submit_block_example =
    result-submit_block test_env rate 3 3 work (test_header 0 0) single ended start_state
      (omega arith) ended-Run ended_done builds
