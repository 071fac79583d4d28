-- ===== src/Tests/Units/Replay.antt =====
-- A second validation of a block: after block 1 was mined and validated, block 2 is mined, and Bob
-- validates block 1 once more.
use ghost_blockchain.Base.{◌≡◌, refl, some, lookup, insert, u64_max}
use ghost_blockchain.Types.{GhostBlockHeader, ConsensusPhase, Origin}
use ghost_blockchain.State.{State, ok}
use ghost_blockchain.Pow.{verify_pow_enhanced, prefix_value}
use ghost_blockchain.Header.{validate_block_header}
use ghost_blockchain.Selection.{select_pos_validator, select_by, total_weight_from, walk}
use ghost_blockchain.Rewards.{
  distribute_rewards, calculate_block_reward, pay_stakers, staker_reward, total_stake_from,
}
use ghost_blockchain.Pallet.Stake.{stake, register_pqc_key}
use ghost_blockchain.Pallet.Submit.{submit_block, record_block}
use ghost_blockchain.Pallet.Validate.{sign_header, validate_block, check_pqc, verify_pqc_signature}
use ghost_blockchain.Pallet.Hooks.{on_finalize}
use ghost_blockchain.Tests.World.{Ledger, test_hashing}
use ghost_blockchain.Tests.Units.{mock_env, ghost, block_header}
use ghost_blockchain.Tests.Units.Round.{public_key, child_header, validated}

abbrev finalized : State Ledger
finalized = on_finalize mock_env 1 validated

-- Block 2 builds on block 1 as Bob signed it.
abbrev second_header : GhostBlockHeader
second_header = record (block_header 2 124) {
  parent_hash =
      test_hashing.hash_of_header
        (sign_header mock_env 2 1 (record { bytes = public_key }) child_header);
  difficulty = u64_max;
}

-- Charlie mines block 2.
abbrev second_mined : State Ledger
second_mined = (submit_block mock_env (Origin.signed 3) second_header finalized).1

abbrev replayed : State Ledger
replayed =
    (validate_block mock_env (Origin.signed 2) 1 (record { bytes = public_key }) second_mined).1

-- Alice and Bob are paid for block 1 a second time, Charlie is not paid for block 2, and the phase
-- moves on, so that block 2 keeps no validator's signature.
test_second_validation :
    ((submit_block mock_env (Origin.signed 3) second_header finalized).0 ≡ ok tt)
    × ((validate_block mock_env (Origin.signed 2) 1 (record { bytes = public_key }) second_mined).0
        ≡ ok tt)
    × (replayed.current_phase ≡ ConsensusPhase.finalization)
    × (replayed.ledger 1 ≡ ghost 108)
    × (replayed.ledger 2 ≡ ghost 102)
    × (replayed.ledger 3 ≡ ghost 100)
    × (lookup 2 replayed.block_headers ≡ some second_header)
unfolding stake register_pqc_key submit_block validate_block_header verify_pow_enhanced prefix_value
    record_block insert select_pos_validator select_by total_weight_from walk validate_block
    check_pqc verify_pqc_signature distribute_rewards calculate_block_reward pay_stakers
    staker_reward total_stake_from on_finalize
test_second_validation = (refl, refl, refl, refl, refl, refl, refl)
