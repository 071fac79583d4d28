-- ===== src/Tests/Units/Round.antt =====
-- `test_submit_block_tracks_miner_and_validate_block_distributes_rewards`: Bob stakes and registers
-- a key, Alice mines a block, and Bob validates it.
use ghost_blockchain.Base.{ℕ, ◌≡◌, refl, some, List, [], ◌∷◌, lookup, insert, u64_max}
use ghost_blockchain.Types.{GhostBlockHeader, ConsensusPhase, Origin}
use ghost_blockchain.State.{State, ok}
use ghost_blockchain.Pow.{verify_pow_enhanced, prefix_value}
use ghost_blockchain.Header.{validate_block_header}
use ghost_blockchain.Selection.{select_pos_validator, select_by, total_weight_from, walk}
use ghost_blockchain.Rewards.{
  distribute_rewards, calculate_block_reward, pay_stakers, staker_reward, total_stake_from,
}
use ghost_blockchain.Pallet.Stake.{stake, register_pqc_key}
use ghost_blockchain.Pallet.Submit.{submit_block, record_block}
use ghost_blockchain.Pallet.Validate.{validate_block, check_pqc, verify_pqc_signature}
use ghost_blockchain.Tests.World.{Ledger, test_hashing}
use ghost_blockchain.Tests.Units.{mock_env, escrow_account, ghost, genesis, block_header}

abbrev pub public_key : List ℕ
public_key = 7 ∷ []

abbrev parent_header : GhostBlockHeader
parent_header = block_header 0 99

abbrev pub child_header : GhostBlockHeader
child_header = record (block_header 1 123) {
  parent_hash = test_hashing.hash_of_header parent_header;
  difficulty = u64_max;
}

-- Bob has staked and registered his key, and the parent is stored.
abbrev ready : State Ledger
ready =
    let staked =
      (stake mock_env (Origin.signed 2) (ghost 10) (record genesis { difficulty = u64_max })).1 in
    let registered = (register_pqc_key mock_env (Origin.signed 2) public_key staked).1 in
    record registered { block_headers = insert mock_env.before 0 parent_header [] }

abbrev mined : State Ledger
mined = (submit_block mock_env (Origin.signed 1) child_header ready).1

abbrev pub validated : State Ledger
validated = (validate_block mock_env (Origin.signed 2) 1 (record { bytes = public_key }) mined).1

test_submit_block_tracks_miner :
    ((submit_block mock_env (Origin.signed 1) child_header ready).0 ≡ ok tt)
    × (lookup 1 mined.block_producers ≡ some 1)
    × (mined.current_phase ≡ ConsensusPhase.pos_validation)
unfolding stake register_pqc_key submit_block validate_block_header verify_pow_enhanced prefix_value
    record_block insert
test_submit_block_tracks_miner = (refl, refl, refl)

test_validate_block_distributes_rewards :
    ((validate_block mock_env (Origin.signed 2) 1 (record { bytes = public_key }) mined).0 ≡ ok tt)
    × (validated.current_phase ≡ ConsensusPhase.finalization)
    × (lookup 1 validated.block_producers ≡ some 1)
    × (validated.ledger 1 ≡ ghost 104)
    × (validated.ledger 2 ≡ ghost 96)
    × (validated.ledger escrow_account ≡ ghost 10)
unfolding stake register_pqc_key submit_block validate_block_header verify_pow_enhanced prefix_value
    record_block insert select_pos_validator select_by total_weight_from walk validate_block
    check_pqc verify_pqc_signature distribute_rewards calculate_block_reward pay_stakers
    staker_reward total_stake_from
test_validate_block_distributes_rewards = (refl, refl, refl, refl, refl, refl)
