-- ===== src/Tests/Units/Functions.antt =====
-- The tests of the functions: difficulty, proof of work, selection, rewards and headers.
use ghost_blockchain.Base.{◌≡◌, refl, some, none, true, List, [], ◌∷◌, u64_max}
use ghost_blockchain.Types.{GhostBlockHeader, ValidatorStake, Error, DispatchError, H256}
use ghost_blockchain.State.{err}
use ghost_blockchain.Pow.{
  prefix_value, verify_pow, verify_pow_enhanced, verify_pow_sha256, verify_pow_keccak,
}
use ghost_blockchain.Difficulty.{calculate_difficulty_adjustment}
use ghost_blockchain.Selection.{select_pos_validator, select_by, total_weight_from, walk}
use ghost_blockchain.Rewards.{calculate_block_reward}
use ghost_blockchain.Header.{validate_block_header}
use ghost_blockchain.Tests.World.{test_hashing}
use ghost_blockchain.Tests.Units.{ghost, genesis, block_header}

test_difficulty_adjustment_increase :
    calculate_difficulty_adjustment 1_000_000 3 5 4_000_000 ≡ 600_000
unfolding calculate_difficulty_adjustment
test_difficulty_adjustment_increase = refl

test_difficulty_adjustment_decrease :
    calculate_difficulty_adjustment 1_000_000 10 5 4_000_000 ≡ 2_000_000
unfolding calculate_difficulty_adjustment
test_difficulty_adjustment_decrease = refl

test_pow_verification_different_algorithms :
    (verify_pow test_hashing (block_header 1 12345) u64_max ≡ true)
    × (verify_pow_enhanced test_hashing (block_header 1 12345) u64_max ≡ true)
    × (verify_pow_sha256 test_hashing (block_header 1 12345) u64_max ≡ true)
    × (verify_pow_keccak test_hashing (block_header 1 12345) u64_max ≡ true)
unfolding verify_pow verify_pow_enhanced verify_pow_sha256 verify_pow_keccak prefix_value
test_pow_verification_different_algorithms = (refl, refl, refl, refl)

-- `H256::from_low_u64_be(12345)`
abbrev seed : H256
seed =
    0 ∷ 0 ∷ 0 ∷ 0 ∷ 0 ∷ 0 ∷ 0 ∷ 0 ∷ 0 ∷ 0 ∷ 0 ∷ 0 ∷ 0 ∷ 0 ∷ 0 ∷ 0 ∷ 0 ∷ 0 ∷ 0 ∷ 0 ∷ 0 ∷ 0 ∷ 0 ∷ 0
    ∷ 0 ∷ 0 ∷ 0 ∷ 0 ∷ 0 ∷ 0 ∷ 48 ∷ 57 ∷ []

abbrev stakers : List ValidatorStake
stakers =
    record { account = 1; stake = ghost 50; weight = 50 }
    ∷ record { account = 2; stake = ghost 30; weight = 30 }
    ∷ record { account = 3; stake = ghost 20; weight = 20 }
    ∷ []

-- The first eight bytes of the seed are 0, so the first staker is selected.
test_validator_selection_weighted :
    select_pos_validator 0 stakers seed ≡ some (record { validator = 1; weight = 50; round = 0 })
unfolding select_pos_validator select_by total_weight_from walk prefix_value
test_validator_selection_weighted = refl

test_validator_selection_empty : select_pos_validator 0 [] seed ≡ none
unfolding select_pos_validator
test_validator_selection_empty = refl

test_block_reward_calculation :
    calculate_block_reward (ghost 10)
    ≡ record { total = ghost 10; miner_reward = ghost 4; stakers_reward = ghost 6 }
unfolding calculate_block_reward
test_block_reward_calculation = refl

abbrev parent_header : GhostBlockHeader
parent_header = block_header 0 100

test_block_header_validation_wrong_number :
    (validate_block_header test_hashing
      (record (block_header 5 200) { parent_hash = test_hashing.hash_of_header parent_header })
      parent_header
      genesis).0
    ≡ err (DispatchError.module_error Error.invalid_block_number)
unfolding validate_block_header
test_block_header_validation_wrong_number = refl

test_block_header_validation_wrong_parent :
    (validate_block_header test_hashing
      (record (block_header 1 200) { parent_hash = 9 ∷ [] })
      parent_header
      genesis).0
    ≡ err (DispatchError.module_error Error.invalid_parent_hash)
unfolding validate_block_header
test_block_header_validation_wrong_parent = refl
