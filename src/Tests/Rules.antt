-- ===== src/Tests/Rules.antt =====
-- The theorems on selection, rewards, entropy, difficulty and the window, at concrete numbers.
use ghost_blockchain.Base.{
  ℕ, ◌+◌, ◌/◌, ◌%◌, ◌*◌, ◌≤◌, ◌<◌, ◌≡◌, ◌⊎◌, ◌↔◌, arith, some, none, List, [], ◌∷◌, length, ◌==◌,
  if◌then◌else◌, u64_max,
}
use mathlib.Core.List.{Perm}
use mathlib.Core.List.Perm
use ghost_blockchain.Types.{ValidatorStake, BlockReward}
use ghost_blockchain.Pow.{prefix_value}
use ghost_blockchain.Selection.{select_pos_validator}
use ghost_blockchain.Selection.Weighted.{weight_of, Owns, chosen, select_total}
use ghost_blockchain.Selection.Fairness.{count, selects, weight_at, count-selects}
use ghost_blockchain.Entropy.Order.{calculate_entropy-Perm}
use ghost_blockchain.Rewards.{distribute_rewards, staker_reward}
use ghost_blockchain.Rewards.Shares.{stake_of}
use ghost_blockchain.Rewards.Payments.{credit, due, distribute_rewards-due}
use ghost_blockchain.Rewards.Order.{distribute_rewards-Perm}
use ghost_blockchain.Entropy.{calculate_entropy, integer_log2_scaled}
use ghost_blockchain.Entropy.Counts.{AllSame}
use ghost_blockchain.Entropy.Bounds.{entropy-le, entropy-eq-zero_iff}
use ghost_blockchain.Difficulty.{calculate_difficulty_adjustment}
use ghost_blockchain.Difficulty.Bounds.{adjustment_bounds}
use ghost_blockchain.Difficulty.Monotone.{adjustment_mono}
use ghost_blockchain.Tests.World.{test_currency, test_deposits, start_ledger}

abbrev one : ValidatorStake
one = record { account = 1; stake = 1000; weight = 1000 }

abbrev two : ValidatorStake
two = record { account = 2; stake = 3000; weight = 3000 }

abbrev both : List ValidatorStake
both = one ∷ two ∷ []

-- The value 2500 falls into the interval of the second staker.
abbrev seed : List ℕ
seed = 0 ∷ 0 ∷ 0 ∷ 0 ∷ 0 ∷ 0 ∷ 9 ∷ 196 ∷ []

select_total_example :
    ((weight_of both ≡ 0) × (select_pos_validator 5 both seed ≡ none))
    ⊎ ((owner : ValidatorStake) × Owns (prefix_value seed % weight_of both) both owner
        × (0 < owner.weight)
        × (select_pos_validator 5 both seed ≡ some (chosen 5 owner)))
select_total_example = select_total 5 both seed (omega arith)

-- Of 10,000 prefixes, two whole spans of 4,000 select the second staker 6,000 times.
count-selects_example :
    (10000 / weight_of both * weight_at 2 both ≤ count (selects 2 5 both) 0 10000)
    × (count (selects 2 5 both) 0 10000
        ≤ 10000 / weight_of both * weight_at 2 both + weight_at 2 both)
count-selects_example = count-selects 2 5 both 10000 (omega arith) (omega arith)

calculate_entropy-Perm_example :
    calculate_entropy (1 ∷ 2 ∷ 2 ∷ []) ≡ calculate_entropy (2 ∷ 1 ∷ 2 ∷ [])
calculate_entropy-Perm_example =
    calculate_entropy-Perm (1 ∷ 2 ∷ 2 ∷ []) (2 ∷ 1 ∷ 2 ∷ []) (Perm.swap 2 1 (2 ∷ []))

abbrev reward : BlockReward
reward = record { total = 1000; miner_reward = 400; stakers_reward = 600 }

fits :
    start_ledger 2
      + (credit 2 1 reward.miner_reward + due reward.stakers_reward (stake_of both) 2 both)
    ≤ 340282366920938463463374607431768211455
unfolding staker_reward
fits = omega arith

distribute_rewards-due_example :
    distribute_rewards test_currency 1 both reward start_ledger 2
    ≡ start_ledger 2
      + (credit 2 1 reward.miner_reward
          + (if stake_of both == 0 then 0 else due reward.stakers_reward (stake_of both) 2 both))
distribute_rewards-due_example =
    distribute_rewards-due test_currency test_deposits 1 2 both reward start_ledger (omega arith)
      (omega arith) fits

turned : Perm both (two ∷ one ∷ [])
turned = Perm.swap two one []

distribute_rewards-Perm_example :
    distribute_rewards test_currency 1 both reward start_ledger 2
    ≡ distribute_rewards test_currency 1 (two ∷ one ∷ []) reward start_ledger 2
distribute_rewards-Perm_example =
    distribute_rewards-Perm test_currency test_deposits 1 2 both (two ∷ one ∷ []) reward
      start_ledger turned (omega arith) (omega arith) fits

entropy-eq-zero_iff_example : (calculate_entropy (3 ∷ 5 ∷ 3 ∷ []) ≡ 0) ↔ AllSame 3 (5 ∷ 3 ∷ [])
entropy-eq-zero_iff_example = entropy-eq-zero_iff 3 (5 ∷ 3 ∷ []) (omega arith)

entropy-le_example :
    calculate_entropy (3 ∷ 5 ∷ 3 ∷ []) ≤ integer_log2_scaled (length {A = ℕ} (3 ∷ 5 ∷ 3 ∷ []))
entropy-le_example = entropy-le 3 (5 ∷ 3 ∷ []) (omega arith)

adjustment_bounds_example :
    (1 ≤ calculate_difficulty_adjustment 100 7 5 1000000)
    × (calculate_difficulty_adjustment 100 7 5 1000000 ≤ u64_max)
adjustment_bounds_example = adjustment_bounds 100 7 5 1000000 (omega arith)

adjustment_mono_example :
    calculate_difficulty_adjustment 100 4 5 1000000
    ≤ calculate_difficulty_adjustment 200 6 4 2000000
adjustment_mono_example =
    adjustment_mono 100 200 4 6 5 4 1000000 2000000 (omega arith) (omega arith) (omega arith)
      (omega arith) (omega arith) (omega arith)
