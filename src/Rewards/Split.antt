-- ===== src/Rewards/Split.antt =====
-- The block reward is split into two parts that add up.
use ghost_blockchain.Base.{ℕ, ◌+◌, ◌*◌, ◌≤◌, ◌<◌, ◌≡◌, arith, u128_max}
use ghost_blockchain.Rewards.{calculate_block_reward}

-- If 40 times the reward fits in a `u128`, the two parts add up to the reward, and the miner's is
-- 40 per cent of it, rounded down.
pub block_reward_split :
    (total : ℕ)
    → total * 40 ≤ u128_max
    → let r = calculate_block_reward total in
      (r.total ≡ total)
      × (r.miner_reward + r.stakers_reward ≡ total)
      × (100 * r.miner_reward ≤ 40 * total)
      × (40 * total < 100 * r.miner_reward + 100)
unfolding calculate_block_reward
block_reward_split total h = ground arith
