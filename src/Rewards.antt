-- ===== src/Rewards.antt =====
-- `calculate_block_reward` and `distribute_rewards` of
-- pallets/pallet-ghost-consensus/src/functions.rs, on the ledger of the balances pallet. Balances
-- are `u128`, and `+ - *` on them wrap in a release build.
pub mod Split
pub mod Shares
pub mod Payments
pub mod Order
pub mod Issuance
pub mod Transfers
use ghost_blockchain.Base.{
  ℕ, ◌+◌, ◌*◌, ◌/◌, List, [], ◌∷◌, ◌==◌, if◌then◌else◌, wrap_u128, wrapping_sub_u128,
}
use ghost_blockchain.Types.{BlockReward, ValidatorStake}
use ghost_blockchain.Environment.{Currency}

unfoldable pub calculate_block_reward : ℕ → BlockReward
calculate_block_reward total_reward =
    let miner_reward = wrap_u128 (total_reward * 40) / 100 in
    record {
      total = total_reward;
      miner_reward = miner_reward;
      stakers_reward = wrapping_sub_u128 total_reward miner_reward;
    }

-- `stakers.iter().fold(Zero::zero(), |acc, s| acc + s.stake)`
unfoldable pub total_stake_from : ℕ → List ValidatorStake → ℕ
total_stake_from acc [] = acc
total_stake_from acc (s ∷ ss) = total_stake_from (wrap_u128 (acc + s.stake)) ss

-- A staker's part of the stakers' reward.
unfoldable pub staker_reward : (stakers_reward total_stake stake : ℕ) → ℕ
staker_reward stakers_reward total_stake stake = wrap_u128 (stakers_reward * stake) / total_stake

-- The loop over the stakers.
unfoldable pub pay_stakers :
    {L : Type 0} → Currency L → (reward total : ℕ) → List ValidatorStake → L → L
pay_stakers c reward total [] l = l
pay_stakers c reward total (s ∷ ss) l =
    pay_stakers c reward total ss
      (c.deposit_creating l s.account (staker_reward reward total s.stake))

-- The two steps of both ways to distribute: the miner, then the stakers if some stake is not 0.
unfoldable pub distribute_rewards :
    {L : Type 0} → Currency L → (miner : ℕ) → List ValidatorStake → BlockReward → L → L
distribute_rewards c miner stakers reward l =
    let paid = c.deposit_creating l miner reward.miner_reward in
    let total_stake = total_stake_from 0 stakers in
    if total_stake == 0 then paid else pay_stakers c reward.stakers_reward total_stake stakers paid
