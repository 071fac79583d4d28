-- ===== src/Pallet/Validate/Helper.antt =====
-- The pallet's own reward helper does what the free function does.
use ghost_blockchain.Base.{ℕ, ◌≡◌, List, [], ◌∷◌, ◌++◌, refl, ap}
use ghost_blockchain.Types.{ValidatorStake, BlockReward, Event}
use ghost_blockchain.Environment.{Environment}
use ghost_blockchain.State.{State, ok}
use ghost_blockchain.Rewards.{calculate_block_reward, distribute_rewards, total_stake_from}
use ghost_blockchain.Pallet.Validate.{stakers, distribute, pay_if_any, distribute_block_rewards}

module _ {L : Type 0} (env : Environment L) where
  pay_if_any-distribute :
      (miner : ℕ) (reward : BlockReward) (ss : List ValidatorStake) (l : L)
      → pay_if_any env reward.stakers_reward ss
          (env.currency.deposit_creating l miner reward.miner_reward)
        ≡ distribute_rewards env.currency miner ss reward l
  unfolding pay_if_any distribute_rewards total_stake_from
  pay_if_any-distribute miner reward [] l = refl
  pay_if_any-distribute miner reward (s ∷ ss) l = refl

  -- `distribute_block_rewards` always succeeds; it changes the ledger as `distribute_rewards` of
  -- functions.rs does for the configured reward and the stakers, and deposits `RewardsDistributed`.
  -- The block number plays no part.
  pub distribute_block_rewards_lem :
      (miner block_number : ℕ) (s : State L)
      → let reward = calculate_block_reward env.config.block_reward in
        distribute_block_rewards env miner block_number s ≡ (
          ok tt,
          record (distribute env miner reward s) {
            events =
                s.events
                ++ Event.rewards_distributed miner reward.miner_reward reward.stakers_reward ∷ [];
          },
        )
  unfolding distribute_block_rewards
  distribute_block_rewards_lem miner block_number s =
      let reward = calculate_block_reward env.config.block_reward in
      ap
        (λ l. (
          ok tt,
          record s {
            ledger = l;
            events =
                s.events
                ++ Event.rewards_distributed miner reward.miner_reward reward.stakers_reward ∷ [];
          },
        ))
        (pay_if_any-distribute miner reward (stakers s.validator_stakes) s.ledger)
