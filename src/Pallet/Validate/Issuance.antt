-- ===== src/Pallet/Validate/Issuance.antt =====
-- A validation issues no more than the block reward.
use ghost_blockchain.Base.{ℕ, ◌+◌, ◌*◌, ◌≤◌, ◌≡◌, List, arith, u128_max, subst, sym}
use ghost_blockchain.Types.{PqcSignature, Origin}
use ghost_blockchain.Environment.{Environment, DepositLaws}
use ghost_blockchain.State.{State, ok}
use ghost_blockchain.Rewards.{calculate_block_reward}
use ghost_blockchain.Rewards.Split.{block_reward_split}
use ghost_blockchain.Rewards.Shares.{stake_of}
use ghost_blockchain.Rewards.Issuance.{AllDifferent, holdings, distribute_rewards-holdings}
use ghost_blockchain.Pallet.Validate.{stakers, validate_block}
use ghost_blockchain.Pallet.Transitions.{validate_block-ok}

module _ {L : Type 0} (env : Environment L) (laws : DepositLaws env.currency) where
  -- If the ledger keeps the documented promises of a deposit, 40 times the block reward and the
  -- block reward times the stakes fit in a `u128`, and so do the stakes, a successful
  -- `validate_block` lets any accounts together gain at most the block reward.
  pub validate_block-holdings :
      (validator block_number : ℕ) (sig : PqcSignature) (js : List ℕ) (s t : State L)
      → AllDifferent js
      → env.config.block_reward * 40 ≤ u128_max
      → stake_of (stakers s.validator_stakes) ≤ u128_max
      → env.config.block_reward * stake_of (stakers s.validator_stakes) ≤ u128_max
      → validate_block env (Origin.signed validator) block_number sig s ≡ (ok tt, t)
      → holdings env.currency js t.ledger
        ≤ holdings env.currency js s.ledger + env.config.block_reward
  validate_block-holdings validator block_number sig js s t different exact sum fits validated =
      let (header, selection, miner, v, found, done) =
        validate_block-ok env validator block_number sig s t validated in
      let r = calculate_block_reward env.config.block_reward in
      let split = block_reward_split env.config.block_reward exact in
      let total = stake_of (stakers s.validator_stakes) in
      let smaller : r.stakers_reward * total ≤ u128_max = grind (arith, split, fits) in
      let gained =
        distribute_rewards-holdings env.currency laws miner js (stakers s.validator_stakes) r
          s.ledger different sum smaller in
      subst
        (λ (u : State L).
          holdings env.currency js u.ledger
          ≤ holdings env.currency js s.ledger + env.config.block_reward)
        (sym done) (omega (arith, split, gained))
