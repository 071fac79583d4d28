-- ===== src/Rewards/Payments.antt =====
-- What a distribution pays to each account.
use ghost_blockchain.Base.{
  ℕ, ◌+◌, ◌≤◌, ◌≡◌, List, [], ◌∷◌, arith, u128_max, ◌==◌, if◌then◌else◌, ℕ_discrete,
}
use ghost_blockchain.Types.{ValidatorStake, BlockReward}
use ghost_blockchain.Environment.{Currency, DepositLaws}
use ghost_blockchain.Rewards.{total_stake_from, staker_reward, pay_stakers, distribute_rewards}
use ghost_blockchain.Rewards.Shares.{stake_of, total_stake-eq}

-- `amount` if the account is the one that is paid.
abbrev pub credit : (j who amount : ℕ) → ℕ
credit j who amount = if j == who then amount else 0

-- What the entries of account `j` among the stakers are due.
abbrev pub due : (reward total j : ℕ) → List ValidatorStake → ℕ
due reward total j [] = 0
due reward total j (s ∷ ss) =
    credit j s.account (staker_reward reward total s.stake) + due reward total j ss

module _ {L : Type 0} (c : Currency L) (laws : DepositLaws c) where
  deposit-credit :
      (l : L) (who amount j : ℕ)
      → c.existential_deposit ≤ c.free_balance l j
      → c.free_balance l j + credit j who amount ≤ u128_max
      → c.free_balance (c.deposit_creating l who amount) j
        ≡ c.free_balance l j + credit j who amount
  deposit-credit l who amount j live fits =
      ground (arith, laws.deposit_others l who amount j, laws.deposit_credits l who amount)

  pay_stakers-due :
      (reward total j : ℕ) (ss : List ValidatorStake) (l : L)
      → c.existential_deposit ≤ c.free_balance l j
      → c.free_balance l j + due reward total j ss ≤ u128_max
      → c.free_balance (pay_stakers c reward total ss l) j
        ≡ c.free_balance l j + due reward total j ss
  unfolding pay_stakers
  pay_stakers-due reward total j [] l live fits = omega arith
  pay_stakers-due reward total j (s ∷ ss) l live fits =
      let part = staker_reward reward total s.stake in
      let step = deposit-credit l s.account part j live (omega arith) in
      omega (
        arith,
        step,
        pay_stakers-due reward total j ss (c.deposit_creating l s.account part)
            (omega (arith, step)) (omega (arith, step)),
      )

  -- If the ledger keeps the documented promises of a deposit and the stakes add up within a `u128`,
  -- an account that exists, and whose balance with its payments fits in a `u128`, receives the
  -- miner's reward if it is the miner, and the share of each of its stakes; if every stake is 0,
  -- the miner's alone.
  pub distribute_rewards-due :
      (miner j : ℕ) (ss : List ValidatorStake) (r : BlockReward) (l : L)
      → stake_of ss ≤ u128_max
      → c.existential_deposit ≤ c.free_balance l j
      → c.free_balance l j
          + (credit j miner r.miner_reward + due r.stakers_reward (stake_of ss) j ss)
        ≤ u128_max
      → c.free_balance (distribute_rewards c miner ss r l) j
        ≡ c.free_balance l j
          + (credit j miner r.miner_reward
              + (if stake_of ss == 0 then 0 else due r.stakers_reward (stake_of ss) j ss))
  unfolding distribute_rewards
  distribute_rewards-due miner j ss r l sum live fits =
      let total : total_stake_from 0 ss ≡ stake_of ss =
        omega (arith, total_stake-eq 0 ss (omega arith)) in
      let paid = deposit-credit l miner r.miner_reward j live (omega arith) in
      rw total (
        ground (
          arith,
          paid,
          pay_stakers-due r.stakers_reward (stake_of ss) j ss
              (c.deposit_creating l miner r.miner_reward),
        ))

  -- No distribution takes from an account.
  deposit-le :
      (l : L) (who amount j : ℕ)
      → c.free_balance l j ≤ c.free_balance (c.deposit_creating l who amount) j
  deposit-le l who amount j = elim (ℕ_discrete j who) [
    | yes same ↦ rw same (omega (arith, laws.deposit_atomic l who amount))
    | no other ↦ omega (arith, laws.deposit_others l who amount j other)
  ]

  pay_stakers-le :
      (reward total j : ℕ) (ss : List ValidatorStake) (l : L)
      → c.free_balance l j ≤ c.free_balance (pay_stakers c reward total ss l) j
  unfolding pay_stakers
  pay_stakers-le reward total j [] l = omega arith
  pay_stakers-le reward total j (s ∷ ss) l =
      let part = staker_reward reward total s.stake in
      omega (
        arith,
        deposit-le l s.account part j,
        pay_stakers-le reward total j ss (c.deposit_creating l s.account part),
      )

  -- A distribution lowers no balance.
  pub distribute_rewards-le :
      (miner j : ℕ) (ss : List ValidatorStake) (r : BlockReward) (l : L)
      → c.free_balance l j ≤ c.free_balance (distribute_rewards c miner ss r l) j
  unfolding distribute_rewards
  distribute_rewards-le miner j ss r l = ground (
    arith,
    deposit-le l miner r.miner_reward j,
    pay_stakers-le r.stakers_reward (total_stake_from 0 ss) j ss
        (c.deposit_creating l miner r.miner_reward),
  )
