-- ===== src/Rewards/Issuance.antt =====
-- A distribution creates no more than the block reward.
use ghost_blockchain.Base.{
  ℕ, ◌+◌, ◌*◌, ◌≤◌, ◌≡◌, ◌≢◌, List, [], ◌∷◌, arith, u128_max, ℕ_discrete, sym, subst,
}
use ghost_blockchain.Types.{ValidatorStake, BlockReward}
use ghost_blockchain.Environment.{Currency, DepositLaws}
use ghost_blockchain.Rewards.{staker_reward, pay_stakers, distribute_rewards}
use ghost_blockchain.Rewards.Shares.{stake_of, shares, total_stake-eq, shares_bounds}

-- A list of different accounts.
abbrev pub IsNew : ℕ → List ℕ → Type 0
IsNew j [] = Unit
IsNew j (k ∷ ks) = (j ≢ k) × IsNew j ks

abbrev pub AllDifferent : List ℕ → Type 0
AllDifferent [] = Unit
AllDifferent (j ∷ js) = IsNew j js × AllDifferent js

module _ {L : Type 0} (c : Currency L) where
  -- What the accounts have together.
  abbrev pub holdings : List ℕ → L → ℕ
  holdings [] l = 0
  holdings (j ∷ js) l = c.free_balance l j + holdings js l

  module _ (laws : DepositLaws c) where
    holdings-others :
        (js : List ℕ) (who amount : ℕ) (l : L)
        → IsNew who js
        → holdings js (c.deposit_creating l who amount) ≡ holdings js l
    holdings-others [] who amount l h = omega arith
    holdings-others (j ∷ js) who amount l (other, new) = omega (
      arith,
      laws.deposit_others l who amount j (λ e. other (sym e)),
      holdings-others js who amount l new,
    )

    holdings-deposit :
        (js : List ℕ) (who amount : ℕ) (l : L)
        → AllDifferent js
        → holdings js (c.deposit_creating l who amount) ≤ holdings js l + amount
    holdings-deposit [] who amount l h = omega arith
    holdings-deposit (j ∷ js) who amount l (new, rest) = elim (ℕ_discrete j who) [
      | yes same ↦
          let others = holdings-others js who amount l (subst (λ k. IsNew k js) same new) in
          rw same (omega (arith, others, laws.deposit_atomic l who amount))
      | no other ↦
          omega
            (arith, laws.deposit_others l who amount j other, holdings-deposit js who amount l rest)
    ]

    holdings-pay :
        (reward total : ℕ) (js : List ℕ) (ss : List ValidatorStake) (l : L)
        → AllDifferent js
        → holdings js (pay_stakers c reward total ss l) ≤ holdings js l + shares reward total ss
    unfolding pay_stakers
    holdings-pay reward total js [] l h = omega arith
    holdings-pay reward total js (s ∷ ss) l h =
        let part = staker_reward reward total s.stake in
        omega (
          arith,
          holdings-deposit js s.account part l h,
          holdings-pay reward total js ss (c.deposit_creating l s.account part) h,
        )

    -- If the ledger keeps the documented promises of a deposit and the products fit in a `u128`,
    -- any accounts together gain at most the miner's and the stakers' reward by a distribution.
    pub distribute_rewards-holdings :
        (miner : ℕ) (js : List ℕ) (ss : List ValidatorStake) (r : BlockReward) (l : L)
        → AllDifferent js
        → stake_of ss ≤ u128_max
        → r.stakers_reward * stake_of ss ≤ u128_max
        → holdings js (distribute_rewards c miner ss r l)
          ≤ holdings js l + (r.miner_reward + r.stakers_reward)
    unfolding distribute_rewards
    distribute_rewards-holdings miner js ss r l different sum fits =
        let total = total_stake-eq 0 ss (omega arith) in
        let paid = holdings-deposit js miner r.miner_reward l different in
        let rest =
          holdings-pay r.stakers_reward (stake_of ss) js ss
            (c.deposit_creating l miner r.miner_reward) different in
        rw total (ground (arith, paid, rest, shares_bounds r.stakers_reward ss))
