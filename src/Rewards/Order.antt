-- ===== src/Rewards/Order.antt =====
-- The order in which storage iterates over the stakers does not matter to what a distribution pays.
use ghost_blockchain.Base.{ℕ, ◌+◌, ◌≤◌, ◌≡◌, List, [], ◌∷◌, arith, u128_max, sym, ◌∙◌, ap}
use mathlib.Core.List.{Perm, Permᴰ}
use mathlib.Core.Logic.{∥∥₁_elim}
use native.Mathlib.Nat.{ℕ_set}
use ghost_blockchain.Types.{ValidatorStake, BlockReward}
use ghost_blockchain.Environment.{Currency, DepositLaws}
use ghost_blockchain.Rewards.{distribute_rewards, staker_reward}
use ghost_blockchain.Rewards.Shares.{stake_of}
use ghost_blockchain.Rewards.Payments.{credit, due, distribute_rewards-due}

abbrev sum_of {ℓ} : {A : Type ℓ} → (A → ℕ) → List A → ℕ
sum_of f [] = 0
sum_of f (x ∷ xs) = f x + sum_of f xs

-- A sum does not depend on the order.
sum_of-Permᴰ {ℓ} :
    {A : Type ℓ} (f : A → ℕ) (xs ys : List A) → Permᴰ xs ys → sum_of f xs ≡ sum_of f ys
sum_of-Permᴰ f _ _ Permᴰ.nil = omega arith
sum_of-Permᴰ f _ _ (Permᴰ.cons {l₁ = l₁} {l₂ = l₂} e p) =
    omega (arith, ap f e, sum_of-Permᴰ f l₁ l₂ p)
sum_of-Permᴰ f _ _ (Permᴰ.swap e e') = omega (arith, ap f e, ap f e')
sum_of-Permᴰ f _ _ (Permᴰ.trans {l₁ = l₁} {l₂ = l₂} {l₃ = l₃} p q) =
    sum_of-Permᴰ f l₁ l₂ p ∙ sum_of-Permᴰ f l₂ l₃ q

sum_of-Perm {ℓ} : {A : Type ℓ} (f : A → ℕ) (xs ys : List A) → Perm xs ys → sum_of f xs ≡ sum_of f ys
sum_of-Perm f xs ys p = ∥∥₁_elim p (ℕ_set (sum_of f xs) (sum_of f ys)) (sum_of-Permᴰ f xs ys)

stake_of-sum :
    (ss : List ValidatorStake) → stake_of ss ≡ sum_of (λ (s : ValidatorStake). s.stake) ss
stake_of-sum [] = omega arith
stake_of-sum (s ∷ ss) = omega (arith, stake_of-sum ss)

due-sum :
    (reward total j : ℕ) (ss : List ValidatorStake)
    → due reward total j ss
      ≡ sum_of (λ (s : ValidatorStake). credit j s.account (staker_reward reward total s.stake)) ss
due-sum reward total j [] = omega arith
due-sum reward total j (s ∷ ss) = omega (arith, due-sum reward total j ss)

stake_of-Perm : (ss ts : List ValidatorStake) → Perm ss ts → stake_of ss ≡ stake_of ts
stake_of-Perm ss ts p = stake_of-sum ss ∙ sum_of-Perm _ ss ts p ∙ sym (stake_of-sum ts)

due-Perm :
    (reward total j : ℕ) (ss ts : List ValidatorStake)
    → Perm ss ts
    → due reward total j ss ≡ due reward total j ts
due-Perm reward total j ss ts p =
    due-sum reward total j ss ∙ sum_of-Perm _ ss ts p ∙ sym (due-sum reward total j ts)

module _ {L : Type 0} (c : Currency L) (laws : DepositLaws c) where
  -- If the ledger keeps the documented promises of a deposit and the stakes add up within a `u128`,
  -- a distribution over the same stakers in another order leaves an account that exists with the
  -- same balance, if its balance with its payments fits in a `u128`.
  pub distribute_rewards-Perm :
      (miner j : ℕ) (ss ts : List ValidatorStake) (r : BlockReward) (l : L)
      → Perm ss ts
      → stake_of ss ≤ u128_max
      → c.existential_deposit ≤ c.free_balance l j
      → c.free_balance l j
          + (credit j miner r.miner_reward + due r.stakers_reward (stake_of ss) j ss)
        ≤ u128_max
      → c.free_balance (distribute_rewards c miner ss r l) j
        ≡ c.free_balance (distribute_rewards c miner ts r l) j
  distribute_rewards-Perm miner j ss ts r l p sum live fits =
      let total = stake_of-Perm ss ts p in
      let each = due-Perm r.stakers_reward (stake_of ss) j ss ts p in
      let each' : due r.stakers_reward (stake_of ss) j ss
          ≡ due r.stakers_reward (stake_of ts) j ts =
        each ∙ ap (λ t. due r.stakers_reward t j ts) total in
      let first = distribute_rewards-due c laws miner j ss r l sum live fits in
      let second =
        distribute_rewards-due c laws miner j ts r l (omega (arith, total, sum)) live
          (omega (arith, each', fits)) in
      ground (arith, first, second, total, each')
