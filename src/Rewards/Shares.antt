-- ===== src/Rewards/Shares.antt =====
-- The stakers' shares never add up to more than their reward, and lose less than one unit each.
use ghost_blockchain.Base.{ℕ, ◌+◌, ◌*◌, ◌%◌, ◌≤◌, ◌<◌, ◌≡◌, List, [], ◌∷◌, arith, u128_max, length}
use native.Mathlib.Nat.{mul_comm}
use ghost_blockchain.Base.Division.{mul_cancel_le}
use ghost_blockchain.Types.{ValidatorStake}
use ghost_blockchain.Rewards.{total_stake_from, staker_reward}

-- The true sum of the stakes, which does not wrap.
abbrev pub stake_of : List ValidatorStake → ℕ
stake_of [] = 0
stake_of (s ∷ ss) = s.stake + stake_of ss

-- The sum of the shares.
abbrev pub shares : (reward total : ℕ) → List ValidatorStake → ℕ
shares reward total [] = 0
shares reward total (s ∷ ss) = staker_reward reward total s.stake + shares reward total ss

pub total_stake-eq :
    (acc : ℕ) (ss : List ValidatorStake)
    → acc + stake_of ss ≤ u128_max
    → total_stake_from acc ss ≡ acc + stake_of ss
unfolding total_stake_from
total_stake-eq acc [] h = omega arith
total_stake-eq acc (s ∷ ss) h = ground (arith, total_stake-eq (acc + s.stake) ss)

-- One share, scaled by the total stake, is the exact part less a remainder.
share_scaled :
    (reward total stake : ℕ)
    → 0 < total
    → reward * stake ≤ u128_max
    → (total * staker_reward reward total stake ≤ reward * stake)
      × (reward * stake < total * staker_reward reward total stake + total)
unfolding staker_reward
share_scaled reward total stake p h =
    let e : reward * stake % (u128_max + 1) ≡ reward * stake = omega arith in
    rw e (omega arith, omega arith)

shares_scaled :
    (reward total : ℕ) (ss : List ValidatorStake)
    → 0 < total
    → reward * stake_of ss ≤ u128_max
    → (total * shares reward total ss ≤ reward * stake_of ss)
      × (reward * stake_of ss ≤ total * (shares reward total ss + length ss))
shares_scaled reward total [] p h = (grind arith, grind arith)
shares_scaled reward total (s ∷ ss) p h =
    grind (arith, share_scaled reward total s.stake p, shares_scaled reward total ss p)

-- If some stake is not 0 and the products fit in a `u128`, the shares add up to at most the
-- stakers' reward, and rounding loses at most one unit for each staker.
pub shares_bounds :
    (reward : ℕ) (ss : List ValidatorStake)
    → 0 < stake_of ss
    → reward * stake_of ss ≤ u128_max
    → (shares reward (stake_of ss) ss ≤ reward)
      × (reward ≤ shares reward (stake_of ss) ss + length ss)
shares_bounds reward ss p h = (
  mul_cancel_le (shares reward t ss) reward t p (omega (arith, scaled.0, mul_comm t reward)),
  mul_cancel_le reward (shares reward t ss + length ss) t p
      (omega (arith, scaled.1, mul_comm t reward)),
)
  where
    t : ℕ
    t = stake_of ss

    scaled :
        (t * shares reward t ss ≤ reward * t) × (reward * t ≤ t * (shares reward t ss + length ss))
    scaled = shares_scaled reward t ss p h
