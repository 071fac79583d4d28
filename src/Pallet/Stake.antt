-- ===== src/Pallet/Stake.antt =====
-- `stake`, `unstake` and `register_pqc_key` of pallets/pallet-ghost-consensus/src/lib.rs.
pub mod Escrow
pub mod RoundTrip
use ghost_blockchain.Base.{ℕ, ◌+◌, ◌-◌, leb, wrap_u128, lookup, insert, get_or, List}
use ghost_blockchain.Types.{Error, Origin}
use ghost_blockchain.Environment.{Environment, ExistenceRequirement}
use ghost_blockchain.State.{
  State, Action, ◌>>=◌, ◌>>◌, gets, modify, with_storage_layer, ensure, ok_or, ensure_signed,
  set_ledger,
}

module _ {L : Type 0} (env : Environment L) where
  -- `ValidatorStakes::<T>::insert`
  abbrev pub set_stake : (who stake : ℕ) → State L → State L
  set_stake who stake s = record s {
    validator_stakes = insert env.before who stake s.validator_stakes;
  }

  unfoldable pub stake : Origin → ℕ → Action L (Unit {0})
  stake origin amount = with_storage_layer (do
    staker ← ensure_signed origin
    ensure (leb env.config.min_stake amount) Error.insufficient_stake
    moved ← gets (λ s.
        env.currency.transfer s.ledger staker env.account_id amount ExistenceRequirement.keep_alive)
    set_ledger moved
    current_stake ← gets (λ s. get_or (lookup staker s.validator_stakes) 0)
    modify (set_stake staker (wrap_u128 (current_stake + amount))))

  unfoldable pub unstake : Origin → ℕ → Action L (Unit {0})
  unstake origin amount = with_storage_layer (do
    staker ← ensure_signed origin
    found ← gets (λ s. lookup staker s.validator_stakes)
    current_stake ← ok_or found Error.not_a_validator
    ensure (leb amount current_stake) Error.insufficient_stake
    modify (set_stake staker (current_stake - amount))
    moved ← gets (λ s.
        env.currency.transfer s.ledger env.account_id staker amount
          ExistenceRequirement.allow_death)
    set_ledger moved)

  unfoldable pub register_pqc_key : Origin → List ℕ → Action L (Unit {0})
  register_pqc_key origin public_key = with_storage_layer (do
    validator ← ensure_signed origin
    modify (λ s. record s {
      validator_pqc_public_keys =
          insert env.before validator public_key s.validator_pqc_public_keys;
    }))
