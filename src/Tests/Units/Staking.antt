-- ===== src/Tests/Units/Staking.antt =====
-- The tests of `stake` and `unstake`.
use ghost_blockchain.Base.{◌≡◌, refl, some, lookup, insert}
use ghost_blockchain.Types.{Origin, Error, DispatchError, ConsensusPhase}
use ghost_blockchain.State.{State, ok, err}
use ghost_blockchain.Pallet.Stake.{stake, unstake}
use ghost_blockchain.Tests.World.{Ledger}
use ghost_blockchain.Tests.Units.{mock_env, escrow_account, ghost, genesis}

test_genesis_config :
    (genesis.difficulty ≡ 1_000_000_000_000) × (genesis.current_phase ≡ ConsensusPhase.pow_mining)
test_genesis_config = (refl, refl)

-- Alice stakes 10 tokens.
abbrev staked_ten : State Ledger
staked_ten = (stake mock_env (Origin.signed 1) (ghost 10) genesis).1

test_staking_basic :
    ((stake mock_env (Origin.signed 1) (ghost 10) genesis).0 ≡ ok tt)
    × (lookup 1 staked_ten.validator_stakes ≡ some (ghost 10))
    × (staked_ten.ledger 1 ≡ ghost 90)
    × (staked_ten.ledger escrow_account ≡ ghost 10)
unfolding stake insert
test_staking_basic = (refl, refl, refl, refl)

abbrev left_six : State Ledger
left_six = (unstake mock_env (Origin.signed 1) (ghost 4) staked_ten).1

test_staking_escrow_and_unstaking_returns_funds :
    ((unstake mock_env (Origin.signed 1) (ghost 4) staked_ten).0 ≡ ok tt)
    × (lookup 1 left_six.validator_stakes ≡ some (ghost 6))
    × (left_six.ledger 1 ≡ ghost 94)
    × (left_six.ledger escrow_account ≡ ghost 6)
unfolding stake unstake insert
test_staking_escrow_and_unstaking_returns_funds = (refl, refl, refl, refl)

test_staking_below_minimum :
    (stake mock_env (Origin.signed 1) 500_000_000_000_000_000 genesis).0
    ≡ err (DispatchError.module_error Error.insufficient_stake)
unfolding stake
test_staking_below_minimum = refl

abbrev staked_five : State Ledger
staked_five = (stake mock_env (Origin.signed 1) (ghost 5) genesis).1

test_staking_multiple_times :
    ((stake mock_env (Origin.signed 1) (ghost 3) staked_five).0 ≡ ok tt)
    × (lookup 1 (stake mock_env (Origin.signed 1) (ghost 3) staked_five).1.validator_stakes
        ≡ some (ghost 8))
unfolding stake insert
test_staking_multiple_times = (refl, refl)

test_unstaking_without_stake :
    (unstake mock_env (Origin.signed 1) (ghost 1) genesis).0
    ≡ err (DispatchError.module_error Error.not_a_validator)
unfolding unstake
test_unstaking_without_stake = refl

test_unstaking_more_than_staked :
    (unstake mock_env (Origin.signed 1) (ghost 10) staked_five).0
    ≡ err (DispatchError.module_error Error.insufficient_stake)
unfolding stake unstake insert
test_unstaking_more_than_staked = refl

-- Alice, Bob and Charlie stake 10, 20 and 15 tokens.
abbrev three_stake : State Ledger
three_stake =
    (stake mock_env (Origin.signed 3) (ghost 15)
      (stake mock_env (Origin.signed 2) (ghost 20) staked_ten).1).1

test_multiple_validators_staking :
    (lookup 1 three_stake.validator_stakes ≡ some (ghost 10))
    × (lookup 2 three_stake.validator_stakes ≡ some (ghost 20))
    × (lookup 3 three_stake.validator_stakes ≡ some (ghost 15))
unfolding stake insert
test_multiple_validators_staking = (refl, refl, refl)
