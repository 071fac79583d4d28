-- ===== src/Tests/Calls.antt =====
-- The theorems on the pallet's calls and hooks, at concrete states.
use ghost_blockchain.Base.{
  ℕ, ◌≤◌, ◌<◌, ◌≡◌, ◌⊎◌, ◌↔◌, inl, inr, refl, some, none, [], ◌∷◌, lookup, saturated_into_u32,
  insert,
}
use ghost_blockchain.Types.{GhostBlockHeader, PosSelection, Error, DispatchError, Origin}
use ghost_blockchain.Environment.{ExistenceRequirement}
use ghost_blockchain.State.{State, ok, err, Refused}
use ghost_blockchain.Header.{validate_block_header}
use ghost_blockchain.Header.Checks.{IsValidChild, validate_block_header_iff}
use ghost_blockchain.Pallet.Submit.{submit_block}
use ghost_blockchain.Pallet.Submit.Outcome.{CanSubmit, mined, submit_block_outcome}
use ghost_blockchain.Pallet.Stake.{stake, unstake}
use ghost_blockchain.Pallet.Stake.Escrow.{
  stake_of, staked, released, stake_outcome, unstake_outcome,
}
use ghost_blockchain.Pallet.Validate.{validate_block}
use ghost_blockchain.Pallet.Validate.Entitlement.{IsEntitled, Lacks}
use ghost_blockchain.Pallet.Validate.Outcome.{validated_state, validate_block_outcome}
use ghost_blockchain.Pallet.Report.{slash_of}
use ghost_blockchain.Pallet.Hooks.{
  check_downtime_slashing, check_downtimes, check_downtime, apply_downtime_slash,
}
use ghost_blockchain.Pallet.Hooks.Downtime.{expected_stake, check_downtime_slashing-stake}
use ghost_blockchain.Tests.World.{
  Ledger, test_env, test_header, test_signature, test_hashing, start_state,
}
use ghost_blockchain.Tests.Runs.{mined_state}

submit_block_outcome_example :
    (CanSubmit test_env (test_header 1 60) start_state
      × (submit_block test_env (Origin.signed 3) (test_header 1 60) start_state
          ≡ (ok tt, mined test_env 3 (test_header 1 60) start_state)))
    ⊎ (¬ CanSubmit test_env (test_header 1 60) start_state
        × Refused
            (submit_block test_env (Origin.signed 3) (test_header 1 60) start_state)
            start_state)
submit_block_outcome_example = submit_block_outcome test_env 3 (test_header 1 60) start_state

validate_block_outcome_example :
    ((header : GhostBlockHeader) × (selection : PosSelection) × (miner : ℕ) × IsEntitled test_env 1
        1 test_signature mined_state header selection
      × (lookup 1 mined_state.block_producers ≡ some miner)
      × (validate_block test_env (Origin.signed 1) 1 test_signature mined_state ≡ (
        ok tt,
        validated_state test_env 1 1 test_signature header miner selection.weight mined_state,
      )))
    ⊎ (((header : GhostBlockHeader) × (selection : PosSelection) × IsEntitled test_env 1 1
            test_signature mined_state header selection
          × (lookup 1 mined_state.block_producers ≡ none)
          × (validate_block test_env (Origin.signed 1) 1 test_signature mined_state
              ≡ (err (DispatchError.module_error Error.block_not_found), mined_state)))
        ⊎ (Lacks test_env 1 1 test_signature mined_state
            × Refused
                (validate_block test_env (Origin.signed 1) 1 test_signature mined_state)
                mined_state))
validate_block_outcome_example = validate_block_outcome test_env 1 1 test_signature mined_state

stake_outcome_example :
    ((l : Ledger) × (test_env.config.min_stake ≤ 500)
      × (test_env.currency.transfer start_state.ledger 1 test_env.account_id 500
            ExistenceRequirement.keep_alive
          ≡ inr l)
      × (stake test_env (Origin.signed 1) 500 start_state
          ≡ (ok tt, staked test_env 1 500 l start_state)))
    ⊎ (((500 < test_env.config.min_stake)
          ⊎ ((e : DispatchError) × (test_env.currency.transfer start_state.ledger 1
                  test_env.account_id 500 ExistenceRequirement.keep_alive
                ≡ inl e)))
        × Refused (stake test_env (Origin.signed 1) 500 start_state) start_state)
stake_outcome_example = stake_outcome test_env 1 500 start_state

unstake_outcome_example :
    ((l : Ledger) × (3000 ≤ stake_of test_env 2 start_state)
      × (test_env.currency.transfer start_state.ledger test_env.account_id 2 3000
            ExistenceRequirement.allow_death
          ≡ inr l)
      × (unstake test_env (Origin.signed 2) 3000 start_state
          ≡ (ok tt, record (released test_env 2 3000 start_state) { ledger = l })))
    ⊎ (((e : DispatchError) × (3000 ≤ stake_of test_env 2 start_state)
          × (test_env.currency.transfer start_state.ledger test_env.account_id 2 3000
                ExistenceRequirement.allow_death
              ≡ inl e)
          × (unstake test_env (Origin.signed 2) 3000 start_state ≡ (err e, start_state)))
        ⊎ (((lookup 2 start_state.validator_stakes ≡ none)
              ⊎ (stake_of test_env 2 start_state < 3000))
            × Refused (unstake test_env (Origin.signed 2) 3000 start_state) start_state))
unstake_outcome_example = unstake_outcome test_env 2 3000 start_state

validate_block_header_iff_example :
    ((validate_block_header test_hashing (test_header 1 60) (test_header 0 0) start_state).0
      ≡ ok tt)
    ↔ IsValidChild test_hashing start_state.difficulty (test_header 1 60) (test_header 0 0)
validate_block_header_iff_example =
    validate_block_header_iff test_hashing (test_header 1 60) (test_header 0 0) start_state

-- Staker 1 was last active at block 5, and staker 2 at block 190.
abbrev idle_state : State Ledger
idle_state = record start_state { last_active_block = (1, 5) ∷ (2, 190) ∷ []; block_number = 200 }

idle_slashed :
    (lookup 1 (check_downtime_slashing test_env idle_state).validator_stakes ≡ some 900)
    × (lookup 2 (check_downtime_slashing test_env idle_state).validator_stakes ≡ some 3000)
unfolding check_downtime_slashing check_downtimes check_downtime apply_downtime_slash insert
    slash_of
idle_slashed = (refl, refl)

check_downtime_slashing-stake_example :
    lookup 1 (check_downtime_slashing test_env idle_state).validator_stakes
    ≡ expected_stake test_env
        (saturated_into_u32 idle_state.block_number)
        (lookup 1 idle_state.last_active_block)
        (lookup 1 idle_state.validator_stakes)
check_downtime_slashing-stake_example =
    check_downtime_slashing-stake test_env 1 idle_state (refl, (refl, tt))
