-- ===== src/Tests/Runs.antt =====
-- A run of the pallet from the start state: a stake, a block, its validation, and the next block;
-- and the invariants over it.
use ghost_blockchain.Base.{
  ℕ, ◌+◌, ◌-◌, ◌*◌, ◌≤◌, List, [], ◌∷◌, ◌≡◌, refl, arith, insert, min, sum_values,
}
use ghost_blockchain.Types.{Origin, SlashingReason}
use ghost_blockchain.Pallet.Report.{report_misbehavior}
use ghost_blockchain.Pallet.Report.Slash.{slash_amount}
use ghost_blockchain.Pallet.Stake.Escrow.{escrow, balance, stake_of as staked_by}
use ghost_blockchain.State.{State, Refused, ok}
use ghost_blockchain.Rewards.Issuance.{AllDifferent, holdings}
use ghost_blockchain.Pow.{verify_pow_enhanced, prefix_value}
use ghost_blockchain.Selection.{select_pos_validator, select_by, total_weight_from, walk}
use ghost_blockchain.Rewards.{
  distribute_rewards, calculate_block_reward, pay_stakers, staker_reward, total_stake_from,
}
use ghost_blockchain.Pallet.Submit.{submit_block, record_block}
use ghost_blockchain.Pallet.Stake.{stake, unstake}
use ghost_blockchain.Pallet.Validate.{validate_block, check_pqc, verify_pqc_signature}
use ghost_blockchain.Pallet.Hooks.{on_finalize}
use ghost_blockchain.Header.{validate_block_header}
use ghost_blockchain.Pallet.Transitions.{
  Step, Reach, here, next, submits, stakes, unstakes, validates, ends,
}
use ghost_blockchain.Pallet.Backing.{IsBacked}
use ghost_blockchain.Pallet.Invariant.Escrow.{Reach-IsBacked, report_misbehavior-Locks}
use ghost_blockchain.Pallet.Invariant.Supply.{AllStayIn, validations, Reach-holdings}
use ghost_blockchain.Pallet.Invariant.Withdrawal.{PaysOut, Reach-unstake}
use ghost_blockchain.Pallet.Invariant.History.{IsRecent, Reach-IsRecent}
use ghost_blockchain.Pallet.Invariant.Chain.{IsChain, Reach-IsChain}
use ghost_blockchain.Pallet.Invariant.Target.{HasTarget, Reach-HasTarget}
use ghost_blockchain.Pallet.Invariant.Phase.{Follows, Step-Follows}
use ghost_blockchain.Pallet.Invariant.Genesis.{Reach-submit_block}
use ghost_blockchain.Tests.World.{
  Ledger, test_env, test_transfers, test_deposits, test_header, test_signature, start_state,
  bare_state, move,
}

abbrev pub staked_state : State Ledger
staked_state = (stake test_env (Origin.signed 1) 500 start_state).1

abbrev pub mined_state : State Ledger
mined_state = (submit_block test_env (Origin.signed 3) (test_header 1 60) staked_state).1

abbrev pub validated_state : State Ledger
validated_state = (validate_block test_env (Origin.signed 1) 1 test_signature mined_state).1

abbrev pub finalized_state : State Ledger
finalized_state = on_finalize test_env 1 validated_state

test_stake : Step test_env start_state staked_state
unfolding stake
test_stake = stakes 1 500 (λ e. omega arith) refl

test_submit : Step test_env staked_state mined_state
unfolding stake submit_block validate_block_header verify_pow_enhanced prefix_value
test_submit = submits 3 (test_header 1 60) refl

test_validate : Step test_env mined_state validated_state
unfolding stake submit_block validate_block_header verify_pow_enhanced prefix_value record_block
    insert select_pos_validator select_by total_weight_from walk validate_block check_pqc
    verify_pqc_signature
test_validate = validates 1 1 test_signature refl

pub test_run : Reach test_env start_state finalized_state
test_run = next (next (next (next here test_stake) test_submit) test_validate) (ends 1 refl)

-- The reward of 1000 gives the miner 400, and the stakers with 1500 and 3000 at stake 200 and 400.
validated_balances :
    (validated_state.ledger 3 ≡ 450)
    × (validated_state.ledger 1 ≡ 4700)
    × (validated_state.ledger 2 ≡ 5400)
unfolding stake submit_block validate_block_header verify_pow_enhanced prefix_value record_block
    insert select_pos_validator select_by total_weight_from walk validate_block check_pqc
    verify_pqc_signature distribute_rewards calculate_block_reward pay_stakers staker_reward
    total_stake_from
validated_balances = (refl, refl, refl)

Reach-IsBacked_example : IsBacked test_env finalized_state
Reach-IsBacked_example =
    Reach-IsBacked test_env test_transfers test_deposits start_state finalized_state test_run
      (omega arith)

-- Account 3 reports staker 2, who then takes out 700 of what the report left.
abbrev reported_state : State Ledger
reported_state =
    (report_misbehavior test_env (Origin.signed 3) 2 SlashingReason.invalid_block start_state).1

abbrev left_state : State Ledger
left_state = (unstake test_env (Origin.signed 2) 700 reported_state).1

test_leave : Reach test_env reported_state left_state
unfolding report_misbehavior unstake insert
test_leave = next here (unstakes 2 700 (λ e. omega arith) refl)

report_misbehavior-Locks_example :
    sum_values left_state.validator_stakes
      + min
          (slash_amount test_env 2 SlashingReason.invalid_block start_state)
          (staked_by test_env 2 start_state)
    ≤ escrow test_env left_state
report_misbehavior-Locks_example =
    report_misbehavior-Locks test_env test_transfers test_deposits 3 2 SlashingReason.invalid_block
      start_state left_state (omega arith) test_leave

Reach-IsRecent_example : IsRecent test_env finalized_state
Reach-IsRecent_example = Reach-IsRecent test_env start_state finalized_state test_run refl

Reach-IsChain_example : IsChain test_env finalized_state
Reach-IsChain_example =
    Reach-IsChain test_env start_state finalized_state test_run (λ k h found. ground arith)

Reach-HasTarget_example : HasTarget test_env finalized_state
Reach-HasTarget_example =
    Reach-HasTarget test_env start_state finalized_state test_run (omega arith, omega arith)

Step-Follows_example : Follows staked_state.current_phase mined_state.current_phase
Step-Follows_example = Step-Follows test_env staked_state mined_state test_submit

abbrev bare_staked : State Ledger
bare_staked = (stake test_env (Origin.signed 1) 500 bare_state).1

test_bare : Reach test_env bare_state bare_staked
unfolding stake
test_bare = next here (stakes 1 500 (λ e. omega arith) refl)

Reach-submit_block_example :
    Refused (submit_block test_env (Origin.signed 3) (test_header 1 60) bare_staked) bare_staked
Reach-submit_block_example =
    Reach-submit_block test_env bare_state bare_staked test_bare
      (record { no_headers = refl; mining = refl }) 3 (test_header 1 60)

abbrev holders : List ℕ
holders = 1 ∷ 2 ∷ 3 ∷ []

holders_different : AllDifferent holders
holders_different =
    ((λ e. omega (arith, e), (λ e. omega (arith, e), tt)), ((λ e. omega (arith, e), tt), (tt, tt)))

-- The holders with the escrow account.
abbrev everyone : List ℕ
everyone = 9 ∷ holders

everyone_different : AllDifferent everyone
everyone_different = (
  (λ e. omega (arith, e), (λ e. omega (arith, e), (λ e. omega (arith, e), tt))),
  holders_different,
)

test_run_stays : AllStayIn test_env everyone test_run
unfolding test_run test_stake test_submit test_validate
test_run_stays = ((((tt, refl), tt), tt), tt)

one_validation : validations test_env test_run ≡ 1
unfolding test_run test_stake test_submit test_validate
one_validation = refl

Reach-holdings_example :
    holdings test_env.currency everyone finalized_state.ledger
    ≤ holdings test_env.currency everyone start_state.ledger
      + validations test_env test_run * test_env.config.block_reward
Reach-holdings_example =
    Reach-holdings test_env test_transfers test_deposits everyone everyone_different refl 20000
      (omega arith) (omega arith) (omega arith) start_state finalized_state test_run test_run_stays
      (omega arith) (omega (arith, one_validation))

test_pays : PaysOut test_env
test_pays = record {
  pays_out = λ l to amount other enough live fits. (move l 9 to amount, ground arith);
}

-- Staker 2 takes 700 of its 3000 out, after staker 1 has staked more.
Reach-unstake_example :
    (u : State Ledger) × (unstake test_env (Origin.signed 2) 700 staked_state ≡ (ok tt, u))
    × (staked_by test_env 2 u ≡ 3000 - 700)
    × (balance test_env 2 u ≡ balance test_env 2 staked_state + 700)
unfolding stake insert
Reach-unstake_example =
    Reach-unstake test_env test_transfers test_deposits test_pays 2 700 3000 start_state
      staked_state (next here test_stake) (omega arith) (λ e. omega arith) refl (omega arith)
      (omega arith) (omega arith)
