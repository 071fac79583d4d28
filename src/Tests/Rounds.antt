-- ===== src/Tests/Rounds.antt =====
-- The theorems on whole rounds of the pallet and on its specification, at concrete runs.
use ghost_blockchain.Base.{
  ℕ, ◌+◌, ◌-◌, ◌≤◌, ◌≡◌, ◌⊎◌, inl, inr, refl, arith, some, true, false, [], ◌∷◌, min, leb, ◌==◌,
  ◌&&◌, if◌then◌else◌, lookup, contains_key, Bool-cases, sym, ap, dec_le, u128_max, insert,
}
use ghost_blockchain.Types.{SlashingReason, DispatchError, Origin, ConsensusPhase}
use ghost_blockchain.Environment.{
  Currency, Environment, ExistenceRequirement, TransferLaws, DepositLaws, BalancesFit,
}
use ghost_blockchain.State.{State, ok}
use ghost_blockchain.Pow.{prefix_value, enhanced_value}
use ghost_blockchain.Pallet.Submit.{submit_block}
use ghost_blockchain.Pallet.Submit.Outcome.{CanSubmit}
use ghost_blockchain.Pallet.Stake.{stake, unstake}
use ghost_blockchain.Pallet.Stake.Escrow.{stake_of, balance}
use ghost_blockchain.Pallet.Stake.RoundTrip.{unstake-stake}
use ghost_blockchain.Pallet.Validate.{sign_header, validate_block}
use ghost_blockchain.Pallet.Hooks.{on_finalize}
use ghost_blockchain.Pallet.Transitions.{Reach, here, next, stakes, reports}
use ghost_blockchain.Pallet.Round.{round_completes}
use ghost_blockchain.Pallet.Stuck.{IsStuck, HasStake, Reach-IsStuck}
use ghost_blockchain.Pallet.Report.{report_misbehavior}
use ghost_blockchain.Pallet.Spec.{Moves}
use ghost_blockchain.Pallet.Spec.Refinement.{view, Reach-refines}
use ghost_blockchain.Tests.World.{
  Ledger, left_over, test_config, test_env, test_transfers, test_header, test_signature,
  start_state,
}
use ghost_blockchain.Tests.Runs.{finalized_state}

-- A currency whose balances are `u128`s.
abbrev capped : Ledger → ℕ → ℕ
capped l j = min (l j) u128_max

abbrev capped_move : Ledger → (from to amount : ℕ) → Ledger
capped_move l from to amount j =
    if j == from then capped l j - amount else if j == to then capped l j + amount else l j

abbrev capped_transfer :
    Ledger → (from to amount : ℕ) → ExistenceRequirement → DispatchError ⊎ Ledger
capped_transfer l from to amount k =
    if leb (amount + left_over k) (capped l from) && leb (capped l to + amount) u128_max
    then inr (capped_move l from to amount)
    else inl (DispatchError.currency_error 2)

abbrev capped_deposit : Ledger → (who amount : ℕ) → Ledger
capped_deposit l who amount j =
    if (j == who) && leb (capped l j + amount) u128_max then capped l j + amount else l j

abbrev capped_currency : Currency Ledger
capped_currency = record {
  free_balance = capped;
  existential_deposit = 1;
  transfer = capped_transfer;
  deposit_creating = capped_deposit;
}

capped_moved :
    (l l' : Ledger) (from to amount : ℕ) (k : ExistenceRequirement)
    → capped_transfer l from to amount k ≡ inr l'
    → (amount ≤ capped l from)
      × (capped l to + amount ≤ u128_max)
      × (capped_move l from to amount ≡ l')
capped_moved l l' from to amount k h =
    elim (Bool-cases
      (leb (amount + left_over k) (capped l from) && leb (capped l to + amount) u128_max)) [
        | inl enough ↦ (ground arith, ground arith, cc (h, enough))
        | inr short ↦ absurd (ground arith)
      ]

capped_transfers : TransferLaws capped_currency
capped_transfers = record {
  transfer_moves = λ l l' from to amount k other h.
      let (enough, fits, done) = capped_moved l l' from to amount k h in
      (
        rw (sym (ap (λ f. f to) done)) (ground arith),
        inl (rw (sym (ap (λ f. f from) done)) (ground arith)),
      );
  transfer_others = λ l l' from to amount who k a b h.
      let (enough, fits, done) = capped_moved l l' from to amount k h in
      rw (sym (ap (λ f. f who) done)) (ground arith);
}

capped_deposits : DepositLaws capped_currency
capped_deposits = record {
  deposit_others = λ l who amount j other. ground arith;
  deposit_atomic = λ l who amount. elim (dec_le (capped l who + amount) u128_max) [
    | yes fits ↦ inl (ground arith)
    | no over ↦ inr (ground arith)
  ];
  deposit_credits = λ l who amount live fits. ground arith;
}

capped_fits : BalancesFit capped_currency
capped_fits = λ l who. omega arith

abbrev capped_env : Environment Ledger
capped_env = record test_env { currency = capped_currency }

abbrev capped_staked : State Ledger
capped_staked = (stake capped_env (Origin.signed 1) 500 start_state).1

capped_run : Reach capped_env start_state capped_staked
unfolding stake
capped_run = next here (stakes 1 500 (λ e. omega arith) refl)

Reach-refines_example : Moves (view start_state) (view capped_staked)
Reach-refines_example =
    Reach-refines capped_env capped_transfers capped_fits capped_deposits start_state capped_staked
      capped_run (omega arith)

-- The test world without Dilithium signatures.
abbrev unsigned_env : Environment Ledger
unsigned_env = record test_env { config = record test_config { pqc_required = false } }

can_submit : CanSubmit unsigned_env (test_header 1 60) start_state
unfolding enhanced_value prefix_value
can_submit = (
  test_header 0 0,
  refl,
  omega arith,
  refl,
  record {
    next_number = refl;
    links = refl;
    works = omega arith;
    not_low = omega arith;
    not_high = omega arith;
  },
)

round_completes_example :
    (validator : ℕ) × (t : State Ledger) × (u : State Ledger) × (contains_key validator
        start_state.validator_stakes
      ≡ true)
    × (submit_block unsigned_env (Origin.signed 3) (test_header 1 60) start_state ≡ (ok tt, t))
    × (validate_block unsigned_env (Origin.signed validator) 1 test_signature t ≡ (ok tt, u))
    × ((on_finalize unsigned_env 1 u).current_phase ≡ ConsensusPhase.pow_mining)
    × (lookup 1 (on_finalize unsigned_env 1 u).block_headers
        ≡ some (sign_header unsigned_env validator 1 test_signature (test_header 1 60)))
round_completes_example =
    round_completes unsigned_env 3 1 (test_header 1 60) (λ v. test_signature) start_state can_submit
      (λ v entry. inl refl) (omega arith) (omega arith)

-- Nobody has a stake.
abbrev unstaked_state : State Ledger
unstaked_state = record finalized_state {
  validator_stakes = (1, 0) ∷ [];
  current_phase = ConsensusPhase.pos_validation;
}

abbrev reported_state : State Ledger
reported_state =
    (report_misbehavior test_env (Origin.signed 3) 1 SlashingReason.other unstaked_state).1

report_run : Reach test_env unstaked_state reported_state
unfolding report_misbehavior
report_run = next here (reports 3 1 SlashingReason.other refl)

Reach-IsStuck_example : IsStuck test_env reported_state ⊎ HasStake test_env report_run
Reach-IsStuck_example =
    Reach-IsStuck test_env unstaked_state reported_state report_run
      (record { validating = refl; unstaked = refl })

abbrev deposited : State Ledger
deposited = (stake test_env (Origin.signed 1) 500 start_state).1

abbrev withdrawn : State Ledger
withdrawn = (unstake test_env (Origin.signed 1) 500 deposited).1

deposits : stake test_env (Origin.signed 1) 500 start_state ≡ (ok tt, deposited)
unfolding stake
deposits = refl

withdraws : unstake test_env (Origin.signed 1) 500 deposited ≡ (ok tt, withdrawn)
unfolding stake unstake insert
withdraws = refl

unstake-stake_example :
    ((j : ℕ) → stake_of test_env j withdrawn ≡ stake_of test_env j start_state)
    × ((j : ℕ) → balance test_env j withdrawn ≡ balance test_env j start_state)
unstake-stake_example =
    unstake-stake test_env test_transfers 1 500 start_state deposited withdrawn (λ e. omega arith)
      (inr (omega arith)) (omega arith) deposits withdraws
