-- ===== src/Pallet/Invariant/Escrow.antt =====
-- The escrow account against the recorded stakes in every reachable state, over the steps of
-- pallets/pallet-ghost-consensus/src/lib.rs.
use ghost_blockchain.Base.{ℕ, ◌+◌, ◌≤◌, ◌≡◌, arith, subst, sym, sum_values, min}
use ghost_blockchain.Environment.{Environment, TransferLaws, DepositLaws}
use ghost_blockchain.State.{State}
use ghost_blockchain.Rewards.{calculate_block_reward}
use ghost_blockchain.Rewards.Payments.{distribute_rewards-le}
use ghost_blockchain.Pallet.Stake.{register_pqc_key}
use ghost_blockchain.Pallet.Validate.{stakers}
use ghost_blockchain.Pallet.Report.Slash.{report_misbehavior_outcome, slash_amount}
use ghost_blockchain.Pallet.Report.{report_misbehavior}
use ghost_blockchain.Pallet.Stake.Escrow.{escrow, stake_of}
use ghost_blockchain.Types.{SlashingReason, Origin}
use ghost_blockchain.Pallet.Submit.{record_block}
use ghost_blockchain.Pallet.Hooks.{
  on_initialize, on_finalize, adjust_difficulty, check_downtime_slashing,
}
use ghost_blockchain.Pallet.Hooks.Phases.{on_initialize-Untouched}
use ghost_blockchain.Pallet.Backing.{
  IsBacked, Locks, staked-Locks, released-Locks, slashed-le, sum-slashed,
  check_downtime_slashing-le,
}
use ghost_blockchain.Pallet.Transitions.{
  Step, submits, stakes, unstakes, validates, reports, registers, begins, ends, elsewhere, Reach,
  here, next, submit_block-ok, stake-ok, unstake-ok, validate_block-ok,
}

module _ {L : Type 0} (env : Environment L) where
  adjust_difficulty-sum :
      (s : State L)
      → sum_values (adjust_difficulty env s).validator_stakes ≡ sum_values s.validator_stakes
  unfolding adjust_difficulty
  adjust_difficulty-sum s = ground arith

  on_initialize-le :
      (n : ℕ) (s : State L)
      → sum_values (on_initialize env n s).1.validator_stakes ≤ sum_values s.validator_stakes
  unfolding on_initialize
  on_initialize-le n s = ground (
    arith,
    check_downtime_slashing-le env s,
    adjust_difficulty-sum s,
    adjust_difficulty-sum (check_downtime_slashing env s),
  )

  module _ (transfers : TransferLaws env.currency) (deposits : DepositLaws env.currency) where
    Step-Locks : (s t : State L) → Step env s t → IsBacked env s → Locks env s t
    unfolding on_finalize register_pqc_key record_block
    Step-Locks s t (submits miner header e) h =
        let (can, done) = submit_block-ok env miner header s t e in
        subst (Locks env s) (sym done) (omega arith)
    Step-Locks s t (stakes who amount other e) h =
        let (l, moved, done) = stake-ok env who amount s t e in
        subst (Locks env s) (sym done) (staked-Locks env transfers who amount l s other moved)
    Step-Locks s t (unstakes who amount other e) h =
        let (l, covered, moved, done) = unstake-ok env who amount s t e in
        subst (Locks env s) (sym done)
          (released-Locks env transfers who amount l s other covered moved h)
    Step-Locks s t (validates validator block_number sig e) h =
        let (header, selection, miner, v, found, done) =
          validate_block-ok env validator block_number sig s t e in
        subst (Locks env s) (sym done) (
          omega (
            arith,
            distribute_rewards-le env.currency deposits miner env.account_id
                (stakers s.validator_stakes) (calculate_block_reward env.config.block_reward)
                s.ledger,
          ))
    Step-Locks s t (reports reporter validator reason e) h = ground (
      arith,
      report_misbehavior_outcome env reporter validator reason s,
      slashed-le env validator reason s,
    )
    Step-Locks s t (registers validator public_key e) h = ground arith
    Step-Locks s t (begins n e) h = ground (
      arith,
      on_initialize-le n (record s { block_number = n }),
      on_initialize-Untouched env n (record s { block_number = n }),
    )
    Step-Locks s t (ends n e) h = ground arith
    Step-Locks s t (elsewhere l k e) h = ground arith

    -- Along any run from a state with backed stakes, what the escrow account holds beyond the
    -- recorded stakes never falls.
    pub Reach-Locks : (s t : State L) → Reach env s t → IsBacked env s → Locks env s t
    Reach-Locks s _ here h = omega arith
    Reach-Locks s t (next {t = u} r st) h =
        let before = Reach-Locks s u r h in
        omega (arith, before, Step-Locks u t st (omega (arith, before)))

    -- If the balances pallet keeps its documented promises, then in every state that is reached
    -- from one where the escrow balance covers the sum of the recorded stakes, it still does. Where
    -- the existential deposit is above 1, the escrow account must hold such a deposit beyond the
    -- stakes, and still does.
    pub Reach-IsBacked : (s t : State L) → Reach env s t → IsBacked env s → IsBacked env t
    Reach-IsBacked s t r h = omega (arith, Reach-Locks s t r h)

    -- If the balances pallet keeps its documented promises and the escrow balance covers the
    -- recorded stakes, with an existential deposit beyond them where that is above 1, then after a
    -- signed report in that state, the amount that the report cut from a stake remains in the
    -- escrow beyond the recorded stakes, in every state that is reached from there.
    pub report_misbehavior-Locks :
        (reporter validator : ℕ) (reason : SlashingReason) (s t : State L)
        → IsBacked env s
        → Reach env (report_misbehavior env (Origin.signed reporter) validator reason s).1 t
        → sum_values t.validator_stakes
            + min (slash_amount env validator reason s) (stake_of env validator s)
          ≤ escrow env t
    report_misbehavior-Locks reporter validator reason s t h r =
        let s' = (report_misbehavior env (Origin.signed reporter) validator reason s).1 in
        let outcome = report_misbehavior_outcome env reporter validator reason s in
        let cut = sum-slashed env validator reason s in
        let backed : IsBacked env s' = ground (arith, outcome, cut) in
        ground (arith, outcome, cut, Reach-Locks s' t r backed)
