-- ===== src/Pallet/Backing.antt =====
-- The escrow account against the recorded stakes: whether it covers them, and what it holds beyond
-- them, at the operations on stakes of pallets/pallet-ghost-consensus/src/lib.rs.
use ghost_blockchain.Base.{
  ℕ, ◌+◌, ◌-◌, ◌≤◌, ◌≡◌, ◌≢◌, inl, inr, [], ◌∷◌, arith, lookup, insert, get_or, sum_values,
  sum-insert, le-sum_values, Option-cases, StorageMap, wrap_u128, sym, min,
}
use ghost_blockchain.Types.{SlashingReason}
use ghost_blockchain.Environment.{Environment, TransferLaws, keep_alive, allow_death}
use ghost_blockchain.Environment.Transfers.{reserve, transfer-keep_alive, transfer-reserve}
use ghost_blockchain.State.{State}
use ghost_blockchain.Pallet.Stake.Escrow.{escrow, stake_of, staked, released}
use ghost_blockchain.Pallet.Report.{slash_of}
use ghost_blockchain.Pallet.Report.Slash.{slashed, slash_amount}
use ghost_blockchain.Pallet.Hooks.{
  check_downtime, check_downtimes, check_downtime_slashing, apply_downtime_slash,
}

module _ {L : Type 0} (env : Environment L) where
  -- The escrow account holds the recorded stakes and, where the existential deposit is above 1,
  -- such a deposit beyond them.
  abbrev pub IsBacked : State L → Type 0
  IsBacked s = sum_values s.validator_stakes + reserve env.currency ≤ escrow env s

  -- The part of the escrow that backs no stake is in the second state at least what it is in the
  -- first.
  abbrev pub Locks : State L → State L → Type 0
  Locks s t =
      escrow env s + sum_values t.validator_stakes ≤ escrow env t + sum_values s.validator_stakes

  -- A stake that is written lowers or raises the sum by its own change.
  sum-set :
      (who v : ℕ) (m : StorageMap ℕ)
      → sum_values (insert env.before who v m) + get_or (lookup who m) 0 ≡ sum_values m + v
  sum-set who v m = sum-insert env.before who v m

  pub staked-Locks :
      TransferLaws env.currency
      → (who amount : ℕ) (l : L) (s : State L) → who ≢ env.account_id
      → env.currency.transfer s.ledger who env.account_id amount keep_alive ≡ inr l
      → Locks s (staked env who amount l s)
  staked-Locks laws who amount l s other moved = omega (
    arith,
    transfer-keep_alive env.currency laws s.ledger l who env.account_id amount other moved,
    sum-set who (wrap_u128 (stake_of env who s + amount)) s.validator_stakes,
  )

  -- A recorded stake is part of the sum.
  pub stake_of-le : (who : ℕ) (s : State L) → stake_of env who s ≤ sum_values s.validator_stakes
  stake_of-le who s = elim (Option-cases (lookup who s.validator_stakes)) [
    | inl missing ↦ rw missing (omega arith)
    | inr (stake, found) ↦ rw found (le-sum_values who stake s.validator_stakes found)
  ]

  pub released-Locks :
      TransferLaws env.currency
      → (who amount : ℕ) (l : L) (s : State L) → who ≢ env.account_id
      → amount ≤ stake_of env who s
      → env.currency.transfer s.ledger env.account_id who amount allow_death ≡ inr l
      → IsBacked s
      → Locks s (record (released env who amount s) { ledger = l })
  released-Locks laws who amount l s other covered moved backed = omega (
    arith,
    transfer-reserve env.currency laws s.ledger l env.account_id who amount (λ e. other (sym e))
        (omega (arith, stake_of-le who s)) moved,
    sum-set who (stake_of env who s - amount) s.validator_stakes,
  )

  -- Cutting a stake never raises the sum.
  cut-le :
      (who cut : ℕ) (m : StorageMap ℕ)
      → sum_values (insert env.before who (get_or (lookup who m) 0 - cut) m) ≤ sum_values m
  cut-le who cut m = omega (arith, sum-set who (get_or (lookup who m) 0 - cut) m)

  pub slashed-le :
      (validator : ℕ) (reason : SlashingReason) (s : State L)
      → sum_values (slashed env validator reason s) ≤ sum_values s.validator_stakes
  slashed-le validator reason s =
      cut-le validator (slash_amount env validator reason s) s.validator_stakes

  -- A report takes its cut out of the sum.
  pub sum-slashed :
      (validator : ℕ) (reason : SlashingReason) (s : State L)
      → sum_values (slashed env validator reason s)
          + min (slash_amount env validator reason s) (stake_of env validator s)
        ≡ sum_values s.validator_stakes
  sum-slashed validator reason s = omega (
    arith,
    sum-set validator
        (get_or (lookup validator s.validator_stakes) 0 - slash_amount env validator reason s)
        s.validator_stakes,
  )

  check_downtime-le :
      (current_block k last : ℕ) (s : State L)
      → sum_values (check_downtime env current_block k last s).validator_stakes
        ≤ sum_values s.validator_stakes
  unfolding check_downtime apply_downtime_slash
  check_downtime-le current_block k last s = elim (Option-cases (lookup k s.validator_stakes)) [
    | inl missing ↦ ground arith
    | inr (stake, found) ↦ ground (
      arith,
      sum-set k (stake - slash_of stake env.config.downtime_slash_percentage) s.validator_stakes,
    )
  ]

  check_downtimes-le :
      (current_block : ℕ) (m : StorageMap ℕ) (s : State L)
      → sum_values (check_downtimes env current_block m s).validator_stakes
        ≤ sum_values s.validator_stakes
  unfolding check_downtimes
  check_downtimes-le current_block [] s = omega arith
  check_downtimes-le current_block ((k, last) ∷ m) s = omega (
    arith,
    check_downtime-le current_block k last s,
    check_downtimes-le current_block m (check_downtime env current_block k last s),
  )

  pub check_downtime_slashing-le :
      (s : State L)
      → sum_values (check_downtime_slashing env s).validator_stakes ≤ sum_values s.validator_stakes
  unfolding check_downtime_slashing
  check_downtime_slashing-le s = check_downtimes-le _ s.last_active_block s
