-- ===== src/Pallet/Invariant/Withdrawal.antt =====
-- Whether a staker gets its funds back by `unstake` of pallets/pallet-ghost-consensus/src/lib.rs.
use ghost_blockchain.Base.{
  ℕ, ◌+◌, ◌-◌, ◌≤◌, ◌≡◌, ◌≢◌, inl, inr, some, arith, sym, lookup, lookup-insert, u128_max,
}
use ghost_blockchain.Types.{Origin}
use ghost_blockchain.Environment.{Environment, TransferLaws, DepositLaws, allow_death}
use ghost_blockchain.State.{State, ok}
use ghost_blockchain.Pallet.Stake.{unstake}
use ghost_blockchain.Pallet.Stake.Escrow.{escrow, stake_of, balance, unstake_outcome}
use ghost_blockchain.Pallet.Backing.{IsBacked, stake_of-le}
use ghost_blockchain.Pallet.Transitions.{Reach}
use ghost_blockchain.Pallet.Invariant.Escrow.{Reach-IsBacked}

-- What the documentation of the balances pallet promises of a transfer out of the escrow account,
-- whose funds nothing locks: it succeeds if the funds suffice, the receiver exists, and its balance
-- does not overflow.
pub record PaysOut {L : Type 0} (env : Environment L) : Type 0 where
  pub pays_out :
      (l : L) (to amount : ℕ)
      → env.account_id ≢ to
      → amount ≤ env.currency.free_balance l env.account_id
      → env.currency.existential_deposit ≤ env.currency.free_balance l to
      → env.currency.free_balance l to + amount ≤ u128_max
      → (l' : L) × (env.currency.transfer l env.account_id to amount allow_death ≡ inr l')

module _ {L : Type 0} (env : Environment L) (transfers : TransferLaws env.currency)
    (deposits : DepositLaws env.currency) (pays : PaysOut env) where
  -- If the balances pallet keeps its documented promises, then in every state that is reached from
  -- one with backed stakes, each account with a stake entry, other than the escrow account, that
  -- exists in the ledger can take out any part of its recorded stake, if its balance does not
  -- overflow: `unstake` succeeds, takes the amount off the stake and adds it to the balance.
  pub Reach-unstake :
      (who amount recorded : ℕ) (s t : State L)
      → Reach env s t
      → IsBacked env s
      → who ≢ env.account_id
      → lookup who t.validator_stakes ≡ some recorded
      → amount ≤ recorded
      → env.currency.existential_deposit ≤ balance env who t
      → balance env who t + amount ≤ u128_max
      → (u : State L) × (unstake env (Origin.signed who) amount t ≡ (ok tt, u))
        × (stake_of env who u ≡ recorded - amount)
        × (balance env who u ≡ balance env who t + amount)
  Reach-unstake who amount recorded s t r backed other found covered live fits =
      let entry : stake_of env who t ≡ recorded = rw found (omega arith) in
      let enough : amount ≤ escrow env t =
        omega (arith, Reach-IsBacked env transfers deposits s t r backed, stake_of-le env who t) in
      let (l, moved) = pays.pays_out t.ledger who amount (λ e. other (sym e)) enough live fits in
      elim (unstake_outcome env who amount t) [
        | inl (l', c, moved', done) ↦
            let (gets, rest) =
              transfers.transfer_moves t.ledger l' env.account_id who amount allow_death
                (λ e. other (sym e)) moved' in
            let written =
              lookup-insert env.before who who (stake_of env who t - amount) t.validator_stakes in
            (_, done, ground (arith, written, entry), gets)
        | inr (inl (e, c, fails, left')) ↦ absurd (cc (moved, fails))
        | inr (inr (inl missing, refused)) ↦ absurd (cc (missing, found))
        | inr (inr (inr short, refused)) ↦ absurd (omega arith)
      ]
