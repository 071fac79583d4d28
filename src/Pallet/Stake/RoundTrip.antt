-- ===== src/Pallet/Stake/RoundTrip.antt =====
-- Funds that are staked and taken out again are back where they were.
use ghost_blockchain.Base.{
  ℕ, ◌+◌, ◌-◌, ◌≤◌, ◌≡◌, ◌≢◌, sym, ap, ◌∙◌, arith, ℕ_discrete, ◌⊎◌, inl, inr, lookup, lookup-insert,
  u128_max, wrap_u128,
}
use ghost_blockchain.Types.{Origin}
use ghost_blockchain.Environment.{Environment, TransferLaws, keep_alive, allow_death}
use ghost_blockchain.Environment.Transfers.{transfer-keep_alive, transfer-allow_death}
use ghost_blockchain.State.{State, ok}
use ghost_blockchain.Pallet.Stake.{stake, unstake}
use ghost_blockchain.Pallet.Stake.Escrow.{stake_of, balance, escrow}
use ghost_blockchain.Pallet.Transitions.{stake-ok, unstake-ok}

module _ {L : Type 0} (env : Environment L) (laws : TransferLaws env.currency) where
  -- A transfer there and back leaves every balance as it was.
  transfer_back :
      (a b amount j : ℕ) (l l' l'' : L)
      → a ≢ b
      → (env.currency.free_balance l b ≡ 0)
        ⊎ (env.currency.existential_deposit ≤ env.currency.free_balance l b)
      → env.currency.transfer l a b amount keep_alive ≡ inr l'
      → env.currency.transfer l' b a amount allow_death ≡ inr l''
      → env.currency.free_balance l'' j ≡ env.currency.free_balance l j
  transfer_back a b amount j l l' l'' other live there back =
      let out = transfer-keep_alive env.currency laws l l' a b amount other there in
      let left' : (env.currency.free_balance l' b ≡ amount)
          ⊎ (amount + env.currency.existential_deposit ≤ env.currency.free_balance l' b) =
        elim live [ inl none' ↦ inl (omega (arith, out)) | inr some' ↦ inr (omega (arith, out)) ] in
      let home =
        transfer-allow_death env.currency laws l' l'' b a amount (λ e. other (sym e)) left' back in
      elim (ℕ_discrete j a) [
        | yes first ↦ rw first (omega (arith, out, home))
        | no not_first ↦ elim (ℕ_discrete j b) [
          | yes second ↦ rw second (omega (arith, out, home))
          | no third ↦
              laws.transfer_others l' l'' b a amount j allow_death third not_first back
              ∙ laws.transfer_others l l' a b amount j keep_alive not_first third there
        ]
      ]

  -- A successful `unstake` of the amount of a successful `stake`, right after it and by an account
  -- other than the escrow account, restores every recorded stake and every balance, if the stake
  -- with the amount fits in a `u128`, the escrow account was empty or held an existential deposit,
  -- and the balances pallet keeps its documented promises.
  pub unstake-stake :
      (who amount : ℕ) (s t u : State L)
      → who ≢ env.account_id
      → (escrow env s ≡ 0) ⊎ (env.currency.existential_deposit ≤ escrow env s)
      → stake_of env who s + amount ≤ u128_max
      → stake env (Origin.signed who) amount s ≡ (ok tt, t)
      → unstake env (Origin.signed who) amount t ≡ (ok tt, u)
      → ((j : ℕ) → stake_of env j u ≡ stake_of env j s)
        × ((j : ℕ) → balance env j u ≡ balance env j s)
  unstake-stake who amount s t u other live fits staking unstaking =
      let (l, moved, done) = stake-ok env who amount s t staking in
      let (l', covered, moved', done') = unstake-ok env who amount t u unstaking in
      let grown = wrap_u128 (stake_of env who s + amount) in
      let first = λ (j : ℕ).
        ap (λ m. lookup j m) (ap (λ x. x.validator_stakes) done)
        ∙ lookup-insert env.before who j grown s.validator_stakes in
      let second = λ (j : ℕ).
        ap (λ m. lookup j m) (ap (λ x. x.validator_stakes) done')
        ∙ lookup-insert env.before who j (stake_of env who t - amount) t.validator_stakes in
      let ledger : t.ledger ≡ l = ap (λ x. x.ledger) done in
      let ledger' : u.ledger ≡ l' = ap (λ x. x.ledger) done' in
      (
        λ j. ground (arith, first j, second j, first who),
        λ j.
            ap (λ x. env.currency.free_balance x j) ledger'
            ∙ transfer_back who env.account_id amount j s.ledger l l' other live moved (
                ap (λ x. env.currency.transfer x env.account_id who amount allow_death) (sym ledger)
                ∙ moved'),
      )
