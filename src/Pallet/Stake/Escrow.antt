-- ===== src/Pallet/Stake/Escrow.antt =====
-- Staking moves funds into the escrow account and unstaking moves them back.
use ghost_blockchain.Base.{
  ℕ, ◌+◌, ◌-◌, ◌≤◌, ◌<◌, ◌≡◌, ◌⊎◌, inl, inr, none, some, arith, lookup, get_or, Option-cases,
  Sum-cases, wrap_u128, dec_le,
}
use ghost_blockchain.Types.{Origin, DispatchError}
use ghost_blockchain.Environment.{Environment, ExistenceRequirement}
use ghost_blockchain.State.{State, ok, err, Refused}
use ghost_blockchain.Pallet.Stake.{set_stake, stake, unstake}

module _ {L : Type 0} (env : Environment L) where
  -- The recorded stake of an account, 0 if it has none.
  abbrev pub stake_of : ℕ → State L → ℕ
  stake_of who s = get_or (lookup who s.validator_stakes) 0

  abbrev pub balance : ℕ → State L → ℕ
  balance who s = env.currency.free_balance s.ledger who

  abbrev pub escrow : State L → ℕ
  escrow s = balance env.account_id s

  -- The state after a stake whose transfer gave the ledger `l`.
  abbrev pub staked : (who amount : ℕ) → L → State L → State L
  staked who amount l s =
      set_stake env who (wrap_u128 (stake_of who s + amount)) (record s { ledger = l })

  moves_in : (who amount : ℕ) → State L → DispatchError ⊎ L
  moves_in who amount s =
      env.currency.transfer s.ledger who env.account_id amount ExistenceRequirement.keep_alive

  stake_small :
      (who amount : ℕ) (s : State L)
      → ¬ (env.config.min_stake ≤ amount)
      → Refused (stake env (Origin.signed who) amount s) s
  unfolding stake
  stake_small who amount s small = ground arith

  stake_unmoved :
      (who amount : ℕ) (s : State L) (e : DispatchError)
      → moves_in who amount s ≡ inl e
      → Refused (stake env (Origin.signed who) amount s) s
  unfolding stake moves_in
  stake_unmoved who amount s e fails = ground arith

  stake_done :
      (who amount : ℕ) (s : State L) (l : L)
      → env.config.min_stake ≤ amount
      → moves_in who amount s ≡ inr l
      → stake env (Origin.signed who) amount s ≡ (ok tt, staked who amount l s)
  unfolding stake moves_in
  stake_done who amount s l enough moved = ground arith

  -- A signed `stake` succeeds exactly if the amount is the minimum at least and the transfer to the
  -- escrow account succeeds; it then adds the amount to the stake, and changes nothing else. Else
  -- it writes nothing.
  pub stake_outcome :
      (who amount : ℕ) (s : State L)
      → ((l : L) × (env.config.min_stake ≤ amount)
          × (env.currency.transfer s.ledger who env.account_id amount
                ExistenceRequirement.keep_alive
              ≡ inr l)
          × (stake env (Origin.signed who) amount s ≡ (ok tt, staked who amount l s)))
        ⊎ (((amount < env.config.min_stake)
              ⊎ ((e : DispatchError) × (env.currency.transfer s.ledger who env.account_id amount
                      ExistenceRequirement.keep_alive
                    ≡ inl e)))
            × Refused (stake env (Origin.signed who) amount s) s)
  unfolding moves_in
  stake_outcome who amount s = elim (dec_le env.config.min_stake amount) [
    | no small ↦ inr (inl (omega arith), stake_small who amount s small)
    | yes enough ↦ elim (Sum-cases (moves_in who amount s)) [
      | inl (e, fails) ↦ inr (inr (e, fails), stake_unmoved who amount s e fails)
      | inr (l, moved) ↦ inl (l, enough, moved, stake_done who amount s l enough moved)
    ]
  ]

  -- The state that `unstake` writes before its transfer.
  abbrev pub released : (who amount : ℕ) → State L → State L
  released who amount s = set_stake env who (stake_of who s - amount) s

  moves_out : (who amount : ℕ) → State L → DispatchError ⊎ L
  moves_out who amount s =
      env.currency.transfer s.ledger env.account_id who amount ExistenceRequirement.allow_death

  unstake-Refused :
      (who amount : ℕ) (s : State L)
      → (lookup who s.validator_stakes ≡ none) ⊎ (stake_of who s < amount)
      → Refused (unstake env (Origin.signed who) amount s) s
  unfolding unstake
  unstake-Refused who amount s why = ground arith

  unstake_unmoved :
      (who amount stake : ℕ) (s : State L) (e : DispatchError)
      → lookup who s.validator_stakes ≡ some stake
      → amount ≤ stake
      → moves_out who amount s ≡ inl e
      → unstake env (Origin.signed who) amount s ≡ (err e, s)
  unfolding unstake moves_out
  unstake_unmoved who amount stake s e found enough fails = ground arith

  unstake_done :
      (who amount stake : ℕ) (s : State L) (l : L)
      → lookup who s.validator_stakes ≡ some stake
      → amount ≤ stake
      → moves_out who amount s ≡ inr l
      → unstake env (Origin.signed who) amount s
        ≡ (ok tt, record (released who amount s) { ledger = l })
  unfolding unstake moves_out
  unstake_done who amount stake s l found enough moved = ground arith

  -- A signed `unstake` ends in one of three ways. With a recorded stake of the amount at least and a
  -- transfer out of the escrow account that succeeds, it takes the amount off the stake, moves the
  -- ledger on, and changes nothing else. If only the transfer fails, it fails with the transfer's
  -- error, and the lower stake that was written before is undone. Without such a stake it fails and
  -- writes nothing.
  pub unstake_outcome :
      (who amount : ℕ) (s : State L)
      → ((l : L) × (amount ≤ stake_of who s)
          × (env.currency.transfer s.ledger env.account_id who amount
                ExistenceRequirement.allow_death
              ≡ inr l)
          × (unstake env (Origin.signed who) amount s
              ≡ (ok tt, record (released who amount s) { ledger = l })))
        ⊎ (((e : DispatchError) × (amount ≤ stake_of who s)
              × (env.currency.transfer s.ledger env.account_id who amount
                    ExistenceRequirement.allow_death
                  ≡ inl e)
              × (unstake env (Origin.signed who) amount s ≡ (err e, s)))
            ⊎ (((lookup who s.validator_stakes ≡ none) ⊎ (stake_of who s < amount))
                × Refused (unstake env (Origin.signed who) amount s) s))
  unfolding moves_out
  unstake_outcome who amount s = elim (Option-cases (lookup who s.validator_stakes)) [
    | inl missing ↦ inr (inr (inl missing, unstake-Refused who amount s (inl missing)))
    | inr (stake, found) ↦ elim (dec_le amount stake) [
      | no more ↦
          let short : stake_of who s < amount = rw found (omega arith) in
          inr (inr (inr short, unstake-Refused who amount s (inr short)))
      | yes enough ↦
          let covered : amount ≤ stake_of who s = rw found enough in
          elim (Sum-cases (moves_out who amount s)) [
            | inl (e, fails) ↦
                inr
                  (inl (e, covered, fails, unstake_unmoved who amount stake s e found enough fails))
            | inr (l, moved) ↦
                inl (l, covered, moved, unstake_done who amount stake s l found enough moved)
          ]
    ]
  ]
