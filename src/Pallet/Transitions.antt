-- ===== src/Pallet/Transitions.antt =====
-- The steps of the pallet's state: the signed calls that succeed, the hooks of a block, and changes
-- of the ledger elsewhere. A call that fails is no step, since its storage layer undoes its writes.
use ghost_blockchain.Base.{ℕ, ◌≤◌, ◌≡◌, ◌≢◌, inl, inr, List, sym, ap, ◌∙◌, some, lookup}
use ghost_blockchain.Types.{GhostBlockHeader, PqcSignature, PosSelection, SlashingReason, Origin}
use ghost_blockchain.Environment.{Environment, keep_alive, allow_death}
use ghost_blockchain.State.{State, ok}
use ghost_blockchain.Pallet.Submit.{submit_block}
use ghost_blockchain.Pallet.Submit.Outcome.{CanSubmit, mined, submit_block_outcome}
use ghost_blockchain.Pallet.Stake.{stake, unstake, register_pqc_key}
use ghost_blockchain.Pallet.Stake.Escrow.{
  escrow, stake_of, staked, released, stake_outcome, unstake_outcome,
}
use ghost_blockchain.Pallet.Validate.{validate_block}
use ghost_blockchain.Pallet.Validate.Entitlement.{IsEntitled}
use ghost_blockchain.Pallet.Validate.Outcome.{validated_state, validate_block_outcome}
use ghost_blockchain.Pallet.Report.{report_misbehavior}
use ghost_blockchain.Pallet.Hooks.{on_initialize, on_finalize}

module _ {L : Type 0} (env : Environment L) where
  -- The escrow account signs nothing: its id is derived from the pallet's and has no key. So
  -- nothing outside the pallet takes from it either.
  pub data Step (s t : State L) : Type 0 where
    submits :
        (miner : ℕ) (header : GhostBlockHeader)
        → submit_block env (Origin.signed miner) header s ≡ (ok tt, t)
        → Step s t
    stakes :
        (who amount : ℕ)
        → who ≢ env.account_id
        → stake env (Origin.signed who) amount s ≡ (ok tt, t)
        → Step s t
    unstakes :
        (who amount : ℕ)
        → who ≢ env.account_id
        → unstake env (Origin.signed who) amount s ≡ (ok tt, t)
        → Step s t
    validates :
        (validator block_number : ℕ) (sig : PqcSignature)
        → validate_block env (Origin.signed validator) block_number sig s ≡ (ok tt, t)
        → Step s t
    reports :
        (reporter validator : ℕ) (reason : SlashingReason)
        → report_misbehavior env (Origin.signed reporter) validator reason s ≡ (ok tt, t)
        → Step s t
    registers :
        (validator : ℕ) (public_key : List ℕ)
        → register_pqc_key env (Origin.signed validator) public_key s ≡ (ok tt, t)
        → Step s t
    begins : (n : ℕ) → t ≡ (on_initialize env n (record s { block_number = n })).1 → Step s t
    ends : (n : ℕ) → t ≡ on_finalize env n s → Step s t
    elsewhere :
        (l : L)
        → escrow env s ≤ env.currency.free_balance l env.account_id
        → t ≡ record s { ledger = l }
        → Step s t

  pub data Reach (s : State L) : State L → Type 0 where
    here : Reach s s
    next : {t u : State L} → Reach s t → Step t u → Reach s u

  -- What a successful call tells.
  pub submit_block-ok :
      (miner : ℕ) (header : GhostBlockHeader) (s t : State L)
      → submit_block env (Origin.signed miner) header s ≡ (ok tt, t)
      → CanSubmit env header s × (t ≡ mined env miner header s)
  submit_block-ok miner header s t e = elim (submit_block_outcome env miner header s) [
    | inl (can, done) ↦ (can, ap (λ r. r.1) (sym e ∙ done))
    | inr (cannot, (fails, same)) ↦ absurd (fails (ap (λ r. r.0) e))
  ]

  pub validate_block-ok :
      (validator block_number : ℕ) (sig : PqcSignature) (s t : State L)
      → validate_block env (Origin.signed validator) block_number sig s ≡ (ok tt, t)
      → (header : GhostBlockHeader) × (selection : PosSelection) × (miner : ℕ) × IsEntitled env
          validator block_number sig s header selection
        × (lookup block_number s.block_producers ≡ some miner)
        × (t ≡ validated_state env validator block_number sig header miner selection.weight s)
  validate_block-ok validator block_number sig s t e =
      elim (validate_block_outcome env validator block_number sig s) [
        | inl (header, selection, miner, v, found, done) ↦
            (header, selection, miner, v, found, ap (λ r. r.1) (sym e ∙ done))
        | inr (inl (header, selection, v, missing, failed)) ↦ absurd (cc (sym e ∙ failed))
        | inr (inr (lacks, (fails, same))) ↦ absurd (fails (ap (λ r. r.0) e))
      ]

  pub stake-ok :
      (who amount : ℕ) (s t : State L)
      → stake env (Origin.signed who) amount s ≡ (ok tt, t)
      → (l : L) × (env.currency.transfer s.ledger who env.account_id amount keep_alive ≡ inr l)
        × (t ≡ staked env who amount l s)
  stake-ok who amount s t e = elim (stake_outcome env who amount s) [
    | inl (l, enough, moved, done) ↦ (l, moved, ap (λ r. r.1) (sym e ∙ done))
    | inr (why, (fails, same)) ↦ absurd (fails (ap (λ r. r.0) e))
  ]

  pub unstake-ok :
      (who amount : ℕ) (s t : State L)
      → unstake env (Origin.signed who) amount s ≡ (ok tt, t)
      → (l : L) × (amount ≤ stake_of env who s)
        × (env.currency.transfer s.ledger env.account_id who amount allow_death ≡ inr l)
        × (t ≡ record (released env who amount s) { ledger = l })
  unstake-ok who amount s t e = elim (unstake_outcome env who amount s) [
    | inl (l, covered, moved, done) ↦ (l, covered, moved, ap (λ r. r.1) (sym e ∙ done))
    | inr (inl (x, covered, moved, failed)) ↦ absurd (cc (sym e ∙ failed))
    | inr (inr (why, (fails, same))) ↦ absurd (fails (ap (λ r. r.0) e))
  ]
