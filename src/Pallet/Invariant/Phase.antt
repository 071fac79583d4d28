-- ===== src/Pallet/Invariant/Phase.antt =====
-- The phases follow one another in a circle.
use ghost_blockchain.Base.{◌≡◌, ◌⊎◌, inl, inr, arith, ap}
use ghost_blockchain.Types.{ConsensusPhase, pow_mining, pos_validation, finalization}
use ghost_blockchain.Environment.{Environment}
use ghost_blockchain.State.{State}
use ghost_blockchain.Pallet.Stake.{register_pqc_key}
use ghost_blockchain.Pallet.Report.Slash.{report_misbehavior_outcome}
use ghost_blockchain.Pallet.Hooks.{on_finalize}
use ghost_blockchain.Pallet.Hooks.Phases.{on_initialize-Untouched}
use ghost_blockchain.Pallet.Submit.{record_block}
use ghost_blockchain.Pallet.Transitions.{
  Step, submits, stakes, unstakes, validates, reports, registers, begins, ends, elsewhere,
  submit_block-ok, stake-ok, unstake-ok, validate_block-ok,
}

-- A phase stays, or goes on to the next one of the circle.
abbrev pub Follows : ConsensusPhase → ConsensusPhase → Type 0
Follows p q =
    (q ≡ p)
    ⊎ (((p ≡ pow_mining) × (q ≡ pos_validation))
        ⊎ (((p ≡ pos_validation) × (q ≡ finalization)) ⊎ ((p ≡ finalization) × (q ≡ pow_mining))))

module _ {L : Type 0} (env : Environment L) where
  -- Each step leaves the phase as it is, or moves it from mining to validation, from validation to
  -- finalization, or from finalization to mining.
  pub Step-Follows : (s t : State L) → Step env s t → Follows s.current_phase t.current_phase
  unfolding on_finalize register_pqc_key record_block
  Step-Follows s t (submits miner header e) =
      let (can, done) = submit_block-ok env miner header s t e in
      inr (inl (can.1, ap (λ u. u.current_phase) done))
  Step-Follows s t (stakes who amount other e) =
      let (l, moved, done) = stake-ok env who amount s t e in inl (ap (λ u. u.current_phase) done)
  Step-Follows s t (unstakes who amount other e) =
      let (l, covered, moved, done) = unstake-ok env who amount s t e in
      inl (ap (λ u. u.current_phase) done)
  Step-Follows s t (validates validator block_number sig e) =
      let (header, selection, miner, v, found, done) =
        validate_block-ok env validator block_number sig s t e in
      inr (inr (inl (v.phase, ap (λ u. u.current_phase) done)))
  Step-Follows s t (reports reporter validator reason e) =
      ground (arith, report_misbehavior_outcome env reporter validator reason s)
  Step-Follows s t (registers validator public_key e) = ground arith
  Step-Follows s t (begins n e) =
      ground (arith, on_initialize-Untouched env n (record s { block_number = n }))
  Step-Follows s t (ends n e) = ground arith
  Step-Follows s t (elsewhere l h e) = ground arith
