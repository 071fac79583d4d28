-- ===== src/Pallet/Invariant/Target.antt =====
-- The difficulty stays a target that some hash can meet.
use ghost_blockchain.Base.{
  ℕ, ◌≤◌, ◌≡◌, [], ◌∷◌, refl, arith, subst, sym, ◌∙◌, u64_max, StorageMap, lookup, Option-cases,
  inl, inr,
}
use ghost_blockchain.Environment.{Environment}
use ghost_blockchain.State.{State}
use ghost_blockchain.Pallet.Stake.{register_pqc_key}
use ghost_blockchain.Pallet.Report.{report_misbehavior}
use ghost_blockchain.Pallet.Hooks.{
  on_initialize, on_finalize, check_downtime, check_downtimes, check_downtime_slashing,
  apply_downtime_slash,
}
use ghost_blockchain.Pallet.Hooks.Phases.{adjust_difficulty_outcome}
use ghost_blockchain.Pallet.Transitions.{
  Step, submits, stakes, unstakes, validates, reports, registers, begins, ends, elsewhere, Reach,
  here, next, submit_block-ok, stake-ok, unstake-ok, validate_block-ok,
}

module _ {L : Type 0} (env : Environment L) where
  -- The difficulty is from 1 to the largest `u64`.
  abbrev pub HasTarget : State L → Type 0
  HasTarget s = (1 ≤ s.difficulty) × (s.difficulty ≤ u64_max)

  -- The difficulty and the entropy it was computed from are those of `s`.
  abbrev pub SameTarget : State L → State L → Type 0
  SameTarget s t = (t.difficulty ≡ s.difficulty) × (t.current_entropy ≡ s.current_entropy)

  check_downtime-SameTarget :
      (current_block k last : ℕ) (s : State L)
      → SameTarget s (check_downtime env current_block k last s)
  unfolding check_downtime apply_downtime_slash
  check_downtime-SameTarget current_block k last s =
      elim (Option-cases (lookup k s.validator_stakes)) [
        | inl missing ↦ ground arith
        | inr (stake, found) ↦ ground arith
      ]

  check_downtimes-SameTarget :
      (current_block : ℕ) (m : StorageMap ℕ) (s : State L)
      → SameTarget s (check_downtimes env current_block m s)
  unfolding check_downtimes
  check_downtimes-SameTarget current_block [] s = (refl, refl)
  check_downtimes-SameTarget current_block ((k, last) ∷ m) s =
      let once = check_downtime-SameTarget current_block k last s in
      let rest =
        check_downtimes-SameTarget current_block m (check_downtime env current_block k last s) in
      (rest.0 ∙ once.0, rest.1 ∙ once.1)

  pub check_downtime_slashing-SameTarget :
      (s : State L) → SameTarget s (check_downtime_slashing env s)
  unfolding check_downtime_slashing
  check_downtime_slashing-SameTarget s = check_downtimes-SameTarget _ s.last_active_block s

  on_initialize-HasTarget :
      (n : ℕ) (s : State L) → HasTarget s → HasTarget (on_initialize env n s).1
  unfolding on_initialize
  on_initialize-HasTarget n s h = ground (
    arith,
    check_downtime_slashing-SameTarget s,
    adjust_difficulty_outcome env (check_downtime_slashing env s),
    adjust_difficulty_outcome env s,
  )

  Step-HasTarget : (s t : State L) → Step env s t → HasTarget s → HasTarget t
  unfolding on_finalize register_pqc_key report_misbehavior
  Step-HasTarget s t (submits miner header e) h =
      let (can, done) = submit_block-ok env miner header s t e in subst HasTarget (sym done) h
  Step-HasTarget s t (stakes who amount other e) h =
      let (l, moved, done) = stake-ok env who amount s t e in subst HasTarget (sym done) h
  Step-HasTarget s t (unstakes who amount other e) h =
      let (l, covered, moved, done) = unstake-ok env who amount s t e in
      subst HasTarget (sym done) h
  Step-HasTarget s t (validates validator block_number sig e) h =
      let (header, selection, miner, v, found, done) =
        validate_block-ok env validator block_number sig s t e in
      subst HasTarget (sym done) h
  Step-HasTarget s t (reports reporter validator reason e) h = ground arith
  Step-HasTarget s t (registers validator public_key e) h = ground arith
  Step-HasTarget s t (begins n e) h =
      subst HasTarget (sym e) (on_initialize-HasTarget n (record s { block_number = n }) h)
  Step-HasTarget s t (ends n e) h = ground arith
  Step-HasTarget s t (elsewhere l k e) h = ground arith

  -- From a state whose difficulty is from 1 to the largest `u64`, it is in every reachable state.
  pub Reach-HasTarget : (s t : State L) → Reach env s t → HasTarget s → HasTarget t
  Reach-HasTarget s _ here h = h
  Reach-HasTarget s t (next {t = u} r st) h = Step-HasTarget u t st (Reach-HasTarget s u r h)
