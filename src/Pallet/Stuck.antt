-- ===== src/Pallet/Stuck.antt =====
-- Without a stake the validation phase does not end.
use ghost_blockchain.Base.{
  ℕ, ◌-◌, ◌≡◌, refl, sym, ap, ◌∙◌, subst, inl, inr, ◌⊎◌, [], ◌∷◌, arith, lookup, get_or, insert,
  StorageMap, Option-cases, saturated_into_u32, sum_values, sum-insert, le-sum_values,
}
use ghost_blockchain.Types.{ConsensusPhase}
use ghost_blockchain.Environment.{Environment}
use ghost_blockchain.State.{State}
use ghost_blockchain.Selection.Weighted.{weight_of}
use ghost_blockchain.Pallet.Stake.{register_pqc_key}
use ghost_blockchain.Pallet.Stake.Escrow.{stake_of}
use ghost_blockchain.Pallet.Validate.{stakers}
use ghost_blockchain.Pallet.Report.{slash_of}
use ghost_blockchain.Pallet.Report.Slash.{slash_amount, report_misbehavior_outcome}
use ghost_blockchain.Pallet.Hooks.{
  on_initialize, on_finalize, adjust_difficulty, check_downtime, check_downtimes,
  check_downtime_slashing, apply_downtime_slash,
}
use ghost_blockchain.Pallet.Hooks.Phases.{on_initialize-Untouched}
use ghost_blockchain.Pallet.Transitions.{
  Step, submits, stakes, unstakes, validates, reports, registers, begins, ends, elsewhere, Reach,
  here, next, submit_block-ok, unstake-ok,
}
use ghost_blockchain.Pallet.Round.{validate_block-unweighted}

-- Where the stakes add up to 0, they weigh nothing, and writing a 0 changes that as little.
weight-sum : (m : StorageMap ℕ) → sum_values m ≡ 0 → weight_of (stakers m) ≡ 0
weight-sum [] h = refl
weight-sum ((k, v) ∷ m) h = omega (arith, weight-sum m (omega arith))

sum-lookup : (k : ℕ) (m : StorageMap ℕ) → sum_values m ≡ 0 → get_or (lookup k m) 0 ≡ 0
sum-lookup k m h = elim (Option-cases (lookup k m)) [
  | inl missing ↦ rw missing refl
  | inr (v, found) ↦ rw found (omega (arith, le-sum_values k v m found))
]

module _ {L : Type 0} (env : Environment L) where
  -- In the validation phase, with no stake above 0.
  pub record IsStuck (s : State L) : Type 0 where
    pub validating : s.current_phase ≡ ConsensusPhase.pos_validation
    pub unstaked : sum_values s.validator_stakes ≡ 0

  sum-write :
      (who v : ℕ) (m : StorageMap ℕ)
      → v ≡ 0
      → sum_values m ≡ 0
      → sum_values (insert env.before who v m) ≡ 0
  sum-write who v m none' h = omega (arith, sum-insert env.before who v m)

  check_downtime-sum :
      (current_block k last : ℕ) (s : State L)
      → sum_values s.validator_stakes ≡ 0
      → sum_values (check_downtime env current_block k last s).validator_stakes ≡ 0
  unfolding check_downtime apply_downtime_slash
  check_downtime-sum current_block k last s h = elim (Option-cases (lookup k s.validator_stakes)) [
    | inl missing ↦ ground arith
    | inr (stake, found) ↦
        let new = stake - slash_of stake env.config.downtime_slash_percentage in
        let zero' : new ≡ 0 = omega (arith, le-sum_values k stake s.validator_stakes found) in
        ground (arith, sum-write k new s.validator_stakes zero' h)
  ]

  check_downtimes-sum :
      (current_block : ℕ) (m : StorageMap ℕ) (s : State L)
      → sum_values s.validator_stakes ≡ 0
      → sum_values (check_downtimes env current_block m s).validator_stakes ≡ 0
  unfolding check_downtimes
  check_downtimes-sum current_block [] s h = h
  check_downtimes-sum current_block ((k, last) ∷ m) s h =
      check_downtimes-sum current_block m (check_downtime env current_block k last s)
        (check_downtime-sum current_block k last s h)

  on_initialize-sum :
      (n : ℕ) (s : State L)
      → sum_values s.validator_stakes ≡ 0
      → sum_values (on_initialize env n s).1.validator_stakes ≡ 0
  unfolding on_initialize check_downtime_slashing adjust_difficulty
  on_initialize-sum n s h =
      ground
        (arith, check_downtimes-sum (saturated_into_u32 s.block_number) s.last_active_block s h)

  -- A run in which somebody stakes.
  abbrev pub HasStake : {s t : State L} → Reach env s t → Type 0
  HasStake here = ⊥
  HasStake (next r (stakes who amount other e)) = Unit
  HasStake (next r (submits miner header e)) = HasStake r
  HasStake (next r (unstakes who amount other e)) = HasStake r
  HasStake (next r (validates validator block_number sig e)) = HasStake r
  HasStake (next r (reports reporter validator reason e)) = HasStake r
  HasStake (next r (registers validator public_key e)) = HasStake r
  HasStake (next r (begins n e)) = HasStake r
  HasStake (next r (ends n e)) = HasStake r
  HasStake (next r (elsewhere l k e)) = HasStake r

  HasStake-next :
      (start s t : State L) (r : Reach env start s) (st : Step env s t)
      → HasStake r
      → HasStake (next r st)
  HasStake-next start s t r (stakes who amount other e) h = tt
  HasStake-next start s t r (submits miner header e) h = h
  HasStake-next start s t r (unstakes who amount other e) h = h
  HasStake-next start s t r (validates validator block_number sig e) h = h
  HasStake-next start s t r (reports reporter validator reason e) h = h
  HasStake-next start s t r (registers validator public_key e) h = h
  HasStake-next start s t r (begins n e) h = h
  HasStake-next start s t r (ends n e) h = h
  HasStake-next start s t r (elsewhere l k e) h = h

  -- A step from such a state leaves such a state, or is a stake.
  Step-IsStuck :
      (start s t : State L) (r : Reach env start s) (st : Step env s t)
      → IsStuck s
      → IsStuck t ⊎ HasStake (next r st)
  unfolding on_finalize register_pqc_key
  Step-IsStuck start s t r (submits miner header e) h =
      let (can, done) = submit_block-ok env miner header s t e in absurd (cc (can.1, h.validating))
  Step-IsStuck start s t r (stakes who amount other e) h = inr tt
  Step-IsStuck start s t r (unstakes who amount other e) h =
      let (l, covered, moved, done) = unstake-ok env who amount s t e in
      let left' : stake_of env who s - amount ≡ 0 =
        omega (arith, sum-lookup who s.validator_stakes h.unstaked) in
      inl (
        subst IsStuck (sym done) (record {
          validating = h.validating;
          unstaked =
              sum-write who (stake_of env who s - amount) s.validator_stakes left' h.unstaked;
        }))
  Step-IsStuck start s t r (validates validator block_number sig e) h =
      let refused =
        validate_block-unweighted env validator block_number sig s
          (weight-sum s.validator_stakes h.unstaked) in
      absurd (refused.0 (ap (λ r. r.0) e))
  Step-IsStuck start s t r (reports reporter validator reason e) h =
      let o = report_misbehavior_outcome env reporter validator reason s in
      let slash = slash_amount env validator reason s in
      let left' : stake_of env validator s - slash ≡ 0 =
        omega (arith, sum-lookup validator s.validator_stakes h.unstaked) in
      inl (
        subst IsStuck (ap (λ r. r.1) e) (record {
          validating = o.3 ∙ h.validating;
          unstaked = rw o.1 (
              sum-write validator (stake_of env validator s - slash) s.validator_stakes left'
                h.unstaked);
        }))
  Step-IsStuck start s t r (registers validator public_key e) h = inl (
      subst IsStuck (ap (λ r. r.1) e) (record { validating = h.validating; unstaked = h.unstaked }))
  Step-IsStuck start s t r (begins n e) h =
      let s' : State L = record s { block_number = n } in
      inl (
        subst IsStuck (sym e) (record {
          validating = (on_initialize-Untouched env n s').same_phase ∙ h.validating;
          unstaked = on_initialize-sum n s' h.unstaked;
        }))
  Step-IsStuck start s t r (ends n e) h =
      inl (record { validating = ground arith; unstaked = ground arith })
  Step-IsStuck start s t r (elsewhere l k e) h =
      inl (subst IsStuck (sym e) (record { validating = h.validating; unstaked = h.unstaked }))

  -- From a state of the validation phase in which no stake is above 0, every run leads to such a
  -- state again, so that no block is mined and none is validated, or somebody has staked in it.
  pub Reach-IsStuck : (s t : State L) (r : Reach env s t) → IsStuck s → IsStuck t ⊎ HasStake r
  Reach-IsStuck s _ here h = inl h
  Reach-IsStuck s t (next {t = u} r st) h = elim (Reach-IsStuck s u r h) [
    | inl stuck ↦ Step-IsStuck s u t r st stuck
    | inr staked ↦ inr (HasStake-next s u t r st staked)
  ]
