-- ===== src/Pallet/Hooks.antt =====
-- The hooks of pallets/pallet-ghost-consensus/src/lib.rs, with `check_downtime_slashing`,
-- `adjust_difficulty` and the default weights.
pub mod Downtime
pub mod Phases
pub mod Lowering
use ghost_blockchain.Base.{
  ℕ, ◌-◌, ◌%◌, Option, none, some, [], ◌∷◌, ◌++◌, ltb, ◌==◌, if◌then◌else◌, saturated_into_u32,
  lookup, insert, StorageMap,
}
use ghost_blockchain.Types.{ConsensusPhase, phase_eq, SlashingReason, Event}
use ghost_blockchain.Environment.{Environment}
use ghost_blockchain.State.{State}
use ghost_blockchain.Difficulty.{calculate_difficulty_adjustment}
use ghost_blockchain.Entropy.{calculate_entropy}
use ghost_blockchain.Pallet.Report.{slash_of}

-- `Weight`
pub record Weight : Type 0 where
  pub ref_time : ℕ
  pub proof_size : ℕ

-- The weight of each call in `impl WeightInfo for ()`, and of `on_initialize`.
abbrev pub default_weight : Weight
default_weight = record { ref_time = 10_000; proof_size = 0 }

-- `target_block_time` and the placeholder `actual_block_time`.
abbrev pub target_block_time : ℕ
target_block_time = 5

abbrev pub actual_block_time : ℕ
actual_block_time = 5

module _ {L : Type 0} (env : Environment L) where
  -- The body of `if let Some(stake)`.
  unfoldable pub apply_downtime_slash : (validator stake : ℕ) → State L → State L
  apply_downtime_slash validator stake s =
      let slash_amount = slash_of stake env.config.downtime_slash_percentage in
      record s {
        validator_stakes = insert env.before validator (stake - slash_amount) s.validator_stakes;
        slashing_records =
            s.slashing_records
            ++ record {
              validator = validator;
              reason = SlashingReason.downtime;
              amount = slash_amount;
              block = s.block_number;
            }
              ∷ [];
        events =
            s.events ++ Event.validator_slashed validator SlashingReason.downtime slash_amount ∷ [];
      }

  slash_if_staked : (validator : ℕ) → Option ℕ → State L → State L
  slash_if_staked validator none s = s
  slash_if_staked validator (some stake) s = apply_downtime_slash validator stake s

  -- One round of the loop.
  unfoldable pub check_downtime : (current_block validator last_active : ℕ) → State L → State L
  unfolding slash_if_staked
  check_downtime current_block validator last_active s =
      if ltb env.config.max_downtime_blocks (current_block - last_active)
      then slash_if_staked validator (lookup validator s.validator_stakes) s
      else s

  -- The loop over `LastActiveBlock::<T>::iter()`; its body does not write that map.
  unfoldable pub check_downtimes : (current_block : ℕ) → StorageMap ℕ → State L → State L
  check_downtimes current_block [] s = s
  check_downtimes current_block ((validator, last_active) ∷ m) s =
      check_downtimes current_block m (check_downtime current_block validator last_active s)

  unfoldable pub check_downtime_slashing : State L → State L
  check_downtime_slashing s =
      check_downtimes (saturated_into_u32 s.block_number) s.last_active_block s

  set_difficulty : (old_difficulty new_difficulty : ℕ) → State L → State L
  set_difficulty old_difficulty new_difficulty s =
      if new_difficulty == old_difficulty then s else record s {
        difficulty = new_difficulty;
        events = s.events ++ Event.difficulty_adjusted old_difficulty new_difficulty ∷ [];
      }

  unfoldable pub adjust_difficulty : State L → State L
  unfolding set_difficulty
  adjust_difficulty s =
      let entropy = calculate_entropy s.recent_block_producers in
      set_difficulty s.difficulty
        (calculate_difficulty_adjustment s.difficulty actual_block_time target_block_time entropy)
        (record s { current_entropy = entropy })

  unfoldable pub on_initialize : ℕ → State L → Weight × State L
  on_initialize n s =
      let checked = if n % 10 == 0 then check_downtime_slashing s else s in
      let adjusted = if n % 100 == 0 then adjust_difficulty checked else checked in
      (default_weight, adjusted)

  unfoldable pub on_finalize : ℕ → State L → State L
  on_finalize n s =
      if phase_eq s.current_phase ConsensusPhase.finalization
      then record s { current_phase = ConsensusPhase.pow_mining }
      else s
