-- ===== src/Pallet/Hooks/Phases.antt =====
-- The hooks at the start and the end of a block: the difficulty and the phase.
use ghost_blockchain.Base.{
  ℕ, ◌%◌, ◌≤◌, ◌≡◌, ◌≢◌, ◌∷◌, [], arith, u64_max, inl, inr, StorageMap, Option-cases, lookup,
}
use mathlib.Core.List.{append-nil}
use ghost_blockchain.Types.{Event, SlashingReason}
use ghost_blockchain.Environment.{Environment}
use ghost_blockchain.State.{State}
use ghost_blockchain.Difficulty.{calculate_difficulty_adjustment}
use ghost_blockchain.Difficulty.Bounds.{adjustment_bounds}
use ghost_blockchain.Entropy.{calculate_entropy}
use ghost_blockchain.Pallet.Submit.Window.{miners, miners-append}
use ghost_blockchain.Pallet.Report.{slash_of}
use ghost_blockchain.Pallet.Hooks.{
  actual_block_time, target_block_time, adjust_difficulty, check_downtime, check_downtimes,
  check_downtime_slashing, on_initialize, apply_downtime_slash,
}

module _ {L : Type 0} (env : Environment L) where
  -- From a difficulty that fits in a `u64`, the adjustment stores the entropy of the recent
  -- producers and the difficulty that follows from it, which is from 1 to the largest `u64`, and
  -- leaves the phase and the stakes alone.
  pub adjust_difficulty_outcome :
      (s : State L)
      → s.difficulty ≤ u64_max
      → let t = adjust_difficulty env s in
        let entropy = calculate_entropy s.recent_block_producers in
        (t.current_entropy ≡ entropy)
        × (t.difficulty
            ≡ calculate_difficulty_adjustment s.difficulty actual_block_time target_block_time
                entropy)
        × (1 ≤ t.difficulty)
        × (t.difficulty ≤ u64_max)
        × (t.current_phase ≡ s.current_phase)
        × (t.validator_stakes ≡ s.validator_stakes)
  unfolding adjust_difficulty
  adjust_difficulty_outcome s h = ground (
    arith,
    adjustment_bounds s.difficulty actual_block_time target_block_time
        (calculate_entropy s.recent_block_producers) h,
  )

  -- What the hook at the start of a block leaves alone.
  pub record Untouched (s t : State L) : Type 0 where
    pub same_phase : t.current_phase ≡ s.current_phase
    pub same_headers : t.block_headers ≡ s.block_headers
    pub same_producers : t.block_producers ≡ s.block_producers
    pub same_window : t.recent_block_producers ≡ s.recent_block_producers
    pub same_activity : t.last_active_block ≡ s.last_active_block
    pub same_ledger : t.ledger ≡ s.ledger
    pub same_miners : miners t.events ≡ miners s.events

  check_downtime-Untouched :
      (current_block k last : ℕ) (s : State L)
      → Untouched s (check_downtime env current_block k last s)
  unfolding check_downtime apply_downtime_slash
  check_downtime-Untouched current_block k last s =
      elim (Option-cases (lookup k s.validator_stakes)) [
        | inl missing ↦ ground arith
        | inr (stake, found) ↦ ground (
          arith,
          miners-append s.events (
              Event.validator_slashed k SlashingReason.downtime
                (slash_of stake env.config.downtime_slash_percentage)
              ∷ []),
          append-nil (miners s.events),
        )
      ]

  Untouched-trans : (s t u : State L) → Untouched s t → Untouched t u → Untouched s u
  Untouched-trans s t u a b = ground arith

  check_downtimes-Untouched :
      (current_block : ℕ) (m : StorageMap ℕ) (s : State L)
      → Untouched s (check_downtimes env current_block m s)
  unfolding check_downtimes
  check_downtimes-Untouched current_block [] s = ground arith
  check_downtimes-Untouched current_block ((k, last) ∷ m) s =
      Untouched-trans s (check_downtime env current_block k last s) _
        (check_downtime-Untouched current_block k last s)
        (check_downtimes-Untouched current_block m (check_downtime env current_block k last s))

  check_downtime_slashing-Untouched : (s : State L) → Untouched s (check_downtime_slashing env s)
  unfolding check_downtime_slashing
  check_downtime_slashing-Untouched s = check_downtimes-Untouched _ s.last_active_block s

  -- Blocks off the ten do nothing, every tenth checks the downtimes, and every hundredth adjusts
  -- the difficulty after that.
  pub on_initialize_schedule :
      (n : ℕ) (s : State L)
      → (n % 10 ≢ 0 → (on_initialize env n s).1 ≡ s)
        × (n % 10 ≡ 0 → n % 100 ≢ 0 → (on_initialize env n s).1 ≡ check_downtime_slashing env s)
        × (n % 100 ≡ 0
            → (on_initialize env n s).1 ≡ adjust_difficulty env (check_downtime_slashing env s))
  unfolding on_initialize
  on_initialize_schedule n s = (λ h. ground arith, λ h k. ground arith, λ h. ground arith)

  adjust_difficulty-Untouched : (s : State L) → Untouched s (adjust_difficulty env s)
  unfolding adjust_difficulty
  adjust_difficulty-Untouched s = ground (
    arith,
    miners-append s.events (
        Event.difficulty_adjusted s.difficulty (
          calculate_difficulty_adjustment s.difficulty actual_block_time target_block_time
            (calculate_entropy s.recent_block_producers))
        ∷ []),
    append-nil (miners s.events),
  )

  -- The hook at the start of a block leaves the phase, the headers, the producers and their window,
  -- the ledger and the history of miners alone.
  pub on_initialize-Untouched : (n : ℕ) (s : State L) → Untouched s (on_initialize env n s).1
  unfolding on_initialize
  on_initialize-Untouched n s =
      let checked = check_downtime_slashing-Untouched s in
      let adjusted = adjust_difficulty-Untouched (check_downtime_slashing env s) in
      ground (arith, checked, adjusted, adjust_difficulty-Untouched s)
