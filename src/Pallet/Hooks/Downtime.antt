-- ===== src/Pallet/Hooks/Downtime.antt =====
-- What `check_downtime_slashing` does to each stake.
use ghost_blockchain.Base.{
  ℕ, ◌-◌, ◌≡◌, refl, Option, some, none, [], ◌∷◌, Bool, true, false, arith, lookup, lookup-insert,
  ltb, ◌==◌, if◌then◌else◌, StorageMap, HasDistinctKeys, saturated_into_u32, Option-cases, inl, inr,
  ==_iff, ap, ◌∙◌, ℕ_discrete,
}
use ghost_blockchain.Environment.{Environment}
use ghost_blockchain.State.{State}
use ghost_blockchain.Pallet.Report.{slash_of}
use ghost_blockchain.Pallet.Hooks.{
  apply_downtime_slash, check_downtime, check_downtimes, check_downtime_slashing,
}

-- A validator was not active for too long.
abbrev pub is_overdue : (max_downtime current_block last_active : ℕ) → Bool
is_overdue max_downtime current_block last_active = ltb max_downtime (current_block - last_active)

-- The stake that a check leaves, from the last activity and the stake, if there are any.
abbrev pub checked_stake :
    (max_downtime percentage current_block : ℕ) → Option ℕ → Option ℕ → Option ℕ
checked_stake max_downtime percentage current_block none stake = stake
checked_stake max_downtime percentage current_block (some last) none = none
checked_stake max_downtime percentage current_block (some last) (some stake) =
    if is_overdue max_downtime current_block last
    then some (stake - slash_of stake percentage)
    else some stake

module _ {L : Type 0} (env : Environment L) where
  abbrev pub expected_stake : (current_block : ℕ) → Option ℕ → Option ℕ → Option ℕ
  expected_stake = checked_stake env.config.max_downtime_blocks env.config.downtime_slash_percentage

  check_one :
      (current_block k last v : ℕ) (s : State L)
      → lookup v (check_downtime env current_block k last s).validator_stakes
        ≡ expected_stake current_block
            (if v == k then some last else none)
            (lookup v s.validator_stakes)
  unfolding check_downtime apply_downtime_slash
  check_one current_block k last v s = elim (Option-cases (lookup k s.validator_stakes)) [
    | inl missing ↦ ground arith
    | inr (stake, found) ↦ ground (
      arith,
      lookup-insert env.before k v (stake - slash_of stake env.config.downtime_slash_percentage)
          s.validator_stakes,
    )
  ]

  check_all :
      (current_block v : ℕ) (m : StorageMap ℕ) (s : State L)
      → HasDistinctKeys m
      → lookup v (check_downtimes env current_block m s).validator_stakes
        ≡ expected_stake current_block (lookup v m) (lookup v s.validator_stakes)
  unfolding check_downtimes
  check_all current_block v [] s h = refl
  check_all current_block v ((k, last) ∷ m) s h =
      let one = check_one current_block k last v s in
      let rest = check_all current_block v m (check_downtime env current_block k last s) h.1 in
      elim (ℕ_discrete v k) [
        | yes same ↦
            let e : (v == k) ≡ true = (==_iff v k).1 same in
            let later : lookup v m ≡ none = rw same h.0 in rw e (rest ∙ rw later (rw e at one))
        | no other ↦
            let e : (v == k) ≡ false = ground arith in
            rw e (rest ∙ ap (expected_stake current_block (lookup v m)) (rw e at one))
      ]

  -- If no account stands twice in the activity map, the check slashes each staker that was not
  -- active for more than the maximum of blocks, once and by the percentage, and leaves every other
  -- stake alone. An account that was never active is not slashed.
  pub check_downtime_slashing-stake :
      (v : ℕ) (s : State L)
      → HasDistinctKeys s.last_active_block
      → lookup v (check_downtime_slashing env s).validator_stakes
        ≡ expected_stake
            (saturated_into_u32 s.block_number)
            (lookup v s.last_active_block)
            (lookup v s.validator_stakes)
  unfolding check_downtime_slashing
  check_downtime_slashing-stake v s h =
      check_all (saturated_into_u32 s.block_number) v s.last_active_block s h
