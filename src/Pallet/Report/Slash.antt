-- ===== src/Pallet/Report/Slash.antt =====
-- What a report of misbehaviour does to the stakes.
use ghost_blockchain.Base.{
  ℕ, ◌+◌, ◌-◌, ◌*◌, ◌≤◌, ◌<◌, ◌≡◌, ◌∷◌, [], ◌++◌, true, arith, lookup, insert, get_or, u128_max,
  contains_key, contains_key-insert, StorageMap,
}
use ghost_blockchain.Types.{SlashingReason, Origin, Event}
use ghost_blockchain.Environment.{Environment}
use ghost_blockchain.State.{State, ok}
use ghost_blockchain.Pallet.Report.{slash_of, slash_percentage, report_misbehavior}

-- If the product fits in a `u128`, a slash is the percentage of the stake, rounded down.
pub slash_of_bounds :
    (stake percentage : ℕ)
    → percentage ≤ 100
    → stake * percentage ≤ u128_max
    → (slash_of stake percentage ≤ stake)
      × (100 * slash_of stake percentage ≤ stake * percentage)
      × (stake * percentage < 100 * slash_of stake percentage + 100)
unfolding slash_of
slash_of_bounds stake percentage h fits = grind arith

module _ {L : Type 0} (env : Environment L) where
  abbrev pub slash_amount : (validator : ℕ) → SlashingReason → State L → ℕ
  slash_amount validator reason s =
      slash_of (get_or (lookup validator s.validator_stakes) 0) (slash_percentage env.config reason)

  -- The stakes after a report.
  abbrev pub slashed : (validator : ℕ) → SlashingReason → State L → StorageMap ℕ
  slashed validator reason s =
      insert env.before validator
        (get_or (lookup validator s.validator_stakes) 0 - slash_amount validator reason s)
        s.validator_stakes

  -- Any signed report succeeds, without evidence. It cuts the stake of the reported account, and
  -- leaves the other stakes, the ledger, the phase, the headers, the producers and their window,
  -- and the slashing records alone, but for the event `ValidatorSlashed`.
  pub report_misbehavior_outcome :
      (reporter validator : ℕ) (reason : SlashingReason) (s : State L)
      → let (r, s') = report_misbehavior env (Origin.signed reporter) validator reason s in
        (r ≡ ok tt)
        × (s'.validator_stakes ≡ slashed validator reason s)
        × (s'.ledger ≡ s.ledger)
        × (s'.current_phase ≡ s.current_phase)
        × (s'.block_headers ≡ s.block_headers)
        × (s'.slashing_records ≡ s.slashing_records)
        × (s'.events
            ≡ s.events
              ++ Event.validator_slashed validator reason (slash_amount validator reason s) ∷ [])
        × (s'.block_producers ≡ s.block_producers)
        × (s'.recent_block_producers ≡ s.recent_block_producers)
  unfolding report_misbehavior
  report_misbehavior_outcome reporter validator reason s = ground arith

  -- After any signed report the reported account has a stake entry, also if it never staked.
  pub report_misbehavior-contains_key :
      (reporter validator : ℕ) (reason : SlashingReason) (s : State L)
      → contains_key validator
          (report_misbehavior env (Origin.signed reporter) validator reason s).1.validator_stakes
        ≡ true
  report_misbehavior-contains_key reporter validator reason s =
      rw (report_misbehavior_outcome reporter validator reason s).1
        (contains_key-insert env.before validator _ s.validator_stakes)
