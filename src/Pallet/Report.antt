-- ===== src/Pallet/Report.antt =====
-- `report_misbehavior` of pallets/pallet-ghost-consensus/src/lib.rs, and the two placeholders for
-- slashing of its functions.rs.
pub mod Slash
use ghost_blockchain.Base.{ℕ, ◌-◌, ◌*◌, ◌/◌, true, wrap_u128, lookup, insert, get_or, Option, none}
use ghost_blockchain.Types.{SlashingReason, Event, Origin}
use ghost_blockchain.Environment.{Environment, Config}
use ghost_blockchain.State.{
  State, Result, ok, Action, ◌>>=◌, ◌>>◌, gets, modify, with_storage_layer, ensure_signed,
  deposit_event,
}
use ghost_blockchain.Pallet.Stake.{set_stake}

-- `(stake * slash_percentage.into()) / 100u32.into()`
unfoldable pub slash_of : (stake slash_percentage : ℕ) → ℕ
slash_of stake slash_percentage = wrap_u128 (stake * slash_percentage) / 100

-- The second `match reason`.
unfoldable pub slash_percentage : Config → SlashingReason → ℕ
slash_percentage config SlashingReason.double_signing = config.double_sign_slash_percentage
slash_percentage config SlashingReason.invalid_block = config.invalid_block_slash_percentage
slash_percentage config SlashingReason.downtime = config.downtime_slash_percentage
slash_percentage config SlashingReason.other = 10

-- `functions::check_slashing_conditions`
pub check_slashing_conditions : (validator : ℕ) → Option SlashingReason
check_slashing_conditions _ = none

-- `functions::apply_slashing`
pub apply_slashing : (validator : ℕ) → SlashingReason → Result (Unit {0})
apply_slashing _ _ = ok tt

module _ {L : Type 0} (env : Environment L) where
  -- The first `match reason`.
  unfoldable pub record_report : (validator : ℕ) → SlashingReason → State L → State L
  record_report validator SlashingReason.double_signing s = record s {
    double_sign_reports = insert env.before validator true s.double_sign_reports;
  }
  record_report validator SlashingReason.invalid_block s = record s {
    invalid_block_reports = insert env.before validator true s.invalid_block_reports;
  }
  record_report validator SlashingReason.downtime s = s
  record_report validator SlashingReason.other s = s

  unfoldable pub report_misbehavior :
      Origin → (validator : ℕ) → SlashingReason → Action L (Unit {0})
  unfolding record_report slash_percentage slash_of
  report_misbehavior origin validator reason = with_storage_layer (do
    ensure_signed origin
    modify (record_report validator reason)
    current_stake ← gets (λ s. get_or (lookup validator s.validator_stakes) 0)
    let slash_amount = slash_of current_stake (slash_percentage env.config reason)
    modify (set_stake env validator (current_stake - slash_amount))
    deposit_event (Event.validator_slashed validator reason slash_amount))
