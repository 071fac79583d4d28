-- ===== src/Pallet/Validate/Outcome.antt =====
-- What `validate_block` does, on every branch.
use ghost_blockchain.Base.{
  ℕ, ◌≡◌, ◌⊎◌, inl, inr, none, some, ◌∷◌, [], ◌++◌, arith, lookup, insert, Option-cases,
}
use ghost_blockchain.Types.{
  GhostBlockHeader, PqcSignature, PosSelection, ConsensusPhase, Event, Error, DispatchError, Origin,
}
use ghost_blockchain.Environment.{Environment}
use ghost_blockchain.State.{State, ok, err, Refused}
use ghost_blockchain.Rewards.{calculate_block_reward}
use ghost_blockchain.Pallet.Validate.{check_pqc, sign_header, distribute, validate_block}
use ghost_blockchain.Pallet.Validate.Entitlement.{
  IsEntitled, Lacks, no_stake, no_header, wrong_phase, nobody_selected, other_selected, no_key,
  bad_signature, entitled,
}

module _ {L : Type 0} (env : Environment L) where
  -- The first write: the signed header.
  abbrev pub signed_state :
      (validator block_number : ℕ) → PqcSignature → GhostBlockHeader → State L → State L
  signed_state validator block_number sig header s = record s {
    block_headers =
        insert env.before block_number (sign_header env validator block_number sig header)
          s.block_headers;
  }

  -- The state after the call.
  abbrev pub validated_state :
      (validator block_number : ℕ)
      → PqcSignature
      → GhostBlockHeader
      → (miner weight : ℕ) → State L
      → State L
  validated_state validator block_number sig header miner weight s =
      let reward = calculate_block_reward env.config.block_reward in
      let paid = distribute env miner reward (signed_state validator block_number sig header s) in
      record paid {
        last_active_block = insert env.before validator block_number paid.last_active_block;
        current_phase = ConsensusPhase.finalization;
        events =
            (s.events ++ Event.validator_selected validator weight ∷ [])
            ++ Event.rewards_distributed miner reward.miner_reward reward.stakers_reward ∷ [];
      }

  module _ (validator block_number : ℕ) (sig : PqcSignature) (s : State L)
      (header : GhostBlockHeader) (selection : PosSelection) where
    pub validate_done :
        IsEntitled env validator block_number sig s header selection
        → (miner : ℕ) → lookup block_number s.block_producers ≡ some miner
        → validate_block env (Origin.signed validator) block_number sig s
          ≡ (ok tt, validated_state validator block_number sig header miner selection.weight s)
    unfolding validate_block check_pqc
    validate_done v miner found = ground arith

    validate_orphan :
        IsEntitled env validator block_number sig s header selection
        → lookup block_number s.block_producers ≡ none
        → validate_block env (Origin.signed validator) block_number sig s
          ≡ (err (DispatchError.module_error Error.block_not_found), s)
    unfolding validate_block check_pqc
    validate_orphan v missing = ground arith

  validate_block-Refused :
      (validator block_number : ℕ) (sig : PqcSignature) (s : State L)
      → Lacks env validator block_number sig s
      → Refused (validate_block env (Origin.signed validator) block_number sig s) s
  unfolding validate_block check_pqc
  validate_block-Refused validator block_number sig s (no_stake e) = ground arith
  validate_block-Refused validator block_number sig s (no_header e) = ground arith
  validate_block-Refused validator block_number sig s (wrong_phase e) = ground arith
  validate_block-Refused validator block_number sig s (nobody_selected e) = ground arith
  validate_block-Refused validator block_number sig s (other_selected selection e ne) = ground arith
  validate_block-Refused validator block_number sig s (no_key r e) = ground arith
  validate_block-Refused validator block_number sig s (bad_signature key r e f) = ground arith

  -- A signed `validate_block` has one of three outcomes. A caller is entitled in the validation
  -- phase if it has a stake entry, the block's header is stored, the seed selects it, and its
  -- signature is right where one is required. Such a caller of a block with a producer signs the
  -- header, pays the reward out, becomes active at that block and ends the phase, with two events.
  -- If the block has no producer, the call fails with `BlockNotFound`, and the signed header that
  -- was written before is undone. Any other caller lacks something, and the call fails and writes
  -- nothing.
  pub validate_block_outcome :
      (validator block_number : ℕ) (sig : PqcSignature) (s : State L)
      → ((header : GhostBlockHeader) × (selection : PosSelection) × (miner : ℕ) × IsEntitled env
            validator block_number sig s header selection
          × (lookup block_number s.block_producers ≡ some miner)
          × (validate_block env (Origin.signed validator) block_number sig s ≡ (
            ok tt,
            validated_state validator block_number sig header miner selection.weight s,
          )))
        ⊎ (((header : GhostBlockHeader) × (selection : PosSelection) × IsEntitled env validator
                block_number sig s header selection
              × (lookup block_number s.block_producers ≡ none)
              × (validate_block env (Origin.signed validator) block_number sig s
                  ≡ (err (DispatchError.module_error Error.block_not_found), s)))
            ⊎ (Lacks env validator block_number sig s
                × Refused (validate_block env (Origin.signed validator) block_number sig s) s))
  validate_block_outcome validator block_number sig s =
      elim (entitled env validator block_number sig s) [
        | inr lacks ↦ inr (inr (lacks, validate_block-Refused validator block_number sig s lacks))
        | inl (header, selection, v) ↦ elim (Option-cases (lookup block_number s.block_producers)) [
          | inr (miner, found) ↦ inl (
            header,
            selection,
            miner,
            v,
            found,
            validate_done validator block_number sig s header selection v miner found,
          )
          | inl missing ↦ inr (
              inl (
                header,
                selection,
                v,
                missing,
                validate_orphan validator block_number sig s header selection v missing,
              ))
        ]
      ]
