-- ===== src/Pallet/Round.antt =====
-- A round of the protocol: mining, validation, and the end of the block.
use ghost_blockchain.Base.{
  ℕ, ◌≤◌, ◌<◌, ◌≡◌, refl, ap, ◌∙◌, inl, inr, none, some, List, [], ◌∷◌, ◌++◌, arith, lookup,
  lookup-insert, contains_key, true, StorageMap, u64_max, ◌%◌, saturated_into_u64,
}
use ghost_blockchain.Types.{GhostBlockHeader, PqcSignature, ValidatorStake, ConsensusPhase, Origin}
use ghost_blockchain.Environment.{Environment}
use ghost_blockchain.State.{State, ok, Refused}
use ghost_blockchain.Pow.{prefix_value}
use ghost_blockchain.Selection.Weighted.{weight_of, Owns, chosen, select_total, select_nothing}
use ghost_blockchain.Pallet.Submit.{submit_block}
use ghost_blockchain.Pallet.Submit.Outcome.{CanSubmit, mined, submit_block_outcome}
use ghost_blockchain.Pallet.Validate.{
  to_validator_stake, stakers, sign_header, selection_of, validate_block,
}
use ghost_blockchain.Pallet.Validate.Entitlement.{IsEntitled, IsAttested}
use ghost_blockchain.Pallet.Validate.Outcome.{
  validated_state, validate_done, validate_block_outcome,
}
use ghost_blockchain.Pallet.Hooks.{on_finalize}

-- A staker of the list has an entry in the map.
contains_key-stakers :
    (m : StorageMap ℕ) (before : List ValidatorStake) (owner : ValidatorStake)
    (after : List ValidatorStake)
    → stakers m ≡ before ++ owner ∷ after
    → contains_key owner.account m ≡ true
contains_key-stakers [] [] owner after e = cc
contains_key-stakers [] (b ∷ bs) owner after e = cc
contains_key-stakers ((k, v) ∷ m) [] owner after e =
    let same : to_validator_stake (k, v) ≡ owner = cc in
    let account : k ≡ owner.account = ap (λ (o : ValidatorStake). o.account) same in ground arith
contains_key-stakers ((k, v) ∷ m) (b ∷ bs) owner after e =
    let rest : stakers m ≡ bs ++ owner ∷ after = cc in
    ground (arith, contains_key-stakers m bs owner after rest)

module _ {L : Type 0} (env : Environment L) where
  finalized_phase :
      (n : ℕ) (u : State L)
      → u.current_phase ≡ ConsensusPhase.finalization
      → ((on_finalize env n u).current_phase ≡ ConsensusPhase.pow_mining)
        × ((on_finalize env n u).block_headers ≡ u.block_headers)
  unfolding on_finalize
  finalized_phase n u h = ground arith

  -- Whoever has a stake entry can sign a vote, where signatures are required.
  abbrev pub CanSign : (sign : ℕ → PqcSignature) → (block_number : ℕ) → State L → Type 0
  CanSign sign block_number s =
      (validator : ℕ)
      → contains_key validator s.validator_stakes ≡ true
      → IsAttested env validator block_number (sign validator) s

  -- The staker that is selected after a block was mined may validate it.
  selected-IsEntitled :
      (miner : ℕ) (header : GhostBlockHeader) (sign : ℕ → PqcSignature) (s : State L)
      → CanSign sign header.number s
      → (owner : ValidatorStake)
      → Owns
          (prefix_value (env.hashing.hash_of_round header.number s.block_number)
            % weight_of (stakers s.validator_stakes))
          (stakers s.validator_stakes)
          owner
      → selection_of env header.number s ≡ some (chosen (saturated_into_u64 s.block_number) owner)
      → IsEntitled env owner.account header.number
          (sign owner.account)
          (mined env miner header s)
          header
          (chosen (saturated_into_u64 s.block_number) owner)
  selected-IsEntitled miner header sign s signs owner (before, after, split, low, high) selected =
      let has_entry = contains_key-stakers s.validator_stakes before owner after split in
      record {
        staked = has_entry;
        stored =
            lookup-insert env.before header.number header.number header s.block_headers
            ∙ ground arith;
        phase = refl;
        selected = selected;
        caller = refl;
        attested = signs owner.account has_entry;
      }

  -- If no Dilithium signature is required or every account with a stake entry has one that is right
  -- for its vote, and the stakes weigh more than 0 but fit in a `u64`, then a round that begins with
  -- a valid header can be completed: once the header is submitted there is a staker whose
  -- `validate_block` for it succeeds with its signature, and the end of the block is back in the
  -- mining phase with the signed header stored.
  pub round_completes :
      (miner n : ℕ) (header : GhostBlockHeader) (sign : ℕ → PqcSignature) (s : State L)
      → CanSubmit env header s
      → CanSign sign header.number s
      → 0 < weight_of (stakers s.validator_stakes)
      → weight_of (stakers s.validator_stakes) ≤ u64_max
      → (validator : ℕ) × (t : State L) × (u : State L) × (contains_key validator s.validator_stakes
          ≡ true)
        × (submit_block env (Origin.signed miner) header s ≡ (ok tt, t))
        × (validate_block env (Origin.signed validator) header.number (sign validator) t
            ≡ (ok tt, u))
        × ((on_finalize env n u).current_phase ≡ ConsensusPhase.pow_mining)
        × (lookup header.number (on_finalize env n u).block_headers
            ≡ some (sign_header env validator header.number (sign validator) header))
  round_completes miner n header sign s can signs pos fits =
      elim (submit_block_outcome env miner header s) [
        | inr (cannot, refused) ↦ absurd (cannot can)
        | inl (c, submitted) ↦
            elim (select_total (saturated_into_u64 s.block_number) (stakers s.validator_stakes)
              (env.hashing.hash_of_round header.number s.block_number) fits) [
                | inl (nothing, unselected) ↦ absurd (omega arith)
                | inr (owner, owns, heavy, selected) ↦
                    let v = owner.account in
                    let t = mined env miner header s in
                    let entitled =
                      selected-IsEntitled miner header sign s signs owner owns selected in
                    let found : lookup header.number t.block_producers ≡ some miner =
                      lookup-insert env.before header.number header.number miner s.block_producers
                      ∙ ground arith in
                    let selection = chosen (saturated_into_u64 s.block_number) owner in
                    let u =
                      validated_state env v header.number (sign v) header miner selection.weight
                        t in
                    let (phase, headers) = finalized_phase n u refl in
                    (
                      v,
                      t,
                      u,
                      entitled.staked,
                      submitted,
                      validate_done env v header.number (sign v) t header selection entitled miner
                          found,
                      phase,
                      ap (lookup header.number) headers
                          ∙ lookup-insert env.before header.number header.number
                              (sign_header env v header.number (sign v) header) t.block_headers
                          ∙ ground arith,
                    )
              ]
      ]

  -- Where every stake is 0, nobody can validate any block, so that the validation phase lasts until
  -- somebody stakes.
  pub validate_block-unweighted :
      (validator block_number : ℕ) (sig : PqcSignature) (s : State L)
      → weight_of (stakers s.validator_stakes) ≡ 0
      → Refused (validate_block env (Origin.signed validator) block_number sig s) s
  validate_block-unweighted validator block_number sig s empty =
      let unselected : selection_of env block_number s ≡ none =
        select_nothing (saturated_into_u64 s.block_number) (stakers s.validator_stakes)
          (env.hashing.hash_of_round block_number s.block_number) empty in
      elim (validate_block_outcome env validator block_number sig s) [
        | inl (header, selection, miner, v, found, done) ↦ absurd (cc (v.selected, unselected))
        | inr (inl (header, selection, v, missing, failed)) ↦ absurd (cc (v.selected, unselected))
        | inr (inr (lacks, refused)) ↦ refused
      ]
