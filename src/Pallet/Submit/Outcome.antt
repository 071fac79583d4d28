-- ===== src/Pallet/Submit/Outcome.antt =====
-- What `submit_block` does, on every branch.
use ghost_blockchain.Base.{
  ℕ, ◌-◌, ◌<◌, ◌≡◌, ◌≢◌, ◌⊎◌, inl, inr, none, some, [], ◌∷◌, ◌++◌, arith, lookup, insert, ap, ◌∙◌,
  subst, dec_lt, Option-cases,
}
use ghost_blockchain.Types.{
  GhostBlockHeader, ConsensusPhase, phase_discrete, Event, DispatchError, Origin,
}
use ghost_blockchain.Environment.{Environment}
use ghost_blockchain.State.{
  State, and_then, layered, with_storage_layer, Refused, ok, err, ◌>>◌, modify, deposit_event,
}
use ghost_blockchain.Header.{validate_block_header}
use ghost_blockchain.Header.Checks.{IsValidChild, validate_block_header_cases}
use ghost_blockchain.Pallet.Submit.{push_recent, record_block, submit_block}

module _ {L : Type 0} (env : Environment L) where
  -- When a header can be submitted: in the mining phase, above number 0, as a valid child of a
  -- stored header one number below.
  abbrev pub CanSubmit : GhostBlockHeader → State L → Type 0
  CanSubmit header s =
      (parent : GhostBlockHeader) × (s.current_phase ≡ ConsensusPhase.pow_mining)
      × (0 < header.number)
      × (lookup (header.number - 1) s.block_headers ≡ some parent)
      × IsValidChild env.hashing s.difficulty header parent

  -- The state after a block is mined.
  abbrev pub mined : (miner : ℕ) → GhostBlockHeader → State L → State L
  mined miner header s = record s {
    block_headers = insert env.before header.number header s.block_headers;
    block_producers = insert env.before header.number miner s.block_producers;
    recent_block_producers = push_recent s.recent_block_producers miner;
    last_active_block = insert env.before miner header.number s.last_active_block;
    current_phase = ConsensusPhase.pos_validation;
    events = s.events ++ Event.block_mined header.number miner header.nonce ∷ [];
  }

  checked :
      (miner : ℕ) (header parent : GhostBlockHeader) (s : State L)
      → s.current_phase ≡ ConsensusPhase.pow_mining
      → 0 < header.number
      → lookup (header.number - 1) s.block_headers ≡ some parent
      → submit_block env (Origin.signed miner) header s
        ≡ with_storage_layer
            (validate_block_header env.hashing header parent
              >> (modify (record_block env miner header)
                  >> deposit_event (Event.block_mined header.number miner header.nonce)))
            s
  unfolding submit_block
  checked miner header parent s phase pos found = ground arith

  unchecked :
      (miner : ℕ) (header : GhostBlockHeader) (s : State L)
      → (s.current_phase ≢ ConsensusPhase.pow_mining)
        ⊎ ((header.number ≡ 0) ⊎ (lookup (header.number - 1) s.block_headers ≡ none))
      → Refused (submit_block env (Origin.signed miner) header s) s
  unfolding submit_block
  unchecked miner header s why = ground arith

  validated :
      (miner : ℕ) (header parent : GhostBlockHeader) (s : State L)
      → IsValidChild env.hashing s.difficulty header parent
      → CanSubmit header s
      → lookup (header.number - 1) s.block_headers ≡ some parent
      → validate_block_header env.hashing header parent s ≡ (ok tt, s)
      → submit_block env (Origin.signed miner) header s ≡ (ok tt, mined miner header s)
  unfolding record_block
  validated miner header parent s v (_, phase, pos, _, _) found accepted =
      checked miner header parent s phase pos found
      ∙ ap
          (λ r. layered s (
            and_then r (λ _.
              modify (record_block env miner header)
              >> deposit_event (Event.block_mined header.number miner header.nonce))))
          accepted

  rejected :
      (miner : ℕ) (header parent : GhostBlockHeader) (s : State L) (e : DispatchError)
      → s.current_phase ≡ ConsensusPhase.pow_mining
      → 0 < header.number
      → lookup (header.number - 1) s.block_headers ≡ some parent
      → validate_block_header env.hashing header parent s ≡ (err e, s)
      → Refused (submit_block env (Origin.signed miner) header s) s
  rejected miner header parent s e phase pos found refused =
      rw (checked miner header parent s phase pos found) (ground arith)

  -- A signed `submit_block` succeeds exactly in the mining phase for a header above number 0 that
  -- is a valid child of the stored header one number below. It then stores the header and its
  -- miner, updates the window and the miner's activity, moves to the validation phase and deposits
  -- `BlockMined`, and changes nothing else; else it fails and writes nothing.
  pub submit_block_outcome :
      (miner : ℕ) (header : GhostBlockHeader) (s : State L)
      → (CanSubmit header s
          × (submit_block env (Origin.signed miner) header s ≡ (ok tt, mined miner header s)))
        ⊎ (¬ CanSubmit header s × Refused (submit_block env (Origin.signed miner) header s) s)
  submit_block_outcome miner header s =
      elim (phase_discrete s.current_phase ConsensusPhase.pow_mining) [
        | no other ↦ inr ((λ c. other c.1), unchecked miner header s (inl other))
        | yes phase ↦ elim (dec_lt 0 header.number) [
          | no first ↦ inr ((λ c. first c.2), unchecked miner header s (inr (inl (omega arith))))
          | yes pos ↦ elim (Option-cases (lookup (header.number - 1) s.block_headers)) [
            | inl missing ↦
                inr ((λ c. cc (c.3, missing)), unchecked miner header s (inr (inr missing)))
            | inr (parent, found) ↦ elim (validate_block_header_cases env.hashing header parent s) [
              | inl (v, accepted) ↦ inl (
                (parent, phase, pos, found, v),
                validated miner header parent s v (parent, phase, pos, found, v) found accepted,
              )
              | inr (bad, (e, refused)) ↦ inr (
                (λ c. bad (
                    let same : c.0 ≡ parent = cc (c.3, found) in
                    subst (IsValidChild env.hashing s.difficulty header) same c.4)),
                rejected miner header parent s e phase pos found refused,
              )
            ]
          ]
        ]
      ]
