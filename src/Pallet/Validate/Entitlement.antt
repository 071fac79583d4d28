-- ===== src/Pallet/Validate/Entitlement.antt =====
-- What `validate_block` asks of its caller: a stake, a stored header, the phase, the selection and
-- the signature.
use ghost_blockchain.Base.{
  ℕ, ◌≡◌, ◌≢◌, ◌⊎◌, inl, inr, List, none, some, true, false, lookup, contains_key, Option-cases,
  Bool-cases, ℕ_discrete,
}
use ghost_blockchain.Types.{
  GhostBlockHeader, PqcSignature, PosSelection, ConsensusPhase, phase_discrete,
}
use ghost_blockchain.Environment.{Environment}
use ghost_blockchain.State.{State}
use ghost_blockchain.Pallet.Validate.{verify_pqc_signature, selection_of}

module _ {L : Type 0} (env : Environment L) where
  -- The signature check passes, if it is required.
  abbrev pub IsAttested : (validator block_number : ℕ) → PqcSignature → State L → Type 0
  IsAttested validator block_number sig s =
      (env.config.pqc_required ≡ false)
      ⊎ ((key : List ℕ) × (lookup validator s.validator_pqc_public_keys ≡ some key)
          × (verify_pqc_signature env.dilithium (env.hashing.hash_of_vote validator block_number)
                sig.bytes key
              ≡ true))

  -- What the call needs before it writes: a stake, a stored header, the validation phase, the
  -- selection of the caller, and the signature.
  pub record IsEntitled (validator block_number : ℕ) (sig : PqcSignature) (s : State L)
      (header : GhostBlockHeader) (selection : PosSelection) : Type 0 where
    pub staked : contains_key validator s.validator_stakes ≡ true
    pub stored : lookup block_number s.block_headers ≡ some header
    pub phase : s.current_phase ≡ ConsensusPhase.pos_validation
    pub selected : selection_of env block_number s ≡ some selection
    pub caller : selection.validator ≡ validator
    pub attested : IsAttested validator block_number sig s

  -- What a caller that is not entitled lacks.
  pub data Lacks (validator block_number : ℕ) (sig : PqcSignature) (s : State L) : Type 0 where
    no_stake :
        contains_key validator s.validator_stakes ≡ false → Lacks validator block_number sig s
    no_header : lookup block_number s.block_headers ≡ none → Lacks validator block_number sig s
    wrong_phase :
        s.current_phase ≢ ConsensusPhase.pos_validation → Lacks validator block_number sig s
    nobody_selected : selection_of env block_number s ≡ none → Lacks validator block_number sig s
    other_selected :
        (selection : PosSelection)
        → selection_of env block_number s ≡ some selection
        → selection.validator ≢ validator
        → Lacks validator block_number sig s
    no_key :
        env.config.pqc_required ≡ true
        → lookup validator s.validator_pqc_public_keys ≡ none
        → Lacks validator block_number sig s
    bad_signature :
        (key : List ℕ)
        → env.config.pqc_required ≡ true
        → lookup validator s.validator_pqc_public_keys ≡ some key
        → verify_pqc_signature env.dilithium
            (env.hashing.hash_of_vote validator block_number)
            sig.bytes
            key
          ≡ false
        → Lacks validator block_number sig s

  attestation :
      (validator block_number : ℕ) (sig : PqcSignature) (s : State L)
      → IsAttested validator block_number sig s ⊎ Lacks validator block_number sig s
  attestation validator block_number sig s = elim (Bool-cases env.config.pqc_required) [
    | inr free ↦ inl (inl free)
    | inl required ↦ elim (Option-cases (lookup validator s.validator_pqc_public_keys)) [
      | inl e ↦ inr (no_key required e)
      | inr (key, found) ↦
          elim (Bool-cases (
            verify_pqc_signature env.dilithium (env.hashing.hash_of_vote validator block_number)
              sig.bytes key)) [
                | inl good ↦ inl (inr (key, found, good))
                | inr bad ↦ inr (bad_signature key required found bad)
              ]
    ]
  ]

  -- A caller is entitled or lacks something.
  pub entitled :
      (validator block_number : ℕ) (sig : PqcSignature) (s : State L)
      → ((header : GhostBlockHeader) × (selection : PosSelection) × IsEntitled validator
            block_number sig s header selection)
        ⊎ Lacks validator block_number sig s
  entitled validator block_number sig s =
      elim (Bool-cases (contains_key validator s.validator_stakes)) [
        | inr e ↦ inr (no_stake e)
        | inl staked ↦ elim (Option-cases (lookup block_number s.block_headers)) [
          | inl e ↦ inr (no_header e)
          | inr (header, stored) ↦
              elim (phase_discrete s.current_phase ConsensusPhase.pos_validation) [
                | no e ↦ inr (wrong_phase e)
                | yes phase ↦ elim (Option-cases (selection_of env block_number s)) [
                  | inl e ↦ inr (nobody_selected e)
                  | inr (selection, selected) ↦ elim (ℕ_discrete selection.validator validator) [
                    | no e ↦ inr (other_selected selection selected e)
                    | yes caller ↦ elim (attestation validator block_number sig s) [
                      | inr e ↦ inr e
                      | inl attested ↦ inl (
                        header,
                        selection,
                        record {
                          staked = staked;
                          stored = stored;
                          phase = phase;
                          selected = selected;
                          caller = caller;
                          attested = attested;
                        },
                      )
                    ]
                  ]
                ]
              ]
        ]
      ]
