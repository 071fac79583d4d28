-- ===== src/Rpc/Answers.antt =====
-- What the RPC methods answer, on every outcome of the runtime API.
use Prim.Native.String.{String}
use ghost_blockchain.Base.{ℕ, ◌≤◌, ◌≡◌, Option, ◌⊎◌, inl, inr, arith, refl, Sum-cases, ℕ_discrete}
use ghost_blockchain.Types.{ConsensusPhase, pow_mining, pos_validation, finalization}
use ghost_blockchain.Rpc.{Client, block_at, runtime_error_into_rpc_error, get_current_phase}

-- The number of a phase, in the order of its declaration, and its own name.
abbrev pub phase_number : ConsensusPhase → ℕ
phase_number pow_mining = 0
phase_number pos_validation = 1
phase_number finalization = 2

abbrev pub phase_text : ConsensusPhase → String
phase_text pow_mining = "PowMining"
phase_text pos_validation = "PosValidation"
phase_text finalization = "Finalization"

module _ {Hash E : Type 0} (client : Client Hash E) (at' : Option Hash) where
  -- `get_current_phase` fails exactly as the runtime API does at the block asked for, or at the
  -- best block if none is; else it answers the name of the phase with the API's number, or
  -- `Unknown` if no phase has that number.
  pub get_current_phase_cases :
      ((e : E) × (client.api_get_current_phase (block_at client at') ≡ inl e)
        × (get_current_phase client at' ≡ inl (runtime_error_into_rpc_error client e)))
      ⊎ (((p : ConsensusPhase) × (client.api_get_current_phase (block_at client at')
              ≡ inr (phase_number p))
            × (get_current_phase client at' ≡ inr (phase_text p)))
          ⊎ ((n : ℕ) × (client.api_get_current_phase (block_at client at') ≡ inr n)
              × (3 ≤ n)
              × (get_current_phase client at' ≡ inr "Unknown")))
  unfolding get_current_phase
  get_current_phase_cases = elim (Sum-cases (client.api_get_current_phase (block_at client at'))) [
    | inl (e, failed) ↦ inl (e, failed, rw failed refl)
    | inr (n, answered) ↦ elim (ℕ_discrete n 0) [
      | yes zero' ↦ inr (inl (pow_mining, rw answered (rw zero' refl), rw answered (rw zero' refl)))
      | no a ↦ elim (ℕ_discrete n 1) [
        | yes one ↦ inr (inl (pos_validation, rw answered (rw one refl), rw answered (rw one refl)))
        | no b ↦ elim (ℕ_discrete n 2) [
          | yes two ↦ inr (inl (finalization, rw answered (rw two refl), rw answered (rw two refl)))
          | no c ↦ inr (inr (n, answered, omega arith, rw answered (ground arith)))
        ]
      ]
    ]
  ]
