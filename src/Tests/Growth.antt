-- ===== src/Tests/Growth.antt =====
-- Fifty rounds from the start state, with Dilithium signatures required.
use ghost_blockchain.Base.{ℕ, ◌+◌, ◌≡◌, refl, sym, subst, ℕ_discrete, inr, arith, [], ◌∷◌, wrap_u32}
use ghost_blockchain.Types.{GhostBlockHeader, PqcSignature}
use ghost_blockchain.State.{State}
use ghost_blockchain.Pow.{prefix_value, enhanced_value}
use ghost_blockchain.Pallet.Transitions.{Reach}
use ghost_blockchain.Pallet.Validate.{verify_pqc_signature}
use ghost_blockchain.Pallet.Validate.Entitlement.{IsAttested}
use ghost_blockchain.Pallet.Round.{CanSign}
use ghost_blockchain.Pallet.Growth.{IsMinable, CanExtend, chain_grows}
use ghost_blockchain.Tests.World.{Ledger, test_env, test_header, start_state}

-- A child of any header, with the nonce 60.
abbrev child_of : GhostBlockHeader → GhostBlockHeader
child_of parent = record (test_header (wrap_u32 (parent.number + 1)) 60) {
  parent_hash = parent.number ∷ [];
}

hundred-IsMinable : IsMinable test_env.hashing 100
unfolding enhanced_value prefix_value
hundred-IsMinable parent = (
  child_of parent,
  record {
    next_number = refl;
    links = refl;
    works = omega arith;
    not_low = omega arith;
    not_high = omega arith;
  },
)

-- Both stakers have a key, and sign with it.
abbrev keyed_state : State Ledger
keyed_state = record start_state { validator_pqc_public_keys = (1, 7 ∷ []) ∷ (2, 8 ∷ []) ∷ [] }

abbrev vote_signature : (block_number validator : ℕ) → PqcSignature
vote_signature block_number validator = record { bytes = (validator + 6) ∷ [] }

keyed-signs : (n : ℕ) → CanSign test_env (vote_signature n) n keyed_state
unfolding verify_pqc_signature
keyed-signs n validator entry = elim (ℕ_discrete validator 1) [
  | yes one ↦
      subst (λ v. IsAttested test_env v n (vote_signature n v) keyed_state) (sym one)
        (inr (7 ∷ [], refl, refl))
  | no other ↦ elim (ℕ_discrete validator 2) [
    | yes two ↦
        subst (λ v. IsAttested test_env v n (vote_signature n v) keyed_state) (sym two)
          (inr (8 ∷ [], refl, refl))
    | no neither ↦ absurd (ground (arith, entry, other, neither))
  ]
]

chain_grows_example :
    (t : State Ledger) × Reach test_env keyed_state t
    × CanExtend test_env vote_signature (0 + 50) t
    × (t.validator_stakes ≡ keyed_state.validator_stakes)
chain_grows_example = chain_grows test_env 3 vote_signature 50 0 keyed_state (omega arith) (record {
  mining = refl;
  head = test_header 0 0;
  stored = refl;
  numbered = refl;
  minable = hundred-IsMinable;
  signable = keyed-signs;
  heavy = omega arith;
  fits = omega arith;
})
