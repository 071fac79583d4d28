-- ===== src/Header.antt =====
-- `validate_block_header` of pallets/pallet-ghost-consensus/src/functions.rs.
pub mod Checks
use ghost_blockchain.Base.{ℕ, ◌+◌, ◌*◌, ◌/◌, leb, ◌==◌, wrap_u32, saturating_mul_u64}
use ghost_blockchain.Types.{GhostBlockHeader, Error, bytes_eq}
use ghost_blockchain.Environment.{Hashing}
use ghost_blockchain.Pow.{verify_pow_enhanced}
use ghost_blockchain.State.{Action, State, ensure, ◌>>=◌, ◌>>◌, gets}

-- The checks in order, the first that fails gives the error. Nothing is written.
unfoldable pub validate_block_header :
    {L : Type 0} → Hashing → (header parent_header : GhostBlockHeader) → Action L (Unit {0})
validate_block_header hs header parent_header = do
  ensure (header.number == wrap_u32 (parent_header.number + 1)) Error.invalid_block_number
  ensure (bytes_eq header.parent_hash (hs.hash_of_header parent_header)) Error.invalid_parent_hash
  ensure (verify_pow_enhanced hs header header.difficulty) Error.invalid_pow
  expected_difficulty ← gets (λ s. s.difficulty)
  ensure (leb (expected_difficulty / 2) header.difficulty) Error.difficulty_too_low
  ensure (leb header.difficulty (saturating_mul_u64 expected_difficulty 2))
      Error.difficulty_too_high
