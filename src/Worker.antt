-- ===== src/Worker.antt =====
-- pallets/pallet-ghost-consensus/src/consensus.rs: the import and the proposal of blocks, which are
-- placeholders there, and the mining worker.
pub mod Search
pub mod Engine
use ghost_blockchain.Base.{
  ℕ, zero, suc, ◌+◌, Bool, true, false, Option, none, some, ◌⊎◌, inl, inr, if◌then◌else◌,
}
use ghost_blockchain.Types.{GhostBlockHeader}
use ghost_blockchain.Environment.{Hashing}
use ghost_blockchain.Pow.{verify_pow_enhanced}

-- `sp_consensus::ImportedAux`
pub record ImportedAux : Type 0 where
  pub header_only : Bool
  pub clear_justification_requests : Bool
  pub needs_justification : Bool
  pub bad_justification : Bool
  pub is_new_best : Bool

-- What the source uses of `sp_consensus::ImportResult` and `sp_consensus::Error`.
pub data ImportResult : Type 0 where
  imported : ImportedAux → ImportResult

pub data ConsensusError : Type 0 where
  cannot_propose : ConsensusError

-- `BlockImport::check_block`
pub check_block : {B : Type 0} → B → ConsensusError ⊎ ImportResult
check_block block = inr (
    imported (record {
      header_only = false;
      clear_justification_requests = false;
      needs_justification = false;
      bad_justification = false;
      is_new_best = true;
    }))

-- `BlockImport::import_block`
pub import_block : {B : Type 0} → B → ConsensusError ⊎ ImportResult
import_block block = inr (
    imported (record {
      header_only = false;
      clear_justification_requests = false;
      needs_justification = false;
      bad_justification = false;
      is_new_best = true;
    }))

-- `Proposer::propose`
pub propose : {P Proposal : Type 0} → P → ConsensusError ⊎ Proposal
propose _ = inl cannot_propose

-- `struct GhostMiningWorker`
pub record GhostMiningWorker : Type 0 where
  pub difficulty : ℕ

abbrev pub max_attempts : ℕ
max_attempts = 1000000

module _ (hs : Hashing) (worker : GhostMiningWorker) (block_header : GhostBlockHeader) where
  -- The test of a nonce: a copy of the header with it.
  abbrev pub accepts : (nonce : ℕ) → Bool
  accepts nonce = verify_pow_enhanced hs (record block_header { nonce = nonce }) worker.difficulty

  -- The loop, by the attempts that are left.
  unfoldable pub mine_from : (attempts nonce : ℕ) → Option ℕ
  mine_from zero nonce = none
  mine_from (suc attempts) nonce =
      let rest = mine_from attempts (nonce + 1) in if accepts nonce then some nonce else rest

  unfoldable pub mine_block : Option ℕ
  mine_block = mine_from max_attempts 0
