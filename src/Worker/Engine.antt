-- ===== src/Worker/Engine.antt =====
-- The engine, the block import and the proposer of pallets/pallet-ghost-consensus/src/consensus.rs,
-- which share a client of any type.
use Prim.Native.String.{String}
use ghost_blockchain.Base.{ℕ}

-- `sp_consensus::ConsensusEngineVersion`, as the source calls its constructor.
pub record ConsensusEngineVersion : Type 0 where
  pub major : ℕ
  pub minor : ℕ
  pub patch : ℕ

-- What the source uses of `sp_consensus::ForkChoiceStrategy`.
pub data ForkChoiceStrategy : Type 0 where
  longest_chain : ForkChoiceStrategy

-- The struct, its trait's methods below.
pub record GhostConsensusEngine (C : Type 0) : Type 0 where
  pub client : C

pub record GhostBlockImport (C : Type 0) : Type 0 where
  pub client : C

pub record GhostProposer (C : Type 0) : Type 0 where
  pub client : C

module _ {C : Type 0} where
  -- `GhostConsensusEngine::new`
  abbrev pub new_engine : C → GhostConsensusEngine C
  new_engine client = record { client = client }

  -- `GhostBlockImport::new`
  abbrev pub new_block_import : C → GhostBlockImport C
  new_block_import client = record { client = client }

  -- `GhostProposer::new`
  abbrev pub new_proposer : C → GhostProposer C
  new_proposer client = record { client = client }

  abbrev pub name : GhostConsensusEngine C → String
  name engine = "GhostConsensus"

  abbrev pub engine_version : GhostConsensusEngine C → ConsensusEngineVersion
  engine_version engine = record { major = 1; minor = 0; patch = 0 }

  abbrev pub fork_choice_strategy : GhostConsensusEngine C → ForkChoiceStrategy
  fork_choice_strategy engine = ForkChoiceStrategy.longest_chain

  abbrev pub block_import : GhostConsensusEngine C → GhostBlockImport C
  block_import engine = new_block_import engine.client
