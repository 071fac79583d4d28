-- ===== src/Types.antt =====
-- The data of the consensus pallet: pallets/pallet-ghost-consensus/src/types.rs, and the errors and
-- events of its lib.rs. An account, a balance and a block number are numbers; a hash, a key and a
-- signature are their bytes.
use ghost_blockchain.Base.{ℕ, Option, List, Bool, true, false, ◌&&◌, ◌==◌, [], ◌∷◌}

abbrev pub H256 : Type 0
H256 = List ℕ

-- Equality of byte strings.
abbrev pub bytes_eq : List ℕ → List ℕ → Bool
bytes_eq [] [] = true
bytes_eq [] (_ ∷ _) = false
bytes_eq (_ ∷ _) [] = false
bytes_eq (a ∷ as') (b ∷ bs) = (a == b) && bytes_eq as' bs

-- `struct PqcSignature(pub [u8; 4627])`
pub record PqcSignature : Type 0 where
  pub bytes : List ℕ

-- `struct GhostBlockHeader`
pub record GhostBlockHeader : Type 0 where
  pub number : ℕ
  pub parent_hash : H256
  pub state_root : H256
  pub extrinsics_root : H256
  pub nonce : ℕ
  pub difficulty : ℕ
  pub validator_signature : Option H256
  pub pqc_signature : Option PqcSignature

-- The tuple that the proof of work hashes: the header without its difficulty and signatures.
pub record PowInput : Type 0 where
  pub number : ℕ
  pub parent_hash : H256
  pub state_root : H256
  pub extrinsics_root : H256
  pub nonce : ℕ

-- `struct ValidatorStake`
pub record ValidatorStake : Type 0 where
  pub account : ℕ
  pub stake : ℕ
  pub weight : ℕ

-- `struct PosSelection`
pub record PosSelection : Type 0 where
  pub validator : ℕ
  pub weight : ℕ
  pub round : ℕ

-- `struct BlockReward`
pub record BlockReward : Type 0 where
  pub total : ℕ
  pub miner_reward : ℕ
  pub stakers_reward : ℕ

-- `enum ConsensusPhase`
pub data ConsensusPhase : Type 0 where
  pow_mining pos_validation finalization : ConsensusPhase

-- `==` on phases.
abbrev pub phase_eq : ConsensusPhase → ConsensusPhase → Bool
phase_eq ConsensusPhase.pow_mining ConsensusPhase.pow_mining = true
phase_eq ConsensusPhase.pos_validation ConsensusPhase.pos_validation = true
phase_eq ConsensusPhase.finalization ConsensusPhase.finalization = true
phase_eq _ _ = false

pub phase_discrete : Discrete ConsensusPhase
phase_discrete = hlevel

-- `enum SlashingReason`
pub data SlashingReason : Type 0 where
  double_signing invalid_block downtime other : SlashingReason

-- An entry of `SlashingRecords`.
pub record SlashingRecord : Type 0 where
  pub validator : ℕ
  pub reason : SlashingReason
  pub amount : ℕ
  pub block : ℕ

-- `enum Event`
pub data Event : Type 0 where
  block_mined : (block_number miner nonce : ℕ) → Event
  validator_selected : (validator weight : ℕ) → Event
  rewards_distributed : (miner miner_reward stakers_reward : ℕ) → Event
  validator_slashed : (validator : ℕ) (reason : SlashingReason) (amount : ℕ) → Event
  difficulty_adjusted : (old_difficulty new_difficulty : ℕ) → Event

-- `enum Error`
pub data Error : Type 0 where
  invalid_block_number invalid_parent_hash invalid_pow difficulty_too_low : Error
  difficulty_too_high insufficient_stake not_a_validator block_not_found : Error
  invalid_phase_transition invalid_pqc_signature pqc_public_key_not_found : Error

-- `DispatchError`: an error of this pallet, a bad origin, or an error of the balances pallet.
pub data DispatchError : Type 0 where
  module_error : Error → DispatchError
  bad_origin : DispatchError
  currency_error : ℕ → DispatchError

-- `enum RawOrigin`
pub data Origin : Type 0 where
  root none_origin : Origin
  signed : ℕ → Origin

-- `struct DifficultyAdjustment`, which no code uses.
pub record DifficultyAdjustment : Type 0 where
  pub current : ℕ
  pub target_block_time : ℕ
  pub adjustment_factor : ℕ

-- `struct PowResult`, which no code uses.
pub record PowResult : Type 0 where
  pub nonce : ℕ
  pub hash : H256
  pub difficulty : ℕ

-- `enum BlockValidationStatus`, which no code uses.
pub data BlockValidationStatus : Type 0 where
  valid invalid pending : BlockValidationStatus
