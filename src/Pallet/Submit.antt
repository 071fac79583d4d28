-- ===== src/Pallet/Submit.antt =====
-- `submit_block` of pallets/pallet-ghost-consensus/src/lib.rs.
pub mod Outcome
pub mod Window
use ghost_blockchain.Base.{
  ℕ, List, [], ◌∷◌, ◌++◌, length, drop, ltb, leb, if◌then◌else◌, checked_sub, lookup, insert,
}
use ghost_blockchain.Types.{GhostBlockHeader, ConsensusPhase, phase_eq, Event, Error, Origin}
use ghost_blockchain.Environment.{Environment}
use ghost_blockchain.State.{
  State, Action, ◌>>=◌, ◌>>◌, gets, modify, with_storage_layer, ensure, ok_or, ensure_signed,
  deposit_event,
}
use ghost_blockchain.Header.{validate_block_header}

-- The capacity of `BoundedVec<T::AccountId, ConstU32<100>>`.
abbrev pub window_size : ℕ
window_size = 100

-- `BoundedVec::try_push`, with its error ignored.
pub try_push : List ℕ → ℕ → List ℕ
try_push recent miner = if ltb (length recent) window_size then recent ++ miner ∷ [] else recent

-- The update of the recent block producers.
unfoldable pub push_recent : List ℕ → ℕ → List ℕ
unfolding try_push
push_recent recent miner =
    try_push (if leb window_size (length recent) then drop 1 recent else recent) miner

module _ {L : Type 0} (env : Environment L) where
  -- What is written once every check has passed.
  unfoldable pub record_block : (miner : ℕ) → GhostBlockHeader → State L → State L
  record_block miner header s = record s {
    block_headers = insert env.before header.number header s.block_headers;
    block_producers = insert env.before header.number miner s.block_producers;
    recent_block_producers = push_recent s.recent_block_producers miner;
    last_active_block = insert env.before miner header.number s.last_active_block;
    current_phase = ConsensusPhase.pos_validation;
  }

  unfoldable pub submit_block : Origin → GhostBlockHeader → Action L (Unit {0})
  submit_block origin header = with_storage_layer (do
    miner ← ensure_signed origin
    phase ← gets (λ s. s.current_phase)
    ensure (phase_eq phase ConsensusPhase.pow_mining) Error.invalid_phase_transition
    ensure (ltb 0 header.number) Error.invalid_block_number
    parent_number ← ok_or (checked_sub header.number 1) Error.invalid_block_number
    found ← gets (λ s. lookup parent_number s.block_headers)
    parent_header ← ok_or found Error.block_not_found
    validate_block_header env.hashing header parent_header
    modify (record_block miner header)
    deposit_event (Event.block_mined header.number miner header.nonce))
