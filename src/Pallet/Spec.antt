-- ===== src/Pallet/Spec.antt =====
-- What the consensus pallet promises, without its storage: an abstract machine on functions, which
-- knows no order of entries, no window, no ledger and no wrap-around.
pub mod Refinement
use ghost_blockchain.Base.{
  ℕ, ◌+◌, ◌-◌, ◌≤◌, ◌<◌, ◌≡◌, ◌≢◌, Option, none, some, List, [], ◌∷◌, ◌++◌, ◌==◌, if◌then◌else◌,
  get_or,
}
use ghost_blockchain.Types.{GhostBlockHeader, ConsensusPhase}

-- The abstract state: the headers, producers and stakes by their keys, and the miners of all blocks
-- in order.
pub record View : Type 0 where
  pub phase : ConsensusPhase
  pub header : ℕ → Option GhostBlockHeader
  pub producer : ℕ → Option ℕ
  pub stake : ℕ → Option ℕ
  pub history : List ℕ

abbrev pub set : {A : Type 0} → (ℕ → Option A) → ℕ → A → ℕ → Option A
set f k v j = if j == k then some v else f j

abbrev pub amount_of : View → ℕ → ℕ
amount_of a who = get_or (a.stake who) 0

-- The header of a block that a validator has signed: only the two signatures differ.
pub record IsSigned (header signed : GhostBlockHeader) : Type 0 where
  pub same_number : signed.number ≡ header.number
  pub same_parent : signed.parent_hash ≡ header.parent_hash
  pub same_state : signed.state_root ≡ header.state_root
  pub same_extrinsics : signed.extrinsics_root ≡ header.extrinsics_root
  pub same_nonce : signed.nonce ≡ header.nonce
  pub same_difficulty : signed.difficulty ≡ header.difficulty
  pub has_signature : signed.validator_signature ≢ none
  pub has_pqc_signature : signed.pqc_signature ≢ none

-- The moves of the protocol.
pub data Move (a b : View) : Type 0 where
  -- A block is mined on a parent, in the mining phase.
  mines :
      (miner : ℕ) (header parent : GhostBlockHeader)
      → a.phase ≡ ConsensusPhase.pow_mining
      → 0 < header.number
      → a.header (header.number - 1) ≡ some parent
      → b ≡ record a {
        phase = ConsensusPhase.pos_validation;
        header = set a.header header.number header;
        producer = set a.producer header.number miner;
        history = a.history ++ miner ∷ [];
      }
      → Move a b
  -- A staker signs a stored block that somebody mined, in the validation phase.
  signs :
      (validator block_number : ℕ) (header signed : GhostBlockHeader)
      → a.phase ≡ ConsensusPhase.pos_validation
      → a.stake validator ≢ none
      → a.header block_number ≡ some header
      → a.producer block_number ≢ none
      → IsSigned header signed
      → b ≡ record a {
        phase = ConsensusPhase.finalization;
        header = set a.header block_number signed;
      }
      → Move a b
  -- A stake grows by the amount.
  deposits :
      (who amount : ℕ)
      → b ≡ record a { stake = set a.stake who (amount_of a who + amount) }
      → Move a b
  -- A stake shrinks by an amount that it covers.
  withdraws :
      (who amount : ℕ)
      → amount ≤ amount_of a who
      → b ≡ record a { stake = set a.stake who (amount_of a who - amount) }
      → Move a b
  -- A report cuts one stake, and no other.
  cuts :
      (who left : ℕ)
      → left ≤ amount_of a who
      → b ≡ record a { stake = set a.stake who left }
      → Move a b
  -- The start of a block raises no stake, and makes or removes no staker.
  ages :
      (stake : ℕ → Option ℕ)
      → ((who : ℕ) → get_or (stake who) 0 ≤ amount_of a who)
      → ((who : ℕ) → a.stake who ≡ none → stake who ≡ none)
      → ((who : ℕ) → stake who ≡ none → a.stake who ≡ none)
      → b ≡ record a { stake = stake }
      → Move a b
  -- The end of a block closes a finished round.
  closes :
      a.phase ≡ ConsensusPhase.finalization
      → b ≡ record a { phase = ConsensusPhase.pow_mining }
      → Move a b
  rests : b ≡ a → Move a b

pub data Moves (a : View) : View → Type 0 where
  none_yet : Moves a a
  then' : {b c : View} → Moves a b → Move b c → Moves a c
