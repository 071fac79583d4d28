-- ===== src/Mock.antt =====
-- The mock runtime of the pallet's unit tests, pallets/pallet-ghost-consensus/src/mock.rs. The
-- hashes of its headers and the storage that a genesis of balances builds are parameters.
use ghost_blockchain.Base.{ℕ, ◌-◌, true, none, List, [], ◌∷◌, ◌==◌, if◌then◌else◌}
use ghost_blockchain.Types.{GhostBlockHeader, ConsensusPhase, H256}
use ghost_blockchain.Environment.{Config}
use ghost_blockchain.State.{State}

-- `impl pallet_ghost_consensus::Config for Test`
abbrev pub mock_config : Config
mock_config = record {
  block_reward = 10_000_000_000_000_000_000;
  min_stake = 1_000_000_000_000_000_000;
  max_downtime_blocks = 100;
  double_sign_slash_percentage = 100;
  invalid_block_slash_percentage = 50;
  downtime_slash_percentage = 10;
  pqc_required = true;
}

-- `pallet_balances::Config::ExistentialDeposit`
abbrev pub mock_existential_deposit : ℕ
mock_existential_deposit = 1

abbrev pub genesis_balances : List (ℕ × ℕ)
genesis_balances =
    (1, 100_000_000_000_000_000_000)
    ∷ (2, 100_000_000_000_000_000_000)
    ∷ (3, 100_000_000_000_000_000_000)
    ∷ (4, 50_000_000_000_000_000_000)
    ∷ (5, 25_000_000_000_000_000_000)
    ∷ []

-- `ExtBuilder::build`: the storage items at their defaults, but for the two that it puts.
abbrev pub build : {L : Type 0} → (assimilate_storage : List (ℕ × ℕ) → L) → State L
build assimilate_storage = record {
  difficulty = 1_000_000_000_000;
  current_phase = ConsensusPhase.pow_mining;
  block_headers = [];
  block_producers = [];
  validator_stakes = [];
  last_active_block = [];
  double_sign_reports = [];
  invalid_block_reports = [];
  slashing_records = [];
  validator_pqc_public_keys = [];
  recent_block_producers = [];
  current_entropy = 0;
  block_number = 0;
  events = [];
  ledger = assimilate_storage genesis_balances;
}

-- `BlakeTwo256::hash_of` at what the helper hashes: a number, and a number with a word.
pub record MockHashing : Type 0 where
  pub zero_hash : H256
  pub hash_of_number : ℕ → H256
  pub hash_of_state : ℕ → H256
  pub hash_of_extrinsics : ℕ → H256

abbrev pub create_block_header : MockHashing → (number nonce : ℕ) → GhostBlockHeader
create_block_header hs number nonce = record {
  number = number;
  parent_hash = if number == 0 then hs.zero_hash else hs.hash_of_number (number - 1);
  state_root = hs.hash_of_state number;
  extrinsics_root = hs.hash_of_extrinsics number;
  nonce = nonce;
  difficulty = 1_000_000_000_000;
  validator_signature = none;
  pqc_signature = none;
}
