-- ===== src/Runtime.antt =====
-- The constants of the runtime, runtime/src/lib.rs, and its configuration of the consensus pallet,
-- runtime/src/configs/mod.rs; in child modules the other pallets and the genesis presets.
pub mod Genesis
pub mod Laws
pub mod Configs
pub mod Validity
pub mod Apis
use ghost_blockchain.Base.{ℕ, ◌*◌, ◌/◌, false}
use ghost_blockchain.Environment.{Config}

-- `mod block_times`
abbrev pub milli_secs_per_block : ℕ
milli_secs_per_block = 5000

abbrev pub slot_duration : ℕ
slot_duration = milli_secs_per_block

abbrev pub minutes : ℕ
minutes = 60000 / milli_secs_per_block

abbrev pub hours : ℕ
hours = minutes * 60

abbrev pub days : ℕ
days = hours * 24

abbrev pub block_hash_count : ℕ
block_hash_count = 2400

abbrev pub unit : ℕ
unit = 1000000000000

abbrev pub milli_unit : ℕ
milli_unit = 1000000000

abbrev pub micro_unit : ℕ
micro_unit = 1000000

abbrev pub existential_deposit : ℕ
existential_deposit = milli_unit

-- `impl pallet_ghost_consensus::Config for Runtime`
abbrev pub runtime_config : Config
runtime_config = record {
  block_reward = 10000000000000;
  min_stake = 1000000000000;
  max_downtime_blocks = 100;
  double_sign_slash_percentage = 100;
  invalid_block_slash_percentage = 50;
  downtime_slash_percentage = 10;
  pqc_required = false;
}
