-- ===== src/Runtime/Configs.antt =====
-- The configuration of the other pallets, runtime/src/configs/mod.rs, and the version, the pallets
-- and their indices, runtime/src/lib.rs.
use Prim.Native.String.{String}
use ghost_blockchain.Base.{ℕ, ◌*◌, ◌/◌, Bool, false, List, [], ◌∷◌}
use ghost_blockchain.Runtime.{slot_duration, existential_deposit}

-- `VERSION`, without the list of the runtime APIs.
pub record RuntimeVersion : Type 0 where
  pub spec_name : String
  pub impl_name : String
  pub authoring_version : ℕ
  pub spec_version : ℕ
  pub impl_version : ℕ
  pub transaction_version : ℕ
  pub state_version : ℕ

abbrev pub version : RuntimeVersion
version = record {
  spec_name = "ghost-runtime";
  impl_name = "ghost-runtime";
  authoring_version = 1;
  spec_version = 100;
  impl_version = 1;
  transaction_version = 1;
  state_version = 1;
}

-- `frame_system::Config`. The block weight is in seconds of compute, the ratio in per cent, the
-- length in bytes.
pub record SystemConfig : Type 0 where
  pub max_block_seconds : ℕ
  pub normal_dispatch_ratio : ℕ
  pub max_block_length : ℕ
  pub block_hash_count : ℕ
  pub ss58_prefix : ℕ
  pub max_consumers : ℕ

abbrev pub system_config : SystemConfig
system_config = record {
  max_block_seconds = 2;
  normal_dispatch_ratio = 75;
  max_block_length = 5 * 1024 * 1024;
  block_hash_count = 2400;
  ss58_prefix = 42;
  max_consumers = 16;
}

-- `pallet_timestamp::Config`
abbrev pub minimum_period : ℕ
minimum_period = slot_duration / 2

-- `pallet_aura::Config`. `MinimumPeriodTimesTwo` doubles the period of the timestamp pallet.
pub record AuraConfig : Type 0 where
  pub max_authorities : ℕ
  pub allow_multiple_blocks_per_slot : Bool
  pub slot_duration : ℕ

abbrev pub aura_config : AuraConfig
aura_config = record {
  max_authorities = 32;
  allow_multiple_blocks_per_slot = false;
  slot_duration = minimum_period * 2;
}

-- `pallet_grandpa::Config`
pub record GrandpaConfig : Type 0 where
  pub max_authorities : ℕ
  pub max_nominators : ℕ
  pub max_set_id_session_entries : ℕ

abbrev pub grandpa_config : GrandpaConfig
grandpa_config = record { max_authorities = 32; max_nominators = 0; max_set_id_session_entries = 0 }

-- `pallet_balances::Config`
pub record BalancesConfig : Type 0 where
  pub max_locks : ℕ
  pub existential_deposit : ℕ

abbrev pub balances_config : BalancesConfig
balances_config = record { max_locks = 50; existential_deposit = existential_deposit }

-- The pallets of the runtime with their indices.
abbrev pub pallets : List (ℕ × String)
pallets =
    (0, "System")
    ∷ (1, "Timestamp")
    ∷ (2, "Aura")
    ∷ (3, "Grandpa")
    ∷ (4, "Balances")
    ∷ (5, "TransactionPayment")
    ∷ (6, "Sudo")
    ∷ (7, "Template")
    ∷ (8, "GhostConsensus")
    ∷ []
