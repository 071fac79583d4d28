-- ===== src/Runtime/Apis.antt =====
-- What the runtime APIs of runtime/src/apis.rs are built over: the pallets of the Substrate SDK,
-- the executive and the genesis helpers. A call reads and writes the storage, or panics.
pub mod Functions
pub mod Presets
use Prim.Native.String.{String}
use ghost_blockchain.Base.{ℕ, Bool, Option, some, List, ◌⊎◌}
use ghost_blockchain.Runtime.Genesis.{GenesisConfig}

-- The types of other crates that pass through.
pub record Vocabulary : Type 1 where
  pub Storage : Type 0
  pub Block : Type 0
  pub Header : Type 0
  pub Extrinsic : Type 0
  pub ExtrinsicInclusionMode : Type 0
  pub ApplyExtrinsicResult : Type 0
  pub InherentData : Type 0
  pub CheckInherentsResult : Type 0
  pub TransactionSource : Type 0
  pub TransactionValidity : Type 0
  pub KeyTypeId : Type 0
  pub EquivocationProof : Type 0
  pub KeyOwnershipProof : Type 0
  pub RuntimeCall : Type 0
  pub RuntimeDispatchInfo : Type 0
  pub FeeDetails : Type 0
  pub Weight : Type 0
  pub UpgradeCheckSelect : Type 0
  pub TryStateSelect : Type 0
  pub TryRuntimeError : Type 0

abbrev pub Call : Vocabulary → Type 0 → Type 0
Call v A = v.Storage → Option (A × v.Storage)

abbrev pub pure : {A : Type 0} → (v : Vocabulary) → A → Call v A
pure v a s = some (a, s)

-- `frame_executive::Executive`
pub record Executive (v : Vocabulary) : Type 0 where
  pub execute_block : v.Block → Call v (Unit {0})
  pub initialize_block : v.Header → Call v v.ExtrinsicInclusionMode
  pub apply_extrinsic : v.Extrinsic → Call v v.ApplyExtrinsicResult
  pub finalize_block : Call v v.Header
  pub validate_transaction :
      v.TransactionSource → v.Extrinsic → (block_hash : List ℕ) → Call v v.TransactionValidity
  pub offchain_worker : v.Header → Call v (Unit {0})
  pub try_runtime_upgrade : v.UpgradeCheckSelect → Call v (v.TryRuntimeError ⊎ v.Weight)
  pub try_execute_block :
      v.Block
      → (state_root_check signature_check : Bool) → v.TryStateSelect
      → Call v (v.TryRuntimeError ⊎ v.Weight)

-- The pallets and helpers that the APIs call.
pub record Frame (v : Vocabulary) : Type 0 where
  pub executive : Executive v
  pub metadata : List ℕ
  pub metadata_at_version : ℕ → Option (List ℕ)
  pub metadata_versions : List ℕ
  pub create_extrinsics : v.InherentData → Call v (List v.Extrinsic)
  pub check_extrinsics : v.InherentData → v.Block → Call v v.CheckInherentsResult
  pub aura_authorities : v.Storage → List ℕ
  pub generate : (seed : Option (List ℕ)) → Call v (List ℕ)
  pub decode_into_raw_public_keys : List ℕ → Option (List (List ℕ × v.KeyTypeId))
  pub grandpa_authorities : v.Storage → List (ℕ × ℕ)
  pub current_set_id : v.Storage → ℕ
  pub account_nonce : v.Storage → ℕ → ℕ
  pub query_info : v.Extrinsic → (len : ℕ) → Call v v.RuntimeDispatchInfo
  pub query_fee_details : v.Extrinsic → (len : ℕ) → Call v v.FeeDetails
  pub query_call_info : v.RuntimeCall → (len : ℕ) → Call v v.RuntimeDispatchInfo
  pub query_call_fee_details : v.RuntimeCall → (len : ℕ) → Call v v.FeeDetails
  pub weight_to_fee : v.Weight → Call v ℕ
  pub length_to_fee : ℕ → Call v ℕ
  pub max_block : v.Weight
  -- `genesis_builder_helper::build_state` and `get_preset`
  pub build_state : List ℕ → Call v (String ⊎ Unit {0})
  pub preset_or_default : Option String → (String → Option (List ℕ)) → Option (List ℕ)
  pub to_vec : GenesisConfig → List ℕ
