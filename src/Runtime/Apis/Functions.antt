-- ===== src/Runtime/Apis/Functions.antt =====
-- The functions of `impl_runtime_apis!` in runtime/src/apis.rs, but for the benchmarks.
use Prim.Native.String.{String}
use ghost_blockchain.Base.{ℕ, Bool, Option, none, some, List, ◌⊎◌, inl, inr}
use ghost_blockchain.Runtime.Genesis.{get_preset, preset_names}
use ghost_blockchain.Runtime.Configs.{RuntimeVersion, version, aura_config}
use ghost_blockchain.Runtime.Apis.{Vocabulary, Call, pure, Frame}

-- `unwrap()`, which panics on an error.
abbrev unwrapped : {A E S : Type 0} → Option ((E ⊎ A) × S) → Option (A × S)
unwrapped none = none
unwrapped (some (inl e, s)) = none
unwrapped (some (inr a, s)) = some (a, s)

abbrev paired : {A B S : Type 0} → B → Option (A × S) → Option ((A × B) × S)
paired b none = none
paired b (some (a, s)) = some ((a, b), s)

module _ (v : Vocabulary) (frame : Frame v) where
  -- `impl sp_api::Core`
  abbrev pub core_version : RuntimeVersion
  core_version = version

  abbrev pub execute_block : v.Block → Call v (Unit {0})
  execute_block block = frame.executive.execute_block block

  abbrev pub initialize_block : v.Header → Call v v.ExtrinsicInclusionMode
  initialize_block header = frame.executive.initialize_block header

  -- `impl sp_api::Metadata`
  abbrev pub metadata : List ℕ
  metadata = frame.metadata

  abbrev pub metadata_at_version : ℕ → Option (List ℕ)
  metadata_at_version version = frame.metadata_at_version version

  abbrev pub metadata_versions : List ℕ
  metadata_versions = frame.metadata_versions

  -- `impl sp_block_builder::BlockBuilder`
  abbrev pub apply_extrinsic : v.Extrinsic → Call v v.ApplyExtrinsicResult
  apply_extrinsic extrinsic = frame.executive.apply_extrinsic extrinsic

  abbrev pub finalize_block : Call v v.Header
  finalize_block = frame.executive.finalize_block

  abbrev pub inherent_extrinsics : v.InherentData → Call v (List v.Extrinsic)
  inherent_extrinsics data' = frame.create_extrinsics data'

  abbrev pub check_inherents : v.Block → v.InherentData → Call v v.CheckInherentsResult
  check_inherents block data' = frame.check_extrinsics data' block

  -- `impl sp_transaction_pool::runtime_api::TaggedTransactionQueue`
  abbrev pub validate_transaction :
      v.TransactionSource → v.Extrinsic → (block_hash : List ℕ) → Call v v.TransactionValidity
  validate_transaction source tx block_hash =
      frame.executive.validate_transaction source tx block_hash

  -- `impl sp_offchain::OffchainWorkerApi`
  abbrev pub offchain_worker : v.Header → Call v (Unit {0})
  offchain_worker header = frame.executive.offchain_worker header

  -- `impl sp_consensus_aura::AuraApi`. The duration is in milliseconds.
  abbrev pub slot_duration : ℕ
  slot_duration = aura_config.slot_duration

  abbrev pub authorities : Call v (List ℕ)
  authorities s = pure v (frame.aura_authorities s) s

  -- `impl sp_session::SessionKeys`
  abbrev pub generate_session_keys : (seed : Option (List ℕ)) → Call v (List ℕ)
  generate_session_keys seed = frame.generate seed

  abbrev pub decode_session_keys : (encoded : List ℕ) → Option (List (List ℕ × v.KeyTypeId))
  decode_session_keys encoded = frame.decode_into_raw_public_keys encoded

  -- `impl sp_consensus_grandpa::GrandpaApi`
  abbrev pub grandpa_authorities : Call v (List (ℕ × ℕ))
  grandpa_authorities s = pure v (frame.grandpa_authorities s) s

  abbrev pub current_set_id : Call v ℕ
  current_set_id s = pure v (frame.current_set_id s) s

  abbrev pub submit_report_equivocation_unsigned_extrinsic :
      v.EquivocationProof → v.KeyOwnershipProof → Option (Unit {0})
  submit_report_equivocation_unsigned_extrinsic equivocation_proof key_owner_proof = none

  abbrev pub generate_key_ownership_proof : (set_id authority_id : ℕ) → Option v.KeyOwnershipProof
  generate_key_ownership_proof set_id authority_id = none

  -- `impl frame_system_rpc_runtime_api::AccountNonceApi`
  abbrev pub account_nonce : (account : ℕ) → Call v ℕ
  account_nonce account s = pure v (frame.account_nonce s account) s

  -- `impl pallet_transaction_payment_rpc_runtime_api::TransactionPaymentApi`
  abbrev pub query_info : v.Extrinsic → (len : ℕ) → Call v v.RuntimeDispatchInfo
  query_info uxt len = frame.query_info uxt len

  abbrev pub query_fee_details : v.Extrinsic → (len : ℕ) → Call v v.FeeDetails
  query_fee_details uxt len = frame.query_fee_details uxt len

  abbrev pub query_weight_to_fee : v.Weight → Call v ℕ
  query_weight_to_fee weight = frame.weight_to_fee weight

  abbrev pub query_length_to_fee : (length : ℕ) → Call v ℕ
  query_length_to_fee length = frame.length_to_fee length

  -- `impl pallet_transaction_payment_rpc_runtime_api::TransactionPaymentCallApi`
  abbrev pub query_call_info : v.RuntimeCall → (len : ℕ) → Call v v.RuntimeDispatchInfo
  query_call_info call len = frame.query_call_info call len

  abbrev pub query_call_fee_details : v.RuntimeCall → (len : ℕ) → Call v v.FeeDetails
  query_call_fee_details call len = frame.query_call_fee_details call len

  -- `impl frame_try_runtime::TryRuntime`
  abbrev pub on_runtime_upgrade : v.UpgradeCheckSelect → Call v (v.Weight × v.Weight)
  on_runtime_upgrade checks s =
      paired frame.max_block (unwrapped (frame.executive.try_runtime_upgrade checks s))

  abbrev pub try_execute_block :
      v.Block → (state_root_check signature_check : Bool) → v.TryStateSelect → Call v v.Weight
  try_execute_block block state_root_check signature_check select s =
      unwrapped (frame.executive.try_execute_block block state_root_check signature_check select s)

  -- `impl sp_genesis_builder::GenesisBuilder`
  abbrev pub build_state : (config : List ℕ) → Call v (String ⊎ Unit {0})
  build_state config = frame.build_state config

  unfoldable pub get_genesis_preset : (id : Option String) → Option (List ℕ)
  unfolding get_preset
  get_genesis_preset id = frame.preset_or_default id (get_preset frame.to_vec)

  unfoldable pub genesis_preset_names : List String
  unfolding preset_names
  genesis_preset_names = preset_names
