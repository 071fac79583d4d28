-- ===== src/Tests/Apis.antt =====
-- A runtime of placeholders, whose genesis builder has the presets.
use Prim.Native.String.{String}
use ghost_blockchain.Base.{ℕ, ◌≡◌, Option, none, some, List, [], ◌∷◌, length, inr, refl}
use ghost_blockchain.Runtime.Genesis.{
  get_preset, preset_of, development_config_genesis, local_config_genesis, testnet_genesis,
}
use ghost_blockchain.Runtime.Apis.{Vocabulary, pure, Executive, Frame}
use ghost_blockchain.Runtime.Apis.Functions.{get_genesis_preset}
use ghost_blockchain.Runtime.Apis.Presets.{PresetLaws}

abbrev plain : Vocabulary
plain = record {
  Storage = ℕ;
  Block = Unit {0};
  Header = Unit {0};
  Extrinsic = Unit {0};
  ExtrinsicInclusionMode = Unit {0};
  ApplyExtrinsicResult = Unit {0};
  InherentData = Unit {0};
  CheckInherentsResult = Unit {0};
  TransactionSource = Unit {0};
  TransactionValidity = Unit {0};
  KeyTypeId = Unit {0};
  EquivocationProof = Unit {0};
  KeyOwnershipProof = Unit {0};
  RuntimeCall = Unit {0};
  RuntimeDispatchInfo = Unit {0};
  FeeDetails = Unit {0};
  Weight = ℕ;
  UpgradeCheckSelect = Unit {0};
  TryStateSelect = Unit {0};
  TryRuntimeError = Unit {0};
}

abbrev plain_executive : Executive plain
plain_executive = record {
  execute_block = λ block. pure plain tt;
  initialize_block = λ header. pure plain tt;
  apply_extrinsic = λ extrinsic. pure plain tt;
  finalize_block = pure plain tt;
  validate_transaction = λ source tx block_hash. pure plain tt;
  offchain_worker = λ header. pure plain tt;
  try_runtime_upgrade = λ checks. pure plain (inr 0);
  try_execute_block = λ block state_root_check signature_check select. pure plain (inr 0);
}

-- The default configuration is written as one byte.
abbrev preset_helper : Option String → (String → Option (List ℕ)) → Option (List ℕ)
preset_helper none named = some (0 ∷ [])
preset_helper (some id) named = named id

abbrev plain_frame : Frame plain
plain_frame = record {
  executive = plain_executive;
  metadata = [];
  metadata_at_version = λ version. none;
  metadata_versions = [];
  create_extrinsics = λ inherents. pure plain [];
  check_extrinsics = λ inherents block. pure plain tt;
  aura_authorities = λ s. [];
  generate = λ seed. pure plain [];
  decode_into_raw_public_keys = λ encoded. none;
  grandpa_authorities = λ s. [];
  current_set_id = λ s. 0;
  account_nonce = λ s account. 0;
  query_info = λ uxt len. pure plain tt;
  query_fee_details = λ uxt len. pure plain tt;
  query_call_info = λ call len. pure plain tt;
  query_call_fee_details = λ call len. pure plain tt;
  weight_to_fee = λ weight. pure plain weight;
  length_to_fee = λ len. pure plain len;
  max_block = 0;
  build_state = λ config. pure plain (inr tt);
  preset_or_default = preset_helper;
  to_vec = λ g. length g.balances ∷ [];
}

plain_presets : PresetLaws plain_frame
plain_presets = record { default_preset = λ named e. cc e; named_preset = λ id named. refl }

-- The presets endow 4 and 8 accounts.
test_presets :
    (get_genesis_preset plain plain_frame none ≡ some (0 ∷ []))
    × (get_genesis_preset plain plain_frame (some "dev") ≡ some (4 ∷ []))
    × (get_genesis_preset plain plain_frame (some "local_testnet") ≡ some (8 ∷ []))
    × (get_genesis_preset plain plain_frame (some "testnet") ≡ none)
unfolding get_genesis_preset get_preset preset_of development_config_genesis local_config_genesis
    testnet_genesis
test_presets = (refl, refl, refl, refl)
