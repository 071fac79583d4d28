-- ===== src/Node/ChainSpec.antt =====
-- The chain specifications, node/src/chain_spec.rs, and `load_spec` of node/src/command.rs. The
-- runtime's Wasm, if it was built, and the reader of a JSON file are parameters.
pub mod Presets
use Prim.Native.String.{String}
use text.Mathlib.Text.{◌==◌}
use ghost_blockchain.Base.{ℕ, Option, none, some, List, ◌⊎◌, inl, inr, if◌then◌else◌, Bool, ◌||◌}

pub data ChainType : Type 0 where
  development local : ChainType

-- What the builder of `ChainSpec` is given.
pub record ChainSpec : Type 0 where
  pub code : List ℕ
  pub name : String
  pub id : String
  pub chain_type : ChainType
  pub genesis_config_preset_name : String

abbrev pub build_spec_on :
    Option (List ℕ) → (name id : String) → ChainType → (preset : String) → String ⊎ ChainSpec
build_spec_on none name id chain_type preset = inl "Development wasm not available"
build_spec_on (some wasm) name id chain_type preset = inr (record {
  code = wasm;
  name = name;
  id = id;
  chain_type = chain_type;
  genesis_config_preset_name = preset;
})

unfoldable pub development_chain_spec : (wasm : Option (List ℕ)) → String ⊎ ChainSpec
development_chain_spec wasm =
    build_spec_on wasm "Ghost Development" "ghost-dev" ChainType.development "dev"

unfoldable pub local_chain_spec : (wasm : Option (List ℕ)) → String ⊎ ChainSpec
local_chain_spec wasm =
    build_spec_on wasm "Ghost Local Testnet" "ghost-local" ChainType.local "local_testnet"

unfoldable pub load_spec :
    (wasm : Option (List ℕ)) (from_json_file : String → String ⊎ ChainSpec) (id : String)
    → String ⊎ ChainSpec
unfolding development_chain_spec local_chain_spec
load_spec wasm from_json_file id =
    if id == "dev"
    then development_chain_spec wasm
    else if (id == "") || (id == "local")
    then local_chain_spec wasm
    else from_json_file id

-- What `SubstrateCli` reports. The version comes from the build's environment.
pub record SubstrateCli : Type 0 where
  pub impl_name : String
  pub impl_version : String
  pub description : String
  pub author : String
  pub support_url : String
  pub copyright_start_year : ℕ

abbrev pub substrate_cli : (substrate_cli_impl_version : String) → SubstrateCli
substrate_cli substrate_cli_impl_version = record {
  impl_name = "Ghost Node";
  impl_version = substrate_cli_impl_version;
  description = "Ghost blockchain node";
  author = "Ghost Blockchain Team";
  support_url = "https://github.com/devnull37/ghost-blockchain";
  copyright_start_year = 2025;
}
