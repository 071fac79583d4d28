-- ===== src/Node/ChainSpec/Presets.antt =====
-- The chains that the node knows by name start from presets of the runtime.
use Prim.Native.String.{String}
use text.Mathlib.Text.{◌==◌}
use text.Mathlib.TextEquality.{eq_iff}
use ghost_blockchain.Base.{
  ℕ, ◌≤◌, ◌≡◌, Option, none, some, List, ◌⊎◌, inl, inr, length, refl, arith, Bool-cases,
}
use ghost_blockchain.Runtime.Genesis.{
  GenesisConfig, preset_of, testnet_genesis, development_config_genesis, local_config_genesis,
}
use ghost_blockchain.Runtime.Validity.{
  IsValidGenesis, development-IsValidGenesis, local-IsValidGenesis,
}
use ghost_blockchain.Node.ChainSpec.{ChainSpec, development_chain_spec, local_chain_spec, load_spec}

-- The names of the chains that the node builds itself.
abbrev pub IsBuiltIn : String → Type 0
IsBuiltIn id = (id ≡ "dev") ⊎ ((id ≡ "") ⊎ (id ≡ "local"))

-- A chain with the Wasm of the runtime, from a preset that the runtime has and whose pallets accept
-- it, in which each authority has an Aura and a GRANDPA key, and there is one at least.
abbrev pub Starts : (wasm : List ℕ) → ChainSpec → Type 0
Starts wasm spec =
    (spec.code ≡ wasm)
    × ((g : GenesisConfig) × (preset_of spec.genesis_config_preset_name ≡ some g)
        × IsValidGenesis g
        × (1 ≤ length g.aura_authorities)
        × (length g.aura_authorities ≡ length g.grandpa_authorities))

-- A chain that is built from the Wasm, if there is one.
abbrev pub Built : (wasm : Option (List ℕ)) → String ⊎ ChainSpec → Type 0
Built wasm r =
    ((code : List ℕ) × (spec : ChainSpec) × (wasm ≡ some code) × (r ≡ inr spec) × Starts code spec)
    ⊎ ((e : String) × (wasm ≡ none) × (r ≡ inl e))

development-Built : (wasm : Option (List ℕ)) → Built wasm (development_chain_spec wasm)
unfolding development_chain_spec preset_of development_config_genesis testnet_genesis
development-Built none = inr (_, refl, refl)
development-Built (some code) = inl (
  code,
  _,
  refl,
  refl,
  (refl, (development_config_genesis, refl, development-IsValidGenesis, omega arith, refl)),
)

local-Built : (wasm : Option (List ℕ)) → Built wasm (local_chain_spec wasm)
unfolding local_chain_spec preset_of local_config_genesis testnet_genesis
local-Built none = inr (_, refl, refl)
local-Built (some code) = inl (
  code,
  _,
  refl,
  refl,
  (refl, (local_config_genesis, refl, local-IsValidGenesis, omega arith, refl)),
)

-- A built-in name gives a chain with the runtime's Wasm, or an error if the Wasm was not built. The
-- chain starts from a preset of the runtime with as many Aura as GRANDPA authorities, one at least,
-- which the pallets accept: the authorities fit in their bounds, the balances are of distinct
-- accounts, at least the existential deposit and add up in a `u128`, and the sudo account has one.
-- Any other name is read as a JSON file.
pub load_spec_cases :
    (wasm : Option (List ℕ)) (from_json_file : String → String ⊎ ChainSpec) (id : String)
    → (IsBuiltIn id × Built wasm (load_spec wasm from_json_file id))
      ⊎ ((¬ IsBuiltIn id) × (load_spec wasm from_json_file id ≡ from_json_file id))
unfolding load_spec
load_spec_cases wasm from_json_file id = elim (Bool-cases (id == "dev")) [
  | inl dev ↦ inl (inl ((eq_iff id "dev").0 dev), rw dev (development-Built wasm))
  | inr not_dev ↦ elim (Bool-cases (id == "")) [
    | inl empty ↦ inl (inr (inl ((eq_iff id "").0 empty)), rw (not_dev, empty) (local-Built wasm))
    | inr not_empty ↦ elim (Bool-cases (id == "local")) [
      | inl named ↦ inl (
        inr (inr ((eq_iff id "local").0 named)),
        rw (not_dev, not_empty, named) (local-Built wasm),
      )
      | inr not_local ↦ inr (
        λ h. elim h [
          | inl e ↦ cc ((eq_iff id "dev").1 e, not_dev)
          | inr (inl e) ↦ cc ((eq_iff id "").1 e, not_empty)
          | inr (inr e) ↦ cc ((eq_iff id "local").1 e, not_local)
        ],
        rw (not_dev, not_empty, not_local) refl,
      )
    ]
  ]
]
