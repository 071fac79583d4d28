-- ===== src/Runtime/Apis/Presets.antt =====
-- The presets that the genesis builder API of runtime/src/apis.rs lists and answers.
use Prim.Native.String.{String}
use text.Mathlib.Text.{◌==◌}
use text.Mathlib.TextEquality.{eq_iff}
use ghost_blockchain.Base.{
  ℕ, ◌≡◌, ◌≢◌, Option, none, some, List, [], ◌∷◌, ◌⊎◌, inl, inr, refl, ◌∙◌, Bool-cases,
}
use ghost_blockchain.Runtime.Genesis.{
  GenesisConfig, get_preset, preset_of, preset_names, development_config_genesis,
  local_config_genesis,
}
use ghost_blockchain.Runtime.Validity.{
  IsValidGenesis, development-IsValidGenesis, local-IsValidGenesis,
}
use ghost_blockchain.Runtime.Apis.{Vocabulary, Frame}
use ghost_blockchain.Runtime.Apis.Functions.{get_genesis_preset, genesis_preset_names}

abbrev pub IsListed : String → List String → Type 0
IsListed id [] = ⊥
IsListed id (name ∷ names) = (id ≡ name) ⊎ IsListed id names

-- What the documentation of `genesis_builder_helper::get_preset` promises: without a name the
-- default configuration, with a name what the runtime's function gives for it.
pub record PresetLaws {v : Vocabulary} (frame : Frame v) : Type 0 where
  pub default_preset :
      (named : String → Option (List ℕ)) → frame.preset_or_default none named ≢ none
  pub named_preset :
      (id : String) (named : String → Option (List ℕ))
      → frame.preset_or_default (some id) named ≡ named id

module _ {v : Vocabulary} (frame : Frame v) where
  -- A listed name is answered by a configuration that the pallets accept, and no other name is.
  abbrev pub Answers : (id : Option String) → Option (List ℕ) → Type 0
  Answers none answer = answer ≢ none
  Answers (some id) answer =
      (IsListed id (genesis_preset_names v frame)
        × ((g : GenesisConfig) × IsValidGenesis g × (answer ≡ some (frame.to_vec g))))
      ⊎ ((¬ IsListed id (genesis_preset_names v frame)) × (answer ≡ none))

  -- If the helper for presets keeps its documented promises, then the genesis builder answers a
  -- request without a name; one with a listed name by a configuration that the pallets accept; and
  -- none with another name.
  pub get_genesis_preset-Answers :
      PresetLaws frame → (id : Option String) → Answers id (get_genesis_preset v frame id)
  unfolding get_genesis_preset genesis_preset_names get_preset preset_of preset_names
  get_genesis_preset-Answers laws none = laws.default_preset _
  get_genesis_preset-Answers laws (some id) = elim (Bool-cases (id == "dev")) [
    | inl dev ↦ inl (
      inl ((eq_iff id "dev").0 dev),
      (
        development_config_genesis,
        development-IsValidGenesis,
        laws.named_preset id _ ∙ rw dev refl,
      ),
    )
    | inr not_dev ↦ elim (Bool-cases (id == "local_testnet")) [
      | inl local ↦ inl (
        inr (inl ((eq_iff id "local_testnet").0 local)),
        (
          local_config_genesis,
          local-IsValidGenesis,
          laws.named_preset id _ ∙ rw (not_dev, local) refl,
        ),
      )
      | inr not_local ↦ inr (
        λ h. elim h [
          | inl e ↦ cc ((eq_iff id "dev").1 e, not_dev)
          | inr (inl e) ↦ cc ((eq_iff id "local_testnet").1 e, not_local)
          | inr (inr e) ↦ absurd e
        ],
        laws.named_preset id _ ∙ rw (not_dev, not_local) refl,
      )
    ]
  ]
