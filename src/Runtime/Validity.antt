-- ===== src/Runtime/Validity.antt =====
-- The presets are genesis configurations that the runtime's pallets accept.
use ghost_blockchain.Base.{
  ℕ, ◌≤◌, ◌≡◌, ◌≢◌, Option, none, some, List, [], ◌∷◌, ◌⊎◌, inl, length, refl, arith, u128_max,
}
use ghost_blockchain.Runtime.Genesis.{
  GenesisConfig, testnet_genesis, development_config_genesis, local_config_genesis,
}
use ghost_blockchain.Runtime.Laws.{issued}
use ghost_blockchain.Runtime.Configs.{aura_config, grandpa_config, balances_config}

-- Every account gets at least a deposit, and none stands twice.
abbrev pub IsAbove : (deposit : ℕ) → List (ℕ × ℕ) → Type 0
IsAbove deposit [] = Unit
IsAbove deposit ((_, v) ∷ m) = (deposit ≤ v) × IsAbove deposit m

abbrev pub IsFresh : ℕ → List (ℕ × ℕ) → Type 0
IsFresh who [] = Unit
IsFresh who ((j, _) ∷ m) = (who ≢ j) × IsFresh who m

abbrev pub IsDistinct : List (ℕ × ℕ) → Type 0
IsDistinct [] = Unit
IsDistinct ((who, _) ∷ m) = IsFresh who m × IsDistinct m

-- An account has a balance.
abbrev pub IsEndowed : Option ℕ → List (ℕ × ℕ) → Type 0
IsEndowed none m = ⊥
IsEndowed (some who) [] = ⊥
IsEndowed (some who) ((j, _) ∷ m) = (who ≡ j) ⊎ IsEndowed (some who) m

-- What the pallets assert of a genesis configuration, so that its build does not panic: balances
-- are at least the existential deposit, of distinct accounts, and add up in a `u128`, and the
-- authorities fit in their bounds. The key of the sudo pallet can pay for a call.
pub record IsValidGenesis (g : GenesisConfig) : Type 0 where
  pub above : IsAbove balances_config.existential_deposit g.balances
  pub distinct : IsDistinct g.balances
  pub fits : issued g.balances ≤ u128_max
  pub aura_fits : length g.aura_authorities ≤ aura_config.max_authorities
  pub grandpa_fits : length g.grandpa_authorities ≤ grandpa_config.max_authorities
  pub sudo_endowed : IsEndowed g.sudo_key g.balances

pub development-IsValidGenesis : IsValidGenesis development_config_genesis
unfolding development_config_genesis testnet_genesis
development-IsValidGenesis = record {
  above = ground arith;
  distinct = ground arith;
  fits = omega arith;
  aura_fits = omega arith;
  grandpa_fits = omega arith;
  sudo_endowed = inl refl;
}

pub local-IsValidGenesis : IsValidGenesis local_config_genesis
unfolding local_config_genesis testnet_genesis
local-IsValidGenesis = record {
  above = ground arith;
  distinct = ground arith;
  fits = omega arith;
  aura_fits = omega arith;
  grandpa_fits = omega arith;
  sudo_endowed = inl refl;
}
