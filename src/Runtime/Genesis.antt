-- ===== src/Runtime/Genesis.antt =====
-- The genesis presets, runtime/src/genesis_config_presets.rs. A key stands for its 32 bytes, read
-- as one number, and serves as the account, Aura or GRANDPA id of its holder. The JSON text of a
-- configuration is a parameter.
use Prim.Native.String.{String}
use text.Mathlib.Text.{◌==◌}
use ghost_blockchain.Base.{ℕ, ◌^◌, Option, none, some, List, [], ◌∷◌, map, if◌then◌else◌}

abbrev pub alice_sr25519 : ℕ
alice_sr25519 = 95984986718144069210823521919159854647677841531438818243411586941956215644797

abbrev pub bob_sr25519 : ℕ
bob_sr25519 = 64537650910676903194884808167890357842127424151434415115486094409770940394056

abbrev pub alice_stash_sr25519 : ℕ
alice_stash_sr25519 = 86105270069271974552354324416687890631292163940478208555234964871786354561631

abbrev pub bob_stash_sr25519 : ℕ
bob_stash_sr25519 = 115066698379243587597584450971220974433986753453598697801589116268823851664910

abbrev pub charlie_sr25519 : ℕ
charlie_sr25519 = 65454030585790955025039223210066313907625941755569479813954585967499835473442

abbrev pub dave_sr25519 : ℕ
dave_sr25519 = 21893230630065264004524819801117869287932309189390413891405895653844263816224

abbrev pub eve_sr25519 : ℕ
eve_sr25519 = 104190361505486426271915632151721094233362383416462862810349840105908750049102

abbrev pub ferdie_sr25519 : ℕ
ferdie_sr25519 = 12999006249221749734140341165912084667026461127386274027053019298297077428348

abbrev pub alice_ed25519 : ℕ
alice_ed25519 = 61903613294898084251096903157290948003021015443112218737541941970231485706478

abbrev pub bob_ed25519 : ℕ
bob_ed25519 = 94752788207497393549296303313088247177717009513266529283328297461801617829481

-- The parts of the runtime's genesis configuration that the presets set.
pub record GenesisConfig : Type 0 where
  pub balances : List (ℕ × ℕ)
  pub aura_authorities : List ℕ
  pub grandpa_authorities : List (ℕ × ℕ)
  pub sudo_key : Option ℕ

abbrev pub genesis_balance : ℕ
genesis_balance = 2 ^ 60

unfoldable pub testnet_genesis :
    (initial_authorities : List (ℕ × ℕ)) (endowed_accounts : List ℕ) (root : ℕ) → GenesisConfig
testnet_genesis initial_authorities endowed_accounts root = record {
  balances = map (λ k. (k, genesis_balance)) endowed_accounts;
  aura_authorities = map (λ x. x.0) initial_authorities;
  grandpa_authorities = map (λ x. (x.1, 1)) initial_authorities;
  sudo_key = some root;
}

unfoldable pub development_config_genesis : GenesisConfig
unfolding testnet_genesis
development_config_genesis =
    testnet_genesis ((alice_sr25519, alice_ed25519) ∷ [])
      (alice_sr25519 ∷ bob_sr25519 ∷ alice_stash_sr25519 ∷ bob_stash_sr25519 ∷ []) alice_sr25519

unfoldable pub local_config_genesis : GenesisConfig
unfolding testnet_genesis
local_config_genesis =
    testnet_genesis ((alice_sr25519, alice_ed25519) ∷ (bob_sr25519, bob_ed25519) ∷ [])
      (alice_sr25519 ∷ bob_sr25519 ∷ alice_stash_sr25519 ∷ bob_stash_sr25519 ∷ charlie_sr25519
        ∷ dave_sr25519 ∷ eve_sr25519 ∷ ferdie_sr25519 ∷ [])
      alice_sr25519

-- The `match` of `get_preset`.
unfoldable pub preset_of : String → Option GenesisConfig
preset_of id =
    if id == "dev"
    then some development_config_genesis
    else if id == "local_testnet"
    then some local_config_genesis
    else none

abbrev pub written : (to_vec : GenesisConfig → List ℕ) → Option GenesisConfig → Option (List ℕ)
written to_vec none = none
written to_vec (some patch) = some (to_vec patch)

unfoldable pub get_preset : (to_vec : GenesisConfig → List ℕ) → String → Option (List ℕ)
unfolding preset_of
get_preset to_vec id = written to_vec (preset_of id)

unfoldable pub preset_names : List String
preset_names = "dev" ∷ "local_testnet" ∷ []
