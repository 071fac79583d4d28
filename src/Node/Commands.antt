-- ===== src/Node/Commands.antt =====
-- The informational commands of the node: `enum GhostCommands` of node/src/cli.rs and
-- `handle_ghost_command` of node/src/command.rs. What is printed is a list of lines of texts,
-- numbers, a hash rate and a time; how a float is printed is left out, and so is the invisible
-- variation selector behind a warning sign.
pub mod Mining
use Prim.Native.String.{String}
use ghost_blockchain.Base.{
  ℕ, zero, suc, ◌/◌, Option, none, some, List, [], ◌∷◌, ◌++◌, Bool, if◌then◌else◌, get_or, u64_max,
}
use ghost_blockchain.Types.{H256}
use ghost_blockchain.Miner.{Miner, new_miner, MiningBlockHeader, MiningStats}

-- `enum GhostCommands`
pub data GhostCommands : Type 0 where
  mine : (threads : ℕ) (difficulty : Option ℕ) → GhostCommands
  stake unstake : (amount : ℕ) (account : Option String) → GhostCommands
  balance : (account : Option String) → GhostCommands
  status : (detailed : Bool) → GhostCommands
  validators : (active_only : Bool) → GhostCommands

-- A printed line, by its pieces.
pub data Piece (F : Type 0) : Type 0 where
  text : String → Piece F
  number : ℕ → Piece F
  rate : F → Piece F
  seconds : ℕ → Piece F

abbrev pub Lines : Type 0 → Type 0
Lines F = List (List (Piece F))

-- `H256::zero()` and `H256::from_low_u64_be` of a number below 256.
abbrev pub repeat_zero : ℕ → List ℕ
repeat_zero zero = []
repeat_zero (suc n) = 0 ∷ repeat_zero n

abbrev pub low_byte : ℕ → H256
low_byte b = repeat_zero 31 ++ b ∷ []

abbrev pub default_difficulty : ℕ
default_difficulty = u64_max / 1000000

-- The header that the mining command makes up.
abbrev pub sample_header : (target_difficulty : ℕ) → MiningBlockHeader
sample_header target_difficulty = record {
  number = 1;
  parent_hash = low_byte 0;
  state_root = low_byte 1;
  extrinsics_root = low_byte 2;
  difficulty = target_difficulty;
}

module _ {F : Type 0} where
  -- The `match` on what the miner returns.
  unfoldable pub mining_report : Option (ℕ × MiningStats F) → Lines F
  mining_report (some (nonce, stats)) =
      (text "\n📦 Local mining result:" ∷ [])
      ∷ (text "   Use this nonce: " ∷ number nonce ∷ [])
      ∷ (text "   Hashes computed: " ∷ number stats.hashes_computed ∷ [])
      ∷ (text "   Blocks found: " ∷ number stats.blocks_found ∷ [])
      ∷ (text "   Hash rate: " ∷ rate stats.hash_rate ∷ text " H/s" ∷ [])
      ∷ (text "   Time elapsed: " ∷ seconds stats.elapsed_time ∷ text "s" ∷ [])
      ∷ (text "   This build does not wire the miner into live block submission yet." ∷ [])
      ∷ []
  mining_report none = (text "\n⚠  Local mining was interrupted or failed" ∷ []) ∷ []

  pub account_line : Option String → Lines F
  account_line (some acc) = (text "   Account: " ∷ text acc ∷ []) ∷ []
  account_line none = (text "   Using default account (Alice)" ∷ []) ∷ []

  pub stake_preview : (amount : ℕ) (account : Option String) → Lines F
  unfolding account_line
  stake_preview amount account =
      ((text "🔒 Staking call preview..." ∷ [])
        ∷ (text "   Amount: " ∷ number amount ∷ text " Ghost tokens" ∷ [])
        ∷ [])
      ++ account_line account
      ++ ((text "   Minimum stake: 1 Ghost token" ∷ [])
          ∷ (text "\n📝 The pallet prototype defines stake handling," ∷ [])
          ∷ (text "   but the node does not expose a live staking extrinsic flow yet." ∷ [])
          ∷ [])

  pub unstake_preview : (amount : ℕ) (account : Option String) → Lines F
  unfolding account_line
  unstake_preview amount account =
      ((text "🔓 Unstaking call preview..." ∷ [])
        ∷ (text "   Amount: " ∷ number amount ∷ text " Ghost tokens" ∷ [])
        ∷ [])
      ++ account_line account
      ++ ((text "\n📝 The pallet prototype defines unstake handling," ∷ [])
          ∷ (text "   but the node does not expose a live unstaking extrinsic flow yet." ∷ [])
          ∷ [])

  pub balance_lines : Option String → Lines F
  balance_lines (some acc) = (text "   Account: " ∷ text acc ∷ []) ∷ []
  balance_lines none =
      (text "   Showing default development accounts:" ∷ [])
      ∷ (text "\n   Alice:" ∷ [])
      ∷ (text "      Address: 5GrwvaEF5zXb26Fz9rcQpDWS57CtERHpNehXCPcNoHGKutQY" ∷ [])
      ∷ (text "      Balance: 100 Ghost tokens (genesis)" ∷ [])
      ∷ (text "\n   Bob:" ∷ [])
      ∷ (text "      Address: 5FHneW46xGXgs5mUiveU4sbTyGBzmstUspZC92UhjJM694ty" ∷ [])
      ∷ (text "      Balance: 100 Ghost tokens (genesis)" ∷ [])
      ∷ []

  pub balance_report : (account : Option String) → Lines F
  unfolding balance_lines
  balance_report account =
      ((text "💰 Checking balance and staking information..." ∷ []) ∷ [])
      ++ balance_lines account
      ++ ((text "\n💡 To check live balance, connect to your running node via:" ∷ [])
          ∷ (text "   Polkadot.js Apps UI: https://polkadot.js.org/apps/#/accounts" ∷ [])
          ∷ [])

  pub status_details : Lines F
  status_details =
      (text "\n📈 Detailed Information:" ∷ [])
      ∷ (text "═══════════════════════════════════════════════" ∷ [])
      ∷ (text "   Minimum Stake: 1 Ghost token (prototype)" ∷ [])
      ∷ (text "   Slashing Conditions:" ∷ [])
      ∷ (text "      - Double Signing: 100% stake slash" ∷ [])
      ∷ (text "      - Invalid Block: 50% stake slash" ∷ [])
      ∷ (text "      - Downtime (>100 blocks): 10% stake slash" ∷ [])
      ∷ (text "\n   Phase Flow:" ∷ [])
      ∷ (text "      1. PoW Mining - pallet/demo logic" ∷ [])
      ∷ (text "      2. PoS Validation - pallet/demo logic" ∷ [])
      ∷ (text "      3. Finalization - rewards bookkeeping prototype" ∷ [])
      ∷ (text "\n   Network Info:" ∷ [])
      ∷ (text "      Chain: Ghost Development Chain" ∷ [])
      ∷ (text "      Runtime: FRAME-based (Substrate)" ∷ [])
      ∷ (text "      Token: Ghost (GHTM)" ∷ [])
      ∷ (text "      PQC: Dilithium5 support is not wired into the live node RPC surface" ∷ [])
      ∷ []

  pub status_report : (detailed : Bool) → Lines F
  unfolding status_details
  status_report detailed =
      ((text "📊 Ghost Consensus Summary" ∷ [])
        ∷ (text "═══════════════════════════════════════════════" ∷ [])
        ∷ (text "   Consensus design: Hybrid PoW + PoS + PQC" ∷ [])
        ∷ (text "   Live node authoring: Aura" ∷ [])
        ∷ (text "   Live finality: GRANDPA" ∷ [])
        ∷ (text "   Ghost pallet/runtime: informational prototype only" ∷ [])
        ∷ (text "   Block Time: 5 seconds" ∷ [])
        ∷ (text "   PoW Algorithm: Enhanced Blake2-256 (ASIC-resistant)" ∷ [])
        ∷ (text "   Reward Distribution: 40% miner, 60% stakers (prototype)" ∷ [])
        ∷ (text "   Block Reward: 10 Ghost tokens per block (prototype)" ∷ [])
        ∷ [])
      ++ (if detailed then status_details else [])
      ++ ((text "\n💡 Connect your node to inspect live Aura/GRANDPA state." ∷ []) ∷ [])

  pub validators_report : (active_only : Bool) → Lines F
  validators_report active_only =
      ((text "👥 Validator Information" ∷ [])
        ∷ (text "═══════════════════════════════════════════════" ∷ [])
        ∷ [])
      ++ (if active_only
          then (text "   Filter: Active validators only" ∷ [])
          else (text "   Filter: All validators" ∷ []))
        ∷ (text "\n   Default Genesis Validators:" ∷ [])
        ∷ (text "      - Alice (5GrwvaEF5zXb26Fz9rcQpDWS57CtERHpNehXCPcNoHGKutQY)" ∷ [])
        ∷ (text "      - Bob (5FHneW46xGXgs5mUiveU4sbTyGBzmstUspZC92UhjJM694ty)" ∷ [])
        ∷ (text "\n💡 Live validator state still comes from the active runtime." ∷ [])
        ∷ []

  -- `handle_ghost_command`: it always ends with `Ok(())`. `start` stands for the run of the miner.
  unfoldable pub handle_ghost_command :
      (start : Miner → MiningBlockHeader → Option (ℕ × MiningStats F)) → GhostCommands → Lines F
  unfolding mining_report
  handle_ghost_command start (mine threads difficulty) =
      let target_difficulty = get_or difficulty default_difficulty in
      mining_report (start (new_miner threads target_difficulty) (sample_header target_difficulty))
  handle_ghost_command start (stake amount account) = stake_preview amount account
  handle_ghost_command start (unstake amount account) = unstake_preview amount account
  handle_ghost_command start (balance account) = balance_report account
  handle_ghost_command start (status detailed) = status_report detailed
  handle_ghost_command start (validators active_only) = validators_report active_only
