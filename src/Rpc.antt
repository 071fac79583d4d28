-- ===== src/Rpc.antt =====
-- The RPC interface of the pallet, pallets/pallet-ghost-consensus/src/rpc.rs. The client is a
-- parameter: its best block and the runtime API, which fails or answers at a block.
pub mod Answers
use Prim.Native.String.{String}
use ghost_blockchain.Base.{ℕ, Option, none, some, List, [], ◌∷◌, ◌⊎◌, inl, inr, ◌==◌, if◌then◌else◌}

-- The calls of the client. `E` is its error, `display` the text of one.
pub record Client (Hash E : Type 0) : Type 0 where
  pub best_hash : Hash
  pub api_get_difficulty : Hash → E ⊎ ℕ
  pub api_get_current_phase : Hash → E ⊎ ℕ
  pub api_get_validator_stake : Hash → (validator : ℕ) → E ⊎ Option ℕ
  pub api_get_all_validators : Hash → E ⊎ List (ℕ × ℕ)
  pub api_get_slashing_records_count : Hash → E ⊎ ℕ
  pub display : E → String

-- `ErrorObject::owned(code, message, data)`
pub record ErrorObject : Type 0 where
  pub code : ℕ
  pub message : String
  pub data' : Option String

abbrev pub RpcResult : Type 0 → Type 0
RpcResult A = ErrorObject ⊎ A

-- The names of the methods of `trait GhostConsensusApi`.
abbrev pub method_names : List String
method_names =
    "ghost_getDifficulty" ∷ "ghost_getCurrentPhase" ∷ "ghost_getValidatorStake"
    ∷ "ghost_getAllValidators" ∷ "ghost_getSlashingRecords" ∷ []

module _ {Hash E : Type 0} (client : Client Hash E) where
  abbrev pub runtime_error_into_rpc_error : E → ErrorObject
  runtime_error_into_rpc_error e = record {
    code = 1;
    message = "Runtime error";
    data' = some (client.display e);
  }

  -- `at.unwrap_or_else(|| self.client.info().best_hash)`
  abbrev pub block_at : Option Hash → Hash
  block_at none = client.best_hash
  block_at (some h) = h

  -- `map_err(runtime_error_into_rpc_error)`
  abbrev pub map_err : {A : Type 0} → E ⊎ A → RpcResult A
  map_err (inl e) = inl (runtime_error_into_rpc_error e)
  map_err (inr a) = inr a

  unfoldable pub get_difficulty : (at' : Option Hash) → RpcResult ℕ
  get_difficulty at' = map_err (client.api_get_difficulty (block_at at'))

  abbrev pub phase_name : (phase_num : ℕ) → String
  phase_name phase_num =
      if phase_num == 0
      then "PowMining"
      else if phase_num == 1
      then "PosValidation"
      else if phase_num == 2
      then "Finalization"
      else "Unknown"

  abbrev name_phase : RpcResult ℕ → RpcResult String
  name_phase (inl e) = inl e
  name_phase (inr phase_num) = inr (phase_name phase_num)

  unfoldable pub get_current_phase : (at' : Option Hash) → RpcResult String
  get_current_phase at' = name_phase (map_err (client.api_get_current_phase (block_at at')))

  unfoldable pub get_validator_stake : (validator : ℕ) (at' : Option Hash) → RpcResult (Option ℕ)
  get_validator_stake validator at' =
      map_err (client.api_get_validator_stake (block_at at') validator)

  unfoldable pub get_all_validators : (at' : Option Hash) → RpcResult (List (ℕ × ℕ))
  get_all_validators at' = map_err (client.api_get_all_validators (block_at at'))

  unfoldable pub get_slashing_records : (at' : Option Hash) → RpcResult ℕ
  get_slashing_records at' = map_err (client.api_get_slashing_records_count (block_at at'))
