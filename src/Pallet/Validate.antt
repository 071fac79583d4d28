-- ===== src/Pallet/Validate.antt =====
-- `validate_block` and `distribute_block_rewards` of pallets/pallet-ghost-consensus/src/lib.rs, and
-- `verify_pqc_signature` of its functions.rs.
pub mod Entitlement
pub mod Outcome
pub mod Issuance
pub mod Helper
use ghost_blockchain.Base.{
  ℕ, Bool, false, Option, none, some, List, [], ◌∷◌, map, ◌==◌, if◌then◌else◌, saturated_into_u64,
  lookup, insert, contains_key, StorageMap,
}
use ghost_blockchain.Types.{
  GhostBlockHeader, PqcSignature, ValidatorStake, PosSelection, BlockReward, ConsensusPhase,
  phase_eq, Event, Error, Origin,
}
use ghost_blockchain.Environment.{Environment, Dilithium}
use ghost_blockchain.State.{
  State, Action, ◌>>=◌, ◌>>◌, gets, modify, with_storage_layer, ensure, ok_or, ensure_signed,
  deposit_event,
}
use ghost_blockchain.Selection.{select_pos_validator}
use ghost_blockchain.Rewards.{
  calculate_block_reward, distribute_rewards, total_stake_from, pay_stakers,
}

-- The entry of a staker: `weight: stake.saturated_into()`.
abbrev pub to_validator_stake : ℕ × ℕ → ValidatorStake
to_validator_stake (account, stake) = record {
  account = account;
  stake = stake;
  weight = saturated_into_u64 stake;
}

-- `ValidatorStakes::<T>::iter().map(…).collect()`
abbrev pub stakers : StorageMap ℕ → List ValidatorStake
stakers = map to_validator_stake

unfoldable pub verify_pqc_signature :
    Dilithium → (message signature_bytes public_key_bytes : List ℕ) → Bool
verify_pqc_signature d message signature_bytes public_key_bytes =
    if d.std
    then elim (d.signature_from_bytes signature_bytes) [
      | none ↦ false
      | some sig ↦ elim (d.public_key_from_bytes public_key_bytes) [
        | none ↦ false
        | some pk ↦ d.verify_detached_signature sig message pk
      ]
    ]
    else false

module _ {L : Type 0} (env : Environment L) where
  -- The body of `if T::PqcRequired::get()`.
  unfoldable pub check_pqc : (validator block_number : ℕ) → PqcSignature → Action L (Unit {0})
  check_pqc validator block_number pqc_signature = do
    found ← gets (λ s. lookup validator s.validator_pqc_public_keys)
    pqc_public_key ← ok_or found Error.pqc_public_key_not_found
    let message = env.hashing.hash_of_vote validator block_number
    ensure (verify_pqc_signature env.dilithium message pqc_signature.bytes pqc_public_key)
        Error.invalid_pqc_signature

  abbrev pub sign_header :
      (validator block_number : ℕ) → PqcSignature → GhostBlockHeader → GhostBlockHeader
  sign_header validator block_number pqc_signature header = record header {
    validator_signature = some (env.hashing.hash_of_vote validator block_number);
    pqc_signature = some pqc_signature;
  }

  abbrev pub selection_of : (block_number : ℕ) → State L → Option PosSelection
  selection_of block_number s =
      select_pos_validator (saturated_into_u64 s.block_number) (stakers s.validator_stakes)
        (env.hashing.hash_of_round block_number s.block_number)

  abbrev pub distribute : (miner : ℕ) → BlockReward → State L → State L
  distribute miner reward s = record s {
    ledger = distribute_rewards env.currency miner (stakers s.validator_stakes) reward s.ledger;
  }

  abbrev pub get_miner_for_block : (block_number : ℕ) → Action L ℕ
  get_miner_for_block block_number = do
    producer ← gets (λ s. lookup block_number s.block_producers)
    ok_or producer Error.block_not_found

  unfoldable pub validate_block : Origin → (block_number : ℕ) → PqcSignature → Action L (Unit {0})
  validate_block origin block_number pqc_signature = with_storage_layer (do
    validator ← ensure_signed origin
    is_staker ← gets (λ s. contains_key validator s.validator_stakes)
    ensure is_staker Error.not_a_validator
    found ← gets (λ s. lookup block_number s.block_headers)
    block_header ← ok_or found Error.block_not_found
    phase ← gets (λ s. s.current_phase)
    ensure (phase_eq phase ConsensusPhase.pos_validation) Error.invalid_phase_transition
    selected ← gets (selection_of block_number)
    selection ← ok_or selected Error.not_a_validator
    ensure (selection.validator == validator) Error.not_a_validator
    if env.config.pqc_required
        then check_pqc validator block_number pqc_signature
        else modify (λ s. s)
    modify (λ s. record s {
      block_headers =
          insert env.before block_number
            (sign_header validator block_number pqc_signature block_header) s.block_headers;
    })
    let reward = calculate_block_reward env.config.block_reward
    miner ← get_miner_for_block block_number
    modify (distribute miner reward)
    modify (λ s. record s {
      last_active_block = insert env.before validator block_number s.last_active_block;
      current_phase = ConsensusPhase.finalization;
    })
    deposit_event (Event.validator_selected validator selection.weight)
    deposit_event (Event.rewards_distributed miner reward.miner_reward reward.stakers_reward))

  -- The loop of the public helper, under its two tests.
  unfoldable pub pay_if_any : (reward : ℕ) → List ValidatorStake → L → L
  pay_if_any reward [] l = l
  pay_if_any reward (s ∷ ss) l =
      let total_stake = total_stake_from 0 (s ∷ ss) in
      if total_stake == 0 then l else pay_stakers env.currency reward total_stake (s ∷ ss) l

  -- The public helper. It takes a block number that it does not read.
  unfoldable pub distribute_block_rewards : (miner block_number : ℕ) → Action L (Unit {0})
  unfolding pay_if_any
  distribute_block_rewards miner _ = do
    let reward = calculate_block_reward env.config.block_reward
    modify (λ s. record s {
      ledger = env.currency.deposit_creating s.ledger miner reward.miner_reward;
    })
    list ← gets (λ s. stakers s.validator_stakes)
    modify (λ s. record s { ledger = pay_if_any reward.stakers_reward list s.ledger })
    deposit_event (Event.rewards_distributed miner reward.miner_reward reward.stakers_reward)
