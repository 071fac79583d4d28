-- ===== src/Environment.antt =====
-- What the pallet is built over: its `Config` constants (pallets/pallet-ghost-consensus/src/lib.rs)
-- and the code of other crates that it calls, as parameters. Those are the hashes and the SCALE
-- encodings, the Dilithium5 library, the balances pallet over a ledger type of its own, the order
-- in which storage iterates, and the account of a pallet id.
pub mod Transfers
use ghost_blockchain.Base.{ℕ, ◌+◌, ◌≤◌, ◌<◌, ◌≡◌, ◌≢◌, ◌⊎◌, inr, Bool, Option, List, u128_max}
use ghost_blockchain.Types.{GhostBlockHeader, PowInput, DispatchError, H256}

-- `trait Config`, the constants.
pub record Config : Type 0 where
  pub block_reward : ℕ
  pub min_stake : ℕ
  pub max_downtime_blocks : ℕ
  pub double_sign_slash_percentage : ℕ
  pub invalid_block_slash_percentage : ℕ
  pub downtime_slash_percentage : ℕ
  pub pqc_required : Bool

-- `BlakeTwo256::hash_of`, at each type that the source hashes, and the other hashes of `sp_core`.
pub record Hashing : Type 0 where
  pub hash_of_pow_input : PowInput → H256
  pub hash_of_hash : H256 → H256
  pub hash_of_header : GhostBlockHeader → H256
  pub hash_of_vote : (validator block_number : ℕ) → H256
  pub hash_of_round : (block_number current_block : ℕ) → H256
  pub encode_pow_input : PowInput → List ℕ
  pub sha2_256 : List ℕ → H256
  pub keccak_256 : List ℕ → H256

-- `pqcrypto_dilithium::dilithium5`. `std` is the feature under which the source calls it.
pub record Dilithium : Type 0 where
  pub std : Bool
  pub signature_from_bytes : List ℕ → Option (List ℕ)
  pub public_key_from_bytes : List ℕ → Option (List ℕ)
  pub verify_detached_signature : (signature message public_key : List ℕ) → Bool

pub data ExistenceRequirement : Type 0 where
  keep_alive allow_death : ExistenceRequirement

-- The calls of `pallet_balances` that the pallet makes, over a ledger `L`. `transfer` fails or
-- returns the new ledger; `deposit_creating` mints.
pub record Currency (L : Type 0) : Type 0 where
  pub free_balance : L → ℕ → ℕ
  pub existential_deposit : ℕ
  pub transfer : L → (from to amount : ℕ) → ExistenceRequirement → DispatchError ⊎ L
  pub deposit_creating : L → (who amount : ℕ) → L

pub record Environment (L : Type 0) : Type 0 where
  pub config : Config
  pub hashing : Hashing
  pub dilithium : Dilithium
  pub currency : Currency L
  -- The escrow account, `PalletId::into_account_truncating`.
  pub account_id : ℕ
  -- Which of two keys storage iterates first.
  pub before : ℕ → ℕ → Bool

-- What the documentation of the balances pallet promises of a transfer that succeeds: the receiver
-- gets the amount, and the sender loses it. If the sender may die and would be left with less than
-- the existential deposit, what is left is destroyed with the account.
pub record TransferLaws {L : Type 0} (c : Currency L) : Type 0 where
  pub transfer_moves :
      (l l' : L) (from to amount : ℕ) (k : ExistenceRequirement)
      → from ≢ to
      → c.transfer l from to amount k ≡ inr l'
      → (c.free_balance l' to ≡ c.free_balance l to + amount)
        × ((c.free_balance l' from + amount ≡ c.free_balance l from)
            ⊎ ((k ≡ allow_death)
                × (c.free_balance l' from ≡ 0)
                × (amount ≤ c.free_balance l from)
                × (c.free_balance l from < amount + c.existential_deposit)))
  pub transfer_others :
      (l l' : L) (from to amount who : ℕ) (k : ExistenceRequirement)
      → who ≢ from
      → who ≢ to
      → c.transfer l from to amount k ≡ inr l'
      → c.free_balance l' who ≡ c.free_balance l who

-- What the documentation of `Currency::deposit_creating` promises: it credits the account, or it
-- leaves every balance alone (an amount below the existential deposit for a new account, or an
-- overflow). An account that exists is credited, if that does not overflow.
pub record DepositLaws {L : Type 0} (c : Currency L) : Type 0 where
  pub deposit_others :
      (l : L) (who amount j : ℕ)
      → j ≢ who
      → c.free_balance (c.deposit_creating l who amount) j ≡ c.free_balance l j
  pub deposit_atomic :
      (l : L) (who amount : ℕ)
      → (c.free_balance (c.deposit_creating l who amount) who ≡ c.free_balance l who + amount)
        ⊎ (c.free_balance (c.deposit_creating l who amount) who ≡ c.free_balance l who)
  pub deposit_credits :
      (l : L) (who amount : ℕ)
      → c.existential_deposit ≤ c.free_balance l who
      → c.free_balance l who + amount ≤ u128_max
      → c.free_balance (c.deposit_creating l who amount) who ≡ c.free_balance l who + amount

-- A balance is a `u128`.
abbrev pub BalancesFit : {L : Type 0} → Currency L → Type 0
BalancesFit {L} c = (l : L) (who : ℕ) → c.free_balance l who ≤ u128_max
