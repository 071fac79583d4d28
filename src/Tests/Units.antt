-- ===== src/Tests/Units.antt =====
-- The unit tests of the consensus pallet, pallets/pallet-ghost-consensus/src/tests.rs, on the mock
-- runtime, with the transparent hashes and the ledger of the other examples.
mod Staking
mod Functions
mod Round
mod Replay
use ghost_blockchain.Base.{ℕ, ◌-◌, ◌*◌, List, [], ◌∷◌, get_or, lookup}
use ghost_blockchain.Types.{GhostBlockHeader}
use ghost_blockchain.Environment.{Environment}
use ghost_blockchain.State.{State}
use ghost_blockchain.Mock.{mock_config, MockHashing, build, create_block_header}
use ghost_blockchain.Tests.World.{Ledger, test_env}

abbrev pub mock_env : Environment Ledger
mock_env = record test_env { config = mock_config }

-- `GhostPalletId::get().into_account_truncating()`
abbrev pub escrow_account : ℕ
escrow_account = mock_env.account_id

-- One token.
abbrev pub ghost : ℕ → ℕ
ghost n = n * 1_000_000_000_000_000_000

abbrev pub genesis : State Ledger
genesis = build (λ balances who. get_or (lookup who balances) 0)

abbrev pub mock_hashing : MockHashing
mock_hashing = record {
  zero_hash = 0 ∷ [];
  hash_of_number = λ n. 1 ∷ n ∷ [];
  hash_of_state = λ n. 2 ∷ n ∷ [];
  hash_of_extrinsics = λ n. 3 ∷ n ∷ [];
}

abbrev pub block_header : (number nonce : ℕ) → GhostBlockHeader
block_header number nonce = create_block_header mock_hashing number nonce
