-- ===== src/Pow.antt =====
-- The proof-of-work tests of pallets/pallet-ghost-consensus/src/functions.rs: `verify_pow`,
-- `verify_pow_enhanced` and the two alternatives. A target is the largest accepted hash prefix.
use ghost_blockchain.Base.{ℕ, Bool, leb, take, from_be_bytes}
use ghost_blockchain.Types.{GhostBlockHeader, PowInput, H256}
use ghost_blockchain.Environment.{Hashing}

-- `u64::from_be_bytes(hash.as_bytes()[0..8])`
unfoldable pub prefix_value : H256 → ℕ
prefix_value h = from_be_bytes (take 8 h)

-- `hash_input`
abbrev pub hash_input : GhostBlockHeader → PowInput
hash_input h = record {
  number = h.number;
  parent_hash = h.parent_hash;
  state_root = h.state_root;
  extrinsics_root = h.extrinsics_root;
  nonce = h.nonce;
}

unfoldable pub verify_pow : Hashing → GhostBlockHeader → ℕ → Bool
verify_pow hs h target = leb (prefix_value (hs.hash_of_pow_input (hash_input h))) target

-- The prefix of the double hash, which the pallet and the miner compare with the target.
unfoldable pub enhanced_value : Hashing → PowInput → ℕ
enhanced_value hs i = prefix_value (hs.hash_of_hash (hs.hash_of_pow_input i))

unfoldable pub verify_pow_enhanced : Hashing → GhostBlockHeader → ℕ → Bool
unfolding enhanced_value
verify_pow_enhanced hs h target = leb (enhanced_value hs (hash_input h)) target

unfoldable pub verify_pow_sha256 : Hashing → GhostBlockHeader → ℕ → Bool
verify_pow_sha256 hs h target =
    leb (prefix_value (hs.sha2_256 (hs.sha2_256 (hs.encode_pow_input (hash_input h))))) target

unfoldable pub verify_pow_keccak : Hashing → GhostBlockHeader → ℕ → Bool
verify_pow_keccak hs h target =
    leb (prefix_value (hs.keccak_256 (hs.encode_pow_input (hash_input h)))) target
