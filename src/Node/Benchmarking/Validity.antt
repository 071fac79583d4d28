-- ===== src/Node/Benchmarking/Validity.antt =====
-- The chain accepts the signature of a benchmark extrinsic.
use ghost_blockchain.Base.{
  ℕ, ◌^◌, ◌+◌, ◌≤◌, ◌<◌, ◌≡◌, none, some, List, inr, Bool, true, refl, arith, sym,
}
use ghost_blockchain.Runtime.{block_hash_count}
use ghost_blockchain.Runtime.Configs.{version}
use ghost_blockchain.Node.Benchmarking.{
  RuntimeCall, SignedPayload, UncheckedExtrinsic, BenchmarkLibrary, doubled_up_to,
  checked_next_power_of_two, period, create_benchmark_extrinsic, raw_payload, signed,
}

-- What a chain does with an extrinsic: it knows the hashes of its blocks, where an era was born,
-- and how to verify a signature.
pub record Chain (Era Hash Public Signature : Type 0) : Type 0 where
  pub hash_at : ℕ → Hash
  pub birth : Era → (current : ℕ) → ℕ
  pub verify : Signature → List ℕ → Public → Bool

-- What `sp_runtime` documents of eras (one whose period is a power of two from 4 to 4096 is not
-- quantized: through its period, it is born at the block that it is made for) and of signatures,
-- and what the client's answers are.
pub record ChainLaws {Era Hash Pair Public Signature E : Type 0}
    (lib : BenchmarkLibrary Era Hash Pair Public Signature E)
    (chain : Chain Era Hash Public Signature) : Type 0 where
  pub era_birth :
      (k n current : ℕ)
      → 2 ≤ k
      → k ≤ 12
      → n ≤ current
      → current < n + 2 ^ k
      → chain.birth (lib.mortal (2 ^ k) n) current ≡ n
  pub verify_sign :
      (pair : Pair) (message : List ℕ)
      → chain.verify (lib.sign pair message) message (lib.public pair) ≡ true
  pub best : lib.best_hash ≡ chain.hash_at lib.best_number
  pub genesis : lib.block_hash 0 ≡ inr (some (chain.hash_at 0))

period-eq-pow : period ≡ 2 ^ 11
unfolding period checked_next_power_of_two doubled_up_to
period-eq-pow = refl

module _ {Era Hash Pair Public Signature E : Type 0}
    (lib : BenchmarkLibrary Era Hash Pair Public Signature E)
    (chain : Chain Era Hash Public Signature) where
  -- The payload that the chain rebuilds from an extrinsic at a block.
  abbrev pub rebuilt :
      (current : ℕ) → UncheckedExtrinsic Era Signature Public → SignedPayload Era Hash
  rebuilt current x = record {
    call = x.call;
    extension = x.extension;
    implicit = record {
      spec_version = version.spec_version;
      transaction_version = version.transaction_version;
      genesis_hash = chain.hash_at 0;
      era_hash = chain.hash_at (chain.birth x.extension.check_era current);
      metadata_hash = none;
    };
  }

  -- The chain still has the hash of the block at which the extrinsic was born, and the signature is
  -- the signer's over the payload that it rebuilds.
  abbrev pub Accepted : (current : ℕ) → UncheckedExtrinsic Era Signature Public → Type 0
  Accepted current x =
      (current ≤ chain.birth x.extension.check_era current + block_hash_count)
      × (chain.verify x.signature (lib.encode (rebuilt current x)) x.signer ≡ true)

  -- With a client that answers the best block and its hash, and eras and signatures as documented,
  -- a benchmark extrinsic of any signer, call and nonce is made, with that signer, call and nonce.
  -- From the best block on and for 2048 blocks, the chain still has the hash that was signed for
  -- its era, and the signature is the signer's over the payload that the chain rebuilds from it.
  pub create_benchmark_extrinsic-Accepted :
      (laws : ChainLaws lib chain) (sender : Pair) (call : RuntimeCall) (nonce current : ℕ)
      → lib.best_number ≤ current
      → current < lib.best_number + 2048
      → (x : UncheckedExtrinsic Era Signature Public) × (create_benchmark_extrinsic lib sender call
            nonce
          ≡ some x)
        × (x.call ≡ call)
        × (x.extension.check_nonce ≡ nonce)
        × (x.signer ≡ lib.public sender)
        × Accepted current x
  unfolding create_benchmark_extrinsic
  create_benchmark_extrinsic-Accepted laws sender call nonce current from until =
      let n = lib.best_number in
      let born : chain.birth (lib.mortal period n) current ≡ n =
        rw period-eq-pow (laws.era_birth 11 n current (omega arith) (omega arith) from until) in
      let message = lib.encode (raw_payload lib (chain.hash_at 0) call nonce) in
      (
        signed lib (chain.hash_at 0) sender call nonce,
        rw laws.genesis refl,
        refl,
        refl,
        refl,
        (rw born (omega arith), rw (born, sym laws.best) (laws.verify_sign sender message)),
      )
