-- ===== src/Node/Benchmarking.antt =====
-- The extrinsics of the benchmark commands, node/src/benchmarking.rs: `create_benchmark_extrinsic`
-- and its two builders. The client, the keys, the SCALE encoding and the mortal eras of
-- `sp_runtime` are parameters.
pub mod Validity
use Prim.Native.String.{String}
use ghost_blockchain.Base.{
  ℕ, zero, suc, ◌*◌, ◌/◌, Option, none, some, List, [], ◌⊎◌, inl, inr, Bool, false, leb,
  if◌then◌else◌, u32_max,
}
use ghost_blockchain.Runtime.{block_hash_count}
use ghost_blockchain.Runtime.Configs.{version}

-- `RuntimeCall`, the two calls that are built.
pub data RuntimeCall : Type 0 where
  remark : (remark : List ℕ) → RuntimeCall
  transfer_keep_alive : (dest value : ℕ) → RuntimeCall

-- The transaction extensions, the parts that hold a value.
pub record TxExtension (Era : Type 0) : Type 0 where
  pub check_era : Era
  pub check_nonce : ℕ
  pub charge_transaction_payment : ℕ
  pub check_metadata_hash : Bool

-- What the extensions add to the signed payload.
pub record Implicit (Hash : Type 0) : Type 0 where
  pub spec_version : ℕ
  pub transaction_version : ℕ
  pub genesis_hash : Hash
  pub era_hash : Hash
  pub metadata_hash : Option Hash

pub record SignedPayload (Era Hash : Type 0) : Type 0 where
  pub call : RuntimeCall
  pub extension : TxExtension Era
  pub implicit : Implicit Hash

pub record UncheckedExtrinsic (Era Signature Public : Type 0) : Type 0 where
  pub call : RuntimeCall
  pub signer : Public
  pub signature : Signature
  pub extension : TxExtension Era

pub record BenchmarkLibrary (Era Hash Pair Public Signature E : Type 0) : Type 0 where
  pub block_hash : ℕ → E ⊎ Option Hash
  pub best_hash : Hash
  pub best_number : ℕ
  pub mortal : (period current : ℕ) → Era
  pub encode : SignedPayload Era Hash → List ℕ
  pub sign : Pair → List ℕ → Signature
  pub public : Pair → Public
  pub bob : Pair

-- The least power of two from `p` on, by doubling, that is `n` at least.
unfoldable pub doubled_up_to : (fuel n p : ℕ) → ℕ
doubled_up_to zero n p = p
doubled_up_to (suc fuel) n p = doubled_up_to fuel n (if leb n p then p else 2 * p)

-- `u32::checked_next_power_of_two`
unfoldable pub checked_next_power_of_two : ℕ → Option ℕ
unfolding doubled_up_to
checked_next_power_of_two n = let p = doubled_up_to 32 n 1 in if leb p u32_max then some p else none

abbrev pub half_or_two : Option ℕ → ℕ
half_or_two none = 2
half_or_two (some c) = c / 2

unfoldable pub period : ℕ
unfolding checked_next_power_of_two
period = half_or_two (checked_next_power_of_two block_hash_count)

module _ {Era Hash Pair Public Signature E : Type 0}
    (lib : BenchmarkLibrary Era Hash Pair Public Signature E) where
  abbrev pub tx_ext : (nonce : ℕ) → TxExtension Era
  tx_ext nonce = record {
    check_era = lib.mortal period lib.best_number;
    check_nonce = nonce;
    charge_transaction_payment = 0;
    check_metadata_hash = false;
  }

  abbrev pub raw_payload : (genesis : Hash) → RuntimeCall → (nonce : ℕ) → SignedPayload Era Hash
  raw_payload genesis call nonce = record {
    call = call;
    extension = tx_ext nonce;
    implicit = record {
      spec_version = version.spec_version;
      transaction_version = version.transaction_version;
      genesis_hash = genesis;
      era_hash = lib.best_hash;
      metadata_hash = none;
    };
  }

  abbrev pub signed :
      (genesis : Hash) → Pair → RuntimeCall → (nonce : ℕ) → UncheckedExtrinsic Era Signature Public
  signed genesis sender call nonce = record {
    call = call;
    signer = lib.public sender;
    signature = lib.sign sender (lib.encode (raw_payload genesis call nonce));
    extension = tx_ext nonce;
  }

  -- Without a genesis block it panics: `none`.
  abbrev pub if_genesis : {A : Type 0} → E ⊎ Option Hash → (Hash → A) → Option A
  if_genesis (inl e) f = none
  if_genesis (inr none) f = none
  if_genesis (inr (some genesis)) f = some (f genesis)

  unfoldable pub create_benchmark_extrinsic :
      Pair → RuntimeCall → (nonce : ℕ) → Option (UncheckedExtrinsic Era Signature Public)
  create_benchmark_extrinsic sender call nonce =
      if_genesis (lib.block_hash 0) (λ genesis. signed genesis sender call nonce)

  -- `RemarkBuilder::build` and `TransferKeepAliveBuilder::build`.
  unfoldable pub build_remark : (nonce : ℕ) → Option (UncheckedExtrinsic Era Signature Public)
  unfolding create_benchmark_extrinsic
  build_remark nonce = create_benchmark_extrinsic lib.bob (remark []) nonce

  unfoldable pub build_transfer :
      (dest value nonce : ℕ) → Option (UncheckedExtrinsic Era Signature Public)
  unfolding create_benchmark_extrinsic
  build_transfer dest value nonce =
      create_benchmark_extrinsic lib.bob (transfer_keep_alive dest value) nonce
