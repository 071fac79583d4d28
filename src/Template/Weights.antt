-- ===== src/Template/Weights.antt =====
-- The weights of the template pallet, pallets/template/src/weights.rs, over the arithmetic on
-- weights and the database costs of other crates.
use ghost_blockchain.Base.{ℕ}

-- `frame_support::weights::Weight` and the `DbWeight` of a runtime.
pub record WeightLibrary (W : Type 0) : Type 0 where
  pub from_parts : (ref_time proof_size : ℕ) → W
  pub saturating_add : W → W → W

pub record DbWeight (W : Type 0) : Type 0 where
  pub reads : ℕ → W
  pub writes : ℕ → W

-- `trait WeightInfo`
pub record WeightInfo (W : Type 0) : Type 0 where
  pub do_something : W
  pub cause_error : W

module _ {W : Type 0} (lib : WeightLibrary W) where
  abbrev pub something_weight : DbWeight W → W
  something_weight db = lib.saturating_add (lib.from_parts 9_000_000 0) (db.writes 1)

  abbrev pub error_weight : DbWeight W → W
  error_weight db =
      lib.saturating_add (lib.saturating_add (lib.from_parts 6_000_000 1489) (db.reads 1))
        (db.writes 1)

  -- `impl WeightInfo for SubstrateWeight<T>`, at the costs of the runtime.
  abbrev pub substrate_weight : (runtime_db_weight : DbWeight W) → WeightInfo W
  substrate_weight runtime_db_weight = record {
    do_something = something_weight runtime_db_weight;
    cause_error = error_weight runtime_db_weight;
  }

  -- `impl WeightInfo for ()`, at the costs of RocksDB.
  abbrev pub unit_weight : (rocks_db_weight : DbWeight W) → WeightInfo W
  unit_weight rocks_db_weight = record {
    do_something = something_weight rocks_db_weight;
    cause_error = error_weight rocks_db_weight;
  }
