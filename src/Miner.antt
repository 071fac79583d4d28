-- ===== src/Miner.antt =====
-- The demo miner of node/src/miner.rs: threads that share four atomics. Every load and store of an
-- atomic is a step of its own, all of them sequentially consistent but the count of hashes, and the
-- threads interleave freely.
pub mod Safety
pub mod Progress
pub mod Turns
pub mod Termination
pub mod Submission
pub mod Fairness
use ghost_blockchain.Base.{
  ℕ, ◌+◌, ◌<◌, ◌≡◌, Bool, true, false, Option, none, some, ◌==◌, if◌then◌else◌, min, leb, wrap_u64,
}
use ghost_blockchain.Types.{H256, PowInput}
use ghost_blockchain.Environment.{Hashing}
use ghost_blockchain.Pow.{enhanced_value}

-- `struct MiningStats`. The hash rate is a float of type `F`.
pub record MiningStats (F : Type 0) : Type 0 where
  pub hashes_computed : ℕ
  pub blocks_found : ℕ
  pub hash_rate : F
  pub elapsed_time : ℕ

-- `struct MiningBlockHeader`
pub record MiningBlockHeader : Type 0 where
  pub number : ℕ
  pub parent_hash : H256
  pub state_root : H256
  pub extrinsics_root : H256
  pub difficulty : ℕ

-- `struct Miner`, with the atomics' values.
pub record Miner : Type 0 where
  pub threads : ℕ
  pub target_difficulty : ℕ
  pub running : Bool
  pub hashes : ℕ

abbrev pub new_miner : (threads target_difficulty : ℕ) → Miner
new_miner threads target_difficulty = record {
  threads = threads;
  target_difficulty = target_difficulty;
  running = false;
  hashes = 0;
}

-- The atomics that the threads share.
pub record Shared : Type 0 where
  pub running : Bool
  pub hashes : ℕ
  pub found_nonce : ℕ
  pub found_solution : Bool

-- What a thread does next: the two loads of the loop's test, the hash with its count, the three
-- stores after a hit, or nothing more.
pub data Pc : Type 0 where
  load_running load_found hash store_found store_nonce store_running done : Pc

pub record Thread : Type 0 where
  pub pc : Pc
  pub nonce : ℕ

pub record Mining : Type 0 where
  pub shared : Shared
  pub thread : ℕ → Thread

-- `hash_input`
abbrev pub mining_input : MiningBlockHeader → (nonce : ℕ) → PowInput
mining_input h nonce = record {
  number = h.number;
  parent_hash = h.parent_hash;
  state_root = h.state_root;
  extrinsics_root = h.extrinsics_root;
  nonce = nonce;
}

module _ (hs : Hashing) (header : MiningBlockHeader) (miner : Miner) where
  -- `self.target_difficulty.min(block_header.difficulty)`
  abbrev pub target : ℕ
  target = min miner.target_difficulty header.difficulty

  abbrev pub hash_value : (nonce : ℕ) → ℕ
  hash_value nonce = enhanced_value hs (mining_input header nonce)

  -- One step of the closure that a thread runs, by what it does next and its nonce.
  unfoldable pub advance_at : Shared → Pc → (nonce : ℕ) → Shared × Thread
  advance_at s Pc.load_running n =
      (s, record { pc = if s.running then Pc.load_found else Pc.done; nonce = n })
  advance_at s Pc.load_found n =
      (s, record { pc = if s.found_solution then Pc.done else Pc.hash; nonce = n })
  advance_at s Pc.hash n = (
    record s { hashes = wrap_u64 (s.hashes + 1) },
    if leb (hash_value n) target
        then record { pc = Pc.store_found; nonce = n }
        else record { pc = Pc.load_running; nonce = wrap_u64 (n + miner.threads) },
  )
  advance_at s Pc.store_found n =
      (record s { found_solution = true }, record { pc = Pc.store_nonce; nonce = n })
  advance_at s Pc.store_nonce n =
      (record s { found_nonce = n }, record { pc = Pc.store_running; nonce = n })
  advance_at s Pc.store_running n =
      (record s { running = false }, record { pc = Pc.done; nonce = n })
  advance_at s Pc.done n = (s, record { pc = Pc.done; nonce = n })

  unfoldable pub advance : Shared → Thread → Shared × Thread
  unfolding advance_at
  advance s t = advance_at s t.pc t.nonce

  -- Thread `i` takes a step.
  unfoldable pub run_thread : (i : ℕ) → Mining → Mining
  unfolding advance
  run_thread i m =
      let (s, t) = advance m.shared (m.thread i) in
      record { shared = s; thread = λ j. if j == i then t else m.thread j }

  -- `Miner::stop`, which `Drop` calls too: from another thread, through a shared reference.
  unfoldable pub stop : Mining → Mining
  stop m = record m { shared = record m.shared { running = false } }

  -- `start` up to the spawns: thread `thread_id` begins at the nonce `thread_id`.
  unfoldable pub start : Mining
  start = record {
    shared = record {
      running = true;
      hashes = miner.hashes;
      found_nonce = 0;
      found_solution = false;
    };
    thread = λ thread_id. record { pc = Pc.load_running; nonce = thread_id };
  }

  pub data Step (m : Mining) : Mining → Type 0 where
    runs : (i : ℕ) → i < miner.threads → Step m (run_thread i m)

  -- A run without a call of `stop`.
  pub data Run : Mining → Type 0 where
    started : Run start
    ran : {m u : Mining} → Run m → Step m u → Run u

  -- A run that may be stopped at any point.
  pub data Reach : Mining → Type 0 where
    started : Reach start
    ran : {m u : Mining} → Reach m → Step m u → Reach u
    stopped : {m : Mining} → Reach m → Reach (stop m)

  -- Every `join` has returned.
  abbrev pub AllDone : Mining → Type 0
  AllDone m = (i : ℕ) → i < miner.threads → (m.thread i).pc ≡ Pc.done

  -- The end of `start`, once the threads are done, by the time that has passed.
  unfoldable pub result :
      {F : Type 0}
      → (hash_rate : (hashes elapsed : ℕ) → F) → (elapsed : ℕ) → Mining
      → Option (ℕ × MiningStats F)
  result {F} hash_rate elapsed m =
      let stats : MiningStats F = record {
        hashes_computed = m.shared.hashes;
        blocks_found = if m.shared.found_solution then 1 else 0;
        hash_rate = hash_rate m.shared.hashes elapsed;
        elapsed_time = elapsed;
      } in
      if m.shared.found_solution then some (m.shared.found_nonce, stats) else none
