-- ===== src/Miner/Submission.antt =====
-- From node/src/miner.rs to `submit_block` of pallets/pallet-ghost-consensus/src/lib.rs: what
-- becomes of a nonce that the miner returns.
use ghost_blockchain.Base.{
  ℕ, ◌+◌, ◌-◌, ◌*◌, ◌/◌, ◌≤◌, ◌<◌, ◌≡◌, none, some, arith, lookup, min, u64_max, wrap_u32, inl, inr,
  Option-cases,
}
use ghost_blockchain.Types.{GhostBlockHeader, ConsensusPhase, Origin}
use ghost_blockchain.Environment.{Environment, Hashing}
use ghost_blockchain.State.{State, ok}
use ghost_blockchain.Pallet.Submit.{submit_block}
use ghost_blockchain.Pallet.Submit.Outcome.{CanSubmit, mined, submit_block_outcome}
use ghost_blockchain.Miner.{
  MiningBlockHeader, Miner, MiningStats, Mining, Run, Reach, AllDone, result,
}
use ghost_blockchain.Miner.Safety.{IsHit, result-IsHit}
use ghost_blockchain.Miner.Progress.{result-unstopped}

-- The block that a miner submits: its header with the nonce, without signatures.
abbrev pub mined_block : MiningBlockHeader → (nonce : ℕ) → GhostBlockHeader
mined_block header nonce = record {
  number = header.number;
  parent_hash = header.parent_hash;
  state_root = header.state_root;
  extrinsics_root = header.extrinsics_root;
  nonce = nonce;
  difficulty = header.difficulty;
  validator_signature = none;
  pqc_signature = none;
}

-- Without a call of `stop` a run is one of those that may be stopped.
pub Run-Reach :
    (hs : Hashing) (header : MiningBlockHeader) (miner : Miner) (m : Mining)
    → Run hs header miner m
    → Reach hs header miner m
Run-Reach hs header miner _ Run.started = Reach.started
Run-Reach hs header miner _ (Run.ran {m} r s) = Reach.ran (Run-Reach hs header miner m r) s

module _ {L : Type 0} (env : Environment L) where
  -- A header to mine on a stored parent, in the mining phase, at a target that the pallet allows.
  pub record BuildsOn (header : MiningBlockHeader) (parent : GhostBlockHeader) (s : State L)
      : Type 0 where
    pub mining : s.current_phase ≡ ConsensusPhase.pow_mining
    pub above : 0 < header.number
    pub stored : lookup (header.number - 1) s.block_headers ≡ some parent
    pub next_number : header.number ≡ wrap_u32 (parent.number + 1)
    pub links : header.parent_hash ≡ env.hashing.hash_of_header parent
    pub not_low : s.difficulty / 2 ≤ header.difficulty
    pub not_high : header.difficulty ≤ min (s.difficulty * 2) u64_max

  hit-CanSubmit :
      (header : MiningBlockHeader) (parent : GhostBlockHeader) (miner : Miner) (s : State L)
      (nonce : ℕ)
      → BuildsOn header parent s
      → IsHit env.hashing header miner nonce
      → CanSubmit env (mined_block header nonce) s
  hit-CanSubmit header parent miner s nonce b hit = (
    parent,
    b.mining,
    b.above,
    b.stored,
    record {
      next_number = b.next_number;
      links = b.links;
      works = omega arith;
      not_low = b.not_low;
      not_high = b.not_high;
    },
  )

  -- If a miner with at least one thread works on a header over a stored parent, in the mining phase
  -- and at a target that the pallet allows, and nobody stops it, then once every thread is done, in
  -- whichever order the threads took their steps, it returns a nonce, and the submission of the
  -- header with that nonce succeeds, by any signed account, in the state in which it was begun.
  pub result-submit_block :
      {F : Type 0} (hash_rate : (hashes elapsed : ℕ) → F) (elapsed account : ℕ)
      (header : MiningBlockHeader) (parent : GhostBlockHeader) (miner : Miner) (m : Mining)
      (s : State L)
      → 0 < miner.threads
      → Run env.hashing header miner m
      → AllDone env.hashing header miner m
      → BuildsOn header parent s
      → (nonce : ℕ) × (stats : MiningStats F) × (result env.hashing header miner hash_rate elapsed m
          ≡ some (nonce, stats))
        × (submit_block env (Origin.signed account) (mined_block header nonce) s
            ≡ (ok tt, mined env account (mined_block header nonce) s))
  result-submit_block hash_rate elapsed account header parent miner m s pos r finished b =
      elim (Option-cases (result env.hashing header miner hash_rate elapsed m)) [
        | inl nothing ↦
            absurd
              (result-unstopped env.hashing header miner hash_rate elapsed m pos r finished nothing)
        | inr ((nonce, stats), returned) ↦
            let (hit, one) =
              result-IsHit env.hashing header miner hash_rate elapsed m
                (Run-Reach env.hashing header miner m r) finished nonce stats returned in
            elim (submit_block_outcome env account (mined_block header nonce) s) [
              | inl (can, done) ↦ (nonce, stats, returned, done)
              | inr (cannot, refused) ↦
                  absurd (cannot (hit-CanSubmit header parent miner s nonce b hit))
            ]
      ]
