-- ===== src/Node/Commands/Mining.antt =====
-- The nonce that the mining command prints is one that the pallet accepts.
use ghost_blockchain.Base.{
  ℕ, ◌≤◌, ◌≡◌, ◌⊎◌, inl, inr, Option, none, some, arith, get_or, refl, Option-cases,
}
use ghost_blockchain.Environment.{Hashing}
use ghost_blockchain.Miner.{new_miner, Mining, MiningStats, Reach, AllDone, result, hash_value}
use ghost_blockchain.Miner.Safety.{result-IsHit}
use ghost_blockchain.Node.Commands.{
  mine, default_difficulty, sample_header, mining_report, handle_ghost_command,
}

-- Once every thread of the command's miner is done, however they interleaved and whenever it was
-- stopped, the command reports a failure, or one block with a nonce whose double hash is at most
-- the difficulty that was asked for, by default a millionth of the largest `u64`.
pub handle-mine :
    {F : Type 0} (hs : Hashing) (hash_rate : (hashes elapsed : ℕ) → F) (elapsed threads : ℕ)
    (difficulty : Option ℕ) (m : Mining)
    → let d = get_or difficulty default_difficulty in
      let miner = new_miner threads d in
      let header = sample_header d in
      let printed =
        handle_ghost_command (λ a h. result hs h a hash_rate elapsed m) (mine threads difficulty) in
      Reach hs header miner m
      → AllDone hs header miner m
      → (printed ≡ mining_report none)
        ⊎ ((nonce : ℕ) × (stats : MiningStats F) × (printed ≡ mining_report (some (nonce, stats)))
            × (hash_value hs header miner nonce ≤ d)
            × (stats.blocks_found ≡ 1))
unfolding handle_ghost_command
handle-mine hs hash_rate elapsed threads difficulty m r finished =
    let d = get_or difficulty default_difficulty in
    let miner = new_miner threads d in
    let header = sample_header d in
    elim (Option-cases (result hs header miner hash_rate elapsed m)) [
      | inl failed ↦ inl (rw failed refl)
      | inr ((nonce, stats), found) ↦
          let (hit, one) =
            result-IsHit hs header miner hash_rate elapsed m r finished nonce stats found in
          inr (nonce, stats, rw found refl, omega (arith, hit), one)
    ]
