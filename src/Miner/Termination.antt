-- ===== src/Miner/Termination.antt =====
-- The end of the miner's threads, node/src/miner.rs: after a `stop`, and after a solution.
use ghost_blockchain.Base.{ℕ, ◌+◌, ◌*◌, ◌≤◌, ◌≡◌, true, false, refl, arith, u64_max}
use ghost_blockchain.Environment.{Hashing}
use ghost_blockchain.Miner.{MiningBlockHeader, Miner, Pc, Mining, advance_at, stop, AllDone, Run}
use ghost_blockchain.Miner.Safety.{IsHit}
use ghost_blockchain.Miner.Fairness.{turns, Run-found}
use ghost_blockchain.Miner.Turns.{Works, Lowers, quiet-terminates}

-- A bound on the steps that a thread takes once the miner does not run: a thread in the middle of a
-- round ends it, with the three stores if it finds a hit.
abbrev rank : Pc → ℕ
rank Pc.done = 0
rank Pc.load_running = 1
rank Pc.store_running = 1
rank Pc.store_nonce = 2
rank Pc.store_found = 3
rank Pc.hash = 4
rank Pc.load_found = 5

rank_le : (pc : Pc) → rank pc ≤ 5
rank_le Pc.load_running = omega arith
rank_le Pc.load_found = omega arith
rank_le Pc.hash = omega arith
rank_le Pc.store_found = omega arith
rank_le Pc.store_nonce = omega arith
rank_le Pc.store_running = omega arith
rank_le Pc.done = omega arith

-- The same once a solution is found: a thread that tests for it ends.
abbrev found_rank : Pc → ℕ
found_rank Pc.done = 0
found_rank Pc.load_found = 1
found_rank Pc.store_running = 1
found_rank Pc.load_running = 2
found_rank Pc.store_nonce = 2
found_rank Pc.store_found = 3
found_rank Pc.hash = 4

found_rank_le : (pc : Pc) → found_rank pc ≤ 4
found_rank_le Pc.load_running = omega arith
found_rank_le Pc.load_found = omega arith
found_rank_le Pc.hash = omega arith
found_rank_le Pc.store_found = omega arith
found_rank_le Pc.store_nonce = omega arith
found_rank_le Pc.store_running = omega arith
found_rank_le Pc.done = omega arith

module _ (hs : Hashing) (header : MiningBlockHeader) (miner : Miner) where
  stopped-Lowers : Lowers hs header miner (λ s. s.running ≡ false) rank
  unfolding advance_at
  stopped-Lowers s Pc.load_running n h k = ground arith
  stopped-Lowers s Pc.load_found n h k = ground arith
  stopped-Lowers s Pc.hash n h k = ground arith
  stopped-Lowers s Pc.store_found n h k = ground arith
  stopped-Lowers s Pc.store_nonce n h k = ground arith
  stopped-Lowers s Pc.store_running n h k = ground arith
  stopped-Lowers s Pc.done n h k = absurd (k refl)

  found-Lowers : Lowers hs header miner (λ s. s.found_solution ≡ true) found_rank
  unfolding advance_at
  found-Lowers s Pc.load_running n h k = ground arith
  found-Lowers s Pc.load_found n h k = ground arith
  found-Lowers s Pc.hash n h k = ground arith
  found-Lowers s Pc.store_found n h k = ground arith
  found-Lowers s Pc.store_nonce n h k = ground arith
  found-Lowers s Pc.store_running n h k = ground arith
  found-Lowers s Pc.done n h k = absurd (k refl)

  -- After a `stop` in any state, whatever steps the threads have taken since, they can go on until
  -- every thread has ended; and from the `stop` on, that is at most five steps for each thread in all,
  -- however they interleave.
  pub stop-terminates :
      (n : ℕ) (m u : Mining)
      → Works hs header miner n (stop hs header miner m) u
      → (k : ℕ) × (w : Mining) × Works hs header miner k u w
        × AllDone hs header miner w
        × (n + k ≤ 5 * miner.threads)
  unfolding stop
  stop-terminates n m u done =
      quiet-terminates hs header miner (λ s. s.running ≡ false) rank stopped-Lowers 5 rank_le n
        (stop hs header miner m) u refl done

  -- Whichever way the threads of a miner that nobody stops take turns, if the `k`-th nonce of thread
  -- `i`, `i + k * threads`, is a hit and fits in a `u64`, then the miner has found a solution once thread
  -- `i` has taken `3 * k + 4` steps; and from there on, whatever steps the threads have taken since,
  -- they can go on until every thread has ended, within four steps for each thread in all.
  pub Run-terminates :
      (i k : ℕ) (m : Mining) (r : Run hs header miner m)
      → i + k * miner.threads ≤ u64_max
      → IsHit hs header miner (i + k * miner.threads)
      → 3 * k + 4 ≤ turns hs header miner i r
      → (m.shared.found_solution ≡ true)
        × ((n : ℕ) (u : Mining)
            → Works hs header miner n m u
            → (j : ℕ) × (w : Mining) × Works hs header miner j u w
              × AllDone hs header miner w
              × (n + j ≤ 4 * miner.threads))
  Run-terminates i k m r fits hit enough =
      let solved = Run-found hs header miner i k m r fits hit enough in
      (
        solved,
        λ n u done.
            quiet-terminates hs header miner (λ s. s.found_solution ≡ true) found_rank found-Lowers
              4 found_rank_le n m u solved done,
      )
