-- ===== src/Miner/Turns.antt =====
-- When the threads of node/src/miner.rs end: a rank of their places in the loop that each step lowers,
-- under a condition on the shared atomics that each step keeps.
use ghost_blockchain.Base.{
  ℕ, zero, suc, ◌+◌, ◌*◌, ◌≤◌, ◌<◌, ◌≡◌, ◌≢◌, refl, arith, ℕ_discrete, ap, subst, sym, ◌⊎◌, inl,
  inr,
}
use ghost_blockchain.Environment.{Hashing}
use ghost_blockchain.Miner.{
  MiningBlockHeader, Miner, Shared, Pc, Mining, advance_at, advance, run_thread, AllDone,
}

-- The ranks of the threads below `k` together.
abbrev pub remaining : (rank : Pc → ℕ) → (k : ℕ) → Mining → ℕ
remaining rank zero m = 0
remaining rank (suc k) m = rank (m.thread k).pc + remaining rank k m

-- A thread below `k` that has not ended, if there is one.
busy_cases :
    (k : ℕ) (m : Mining)
    → ((i : ℕ) × (i < k) × ((m.thread i).pc ≢ Pc.done))
      ⊎ ((i : ℕ) → i < k → (m.thread i).pc ≡ Pc.done)
busy_cases zero m = inr (λ i lt. absurd (omega arith))
busy_cases (suc k) m = elim (busy_cases k m) [
  | inl (i, lt, busy) ↦ inl (i, omega (arith, lt), busy)
  | inr all ↦ elim (pc_discrete (m.thread k).pc Pc.done) [
    | yes ended ↦ inr (λ i lt. elim (ℕ_discrete i k) [
      | yes same ↦ rw same ended
      | no other ↦ all i (omega (arith, lt, other))
    ])
    | no busy ↦ inl (k, omega arith, busy)
  ]
]
  where
    pc_discrete : Discrete Pc
    pc_discrete = hlevel

module _ (hs : Hashing) (header : MiningBlockHeader) (miner : Miner) where
  -- The other threads keep their state.
  pub run_thread-thread :
      (i j : ℕ) (m : Mining)
      → let u = run_thread hs header miner i m in
        let (s, t) = advance_at hs header miner m.shared (m.thread i).pc (m.thread i).nonce in
        (u.shared ≡ s) × (j ≡ i → u.thread j ≡ t) × (j ≢ i → u.thread j ≡ m.thread j)
  unfolding run_thread advance
  run_thread-thread i j m = ground arith

  -- `n` steps of threads that have not ended.
  pub data Works : ℕ → Mining → Mining → Type 0 where
    rests : {m : Mining} → Works 0 m m
    works :
        {n : ℕ} {m u : Mining} (i : ℕ)
        → i < miner.threads
        → (m.thread i).pc ≢ Pc.done
        → Works n (run_thread hs header miner i m) u
        → Works (suc n) m u

  -- Every step of a thread that has not ended keeps the condition and lowers the rank.
  abbrev pub Lowers : (Quiet : Shared → Type 0) → (rank : Pc → ℕ) → Type 0
  Lowers Quiet rank =
      (s : Shared) (pc : Pc) (n : ℕ)
      → Quiet s
      → pc ≢ Pc.done
      → let (s', t) = advance_at hs header miner s pc n in Quiet s' × (rank t.pc < rank pc)

  module _ (Quiet : Shared → Type 0) (rank : Pc → ℕ) (lowers : Lowers Quiet rank) where
    step-Quiet :
        (i : ℕ) (m : Mining)
        → Quiet m.shared
        → (m.thread i).pc ≢ Pc.done
        → Quiet (run_thread hs header miner i m).shared
    step-Quiet i m h busy =
        subst Quiet (sym (run_thread-thread i i m).0)
          (lowers m.shared (m.thread i).pc (m.thread i).nonce h busy).0

    run_thread-remaining :
        (k i : ℕ) (m : Mining)
        → Quiet m.shared
        → (m.thread i).pc ≢ Pc.done
        → let u = run_thread hs header miner i m in
          (k ≤ i → remaining rank k u ≡ remaining rank k m)
          × (i < k → remaining rank k u < remaining rank k m)
    run_thread-remaining zero i m h busy = (λ le. refl, λ lt. absurd (omega arith))
    run_thread-remaining (suc k) i m h busy =
        let (same, less) = run_thread-remaining k i m h busy in
        let (shared, moved, kept) = run_thread-thread i k m in
        let step = lowers m.shared (m.thread i).pc (m.thread i).nonce h busy in
        elim (ℕ_discrete k i) [
          | yes this ↦ (
            λ le. absurd (omega (arith, this, le)),
            λ lt. rw (moved this) (
                omega (
                  arith,
                  same (omega (arith, this)),
                  step.1,
                  ap (λ (j : ℕ). rank (m.thread j).pc) this,
                )),
          )
          | no other ↦ (
            λ le. rw (kept other) (omega (arith, same (omega (arith, le)))),
            λ lt. rw (kept other) (omega (arith, less (omega (arith, lt, other)))),
          )
        ]

    Works-remaining :
        (n : ℕ) (m u : Mining)
        → Works n m u
        → Quiet m.shared
        → Quiet u.shared × (n + remaining rank miner.threads u ≤ remaining rank miner.threads m)
    Works-remaining _ m _ rests h = (h, omega arith)
    Works-remaining _ m u (works {n} i lt busy rest) h =
        let m' = run_thread hs header miner i m in
        let later = Works-remaining n m' u rest (step-Quiet i m h busy) in
        (later.0, omega (arith, later.1, (run_thread-remaining miner.threads i m h busy).1 lt))

    -- The threads that have not ended can take turns until all of them have.
    finish :
        (fuel : ℕ) (m : Mining)
        → Quiet m.shared
        → remaining rank miner.threads m ≤ fuel
        → (k : ℕ) × (w : Mining) × Works k m w × AllDone hs header miner w
    finish zero m h bound = elim (busy_cases miner.threads m) [
      | inr all ↦ (0, m, rests, all)
      | inl (i, lt, busy) ↦
          absurd (omega (arith, (run_thread-remaining miner.threads i m h busy).1 lt, bound))
    ]
    finish (suc fuel) m h bound = elim (busy_cases miner.threads m) [
      | inr all ↦ (0, m, rests, all)
      | inl (i, lt, busy) ↦
          let m' = run_thread hs header miner i m in
          let less : remaining rank miner.threads m' ≤ fuel =
            omega (arith, (run_thread-remaining miner.threads i m h busy).1 lt, bound) in
          let (k, w, run, all) = finish fuel m' (step-Quiet i m h busy) less in
          (suc k, w, works i lt busy run, all)
    ]

    remaining_le :
        (most : ℕ)
        → ((pc : Pc) → rank pc ≤ most)
        → (k : ℕ) (m : Mining) → remaining rank k m ≤ most * k
    remaining_le most top zero m = omega arith
    remaining_le most top (suc k) m =
        let next' : most * suc k ≡ most * k + most = grind arith in
        omega (arith, next', remaining_le most top k m, top (m.thread k).pc)

    -- From a quiet state on, after any steps of threads that have not ended, they can go on until all
    -- have, within the highest rank for each thread in all.
    pub quiet-terminates :
        (most : ℕ)
        → ((pc : Pc) → rank pc ≤ most)
        → (n : ℕ) (m u : Mining) → Quiet m.shared
        → Works n m u
        → (k : ℕ) × (w : Mining) × Works k u w
          × AllDone hs header miner w
          × (n + k ≤ most * miner.threads)
    quiet-terminates most top n m u h done =
        let bound = Works-remaining n m u done h in
        let highest = remaining_le most top miner.threads m in
        let (k, w, run, all) = finish (remaining rank miner.threads u) u bound.0 (omega arith) in
        (k, w, run, all, omega (arith, bound.1, highest, (Works-remaining k u w run bound.0).1))
