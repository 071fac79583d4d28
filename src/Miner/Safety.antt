-- ===== src/Miner/Safety.antt =====
-- A nonce that the miner returns is one that the pallet accepts, whatever the interleaving.
use ghost_blockchain.Base.{
  ℕ, ◌≤◌, ◌<◌, ◌≡◌, ◌≢◌, ◌⊎◌, inl, inr, true, some, arith, Bool-cases, refl,
}
use ghost_blockchain.Environment.{Hashing}
use ghost_blockchain.Types.{GhostBlockHeader}
use ghost_blockchain.Pow.{hash_input, verify_pow_enhanced}
use ghost_blockchain.Miner.{
  mining_input, MiningBlockHeader, Miner, Shared, Pc, Mining, hash_value, target, advance_at,
  advance, run_thread, stop, start, Reach, started, ran, stopped, runs, AllDone, result,
  MiningStats,
}

module _ (hs : Hashing) (header : MiningBlockHeader) (miner : Miner) where
  abbrev pub IsHit : (nonce : ℕ) → Type 0
  IsHit nonce = hash_value hs header miner nonce ≤ target hs header miner

  -- What a thread that has left the loop for its stores holds is a hit.
  abbrev pub HoldsHit : Pc → (nonce : ℕ) → Type 0
  HoldsHit Pc.store_found n = IsHit n
  HoldsHit Pc.store_nonce n = IsHit n
  HoldsHit Pc.store_running n = IsHit n
  HoldsHit _ n = Unit

  -- The stored nonce is a hit as soon as `found_solution` is set, but for a thread between its two
  -- stores.
  pub record IsSound (m : Mining) : Type 0 where
    pub holding : (i : ℕ) → i < miner.threads → HoldsHit (m.thread i).pc (m.thread i).nonce
    pub found :
        m.shared.found_solution ≡ true
        → IsHit m.shared.found_nonce
          ⊎ ((i : ℕ) × (i < miner.threads) × ((m.thread i).pc ≡ Pc.store_nonce))

  advance_at-HoldsHit :
      (s : Shared) (pc : Pc) (n : ℕ)
      → HoldsHit pc n
      → let t = (advance_at hs header miner s pc n).1 in HoldsHit t.pc t.nonce
  unfolding advance_at
  advance_at-HoldsHit s Pc.load_running n h = ground arith
  advance_at-HoldsHit s Pc.load_found n h = ground arith
  advance_at-HoldsHit s Pc.hash n h = ground arith
  advance_at-HoldsHit s Pc.store_found n h = h
  advance_at-HoldsHit s Pc.store_nonce n h = h
  advance_at-HoldsHit s Pc.store_running n h = tt
  advance_at-HoldsHit s Pc.done n h = tt

  -- What a step of a thread does to the two atomics of the solution.
  advance_at-found :
      (s : Shared) (pc : Pc) (n : ℕ)
      → HoldsHit pc n
      → let (s', t) = advance_at hs header miner s pc n in
        s'.found_solution ≡ true
        → (t.pc ≡ Pc.store_nonce)
          ⊎ (IsHit s'.found_nonce
              ⊎ ((s.found_solution ≡ true)
                  × (s'.found_nonce ≡ s.found_nonce)
                  × (pc ≢ Pc.store_nonce)))
  unfolding advance_at
  advance_at-found s Pc.load_running n h e = inr (inr (e, refl, λ q. cc))
  advance_at-found s Pc.load_found n h e = inr (inr (e, refl, λ q. cc))
  advance_at-found s Pc.hash n h e = inr (inr (e, refl, λ q. cc))
  advance_at-found s Pc.store_found n h e = inl refl
  advance_at-found s Pc.store_nonce n h e = inr (inl h)
  advance_at-found s Pc.store_running n h e = inr (inr (e, refl, λ q. cc))
  advance_at-found s Pc.done n h e = inr (inr (e, refl, λ q. cc))

  run_thread-IsSound :
      (i : ℕ) (m : Mining)
      → i < miner.threads
      → IsSound m
      → IsSound (run_thread hs header miner i m)
  unfolding run_thread advance
  run_thread-IsSound i m lt h =
      let pc = (m.thread i).pc in
      let n = (m.thread i).nonce in
      let holds = h.holding i lt in
      record {
        holding = λ j ltj. ground (arith, h.holding j ltj, advance_at-HoldsHit m.shared pc n holds);
        found = λ e. elim (advance_at-found m.shared pc n holds e) [
          | inl q ↦ inr (i, lt, ground arith)
          | inr (inl good) ↦ inl good
          | inr (inr (old, same, other)) ↦ elim (h.found old) [
            | inl good ↦ inl (rw same good)
            | inr (j, ltj, q) ↦ inr (j, ltj, ground arith)
          ]
        ];
      }

  Reach-IsSound : (m : Mining) → Reach hs header miner m → IsSound m
  unfolding start stop
  Reach-IsSound _ started = record { holding = λ i lt. tt; found = λ e. cc }
  Reach-IsSound _ (ran {m} r (runs i lt)) = run_thread-IsSound i m lt (Reach-IsSound m r)
  Reach-IsSound _ (stopped {m} r) =
      let h = Reach-IsSound m r in record { holding = h.holding; found = h.found }

  -- When every thread is done, whichever way the threads interleaved and whenever the miner was
  -- stopped, a nonce that is returned has its double hash within the target, with one block found.
  pub result-IsHit :
      {F : Type 0} (hash_rate : (hashes elapsed : ℕ) → F) (elapsed : ℕ) (m : Mining)
      → Reach hs header miner m
      → AllDone hs header miner m
      → (nonce : ℕ) (stats : MiningStats F)
      → result hs header miner hash_rate elapsed m ≡ some (nonce, stats)
      → IsHit nonce × (stats.blocks_found ≡ 1)
  unfolding result
  result-IsHit hash_rate elapsed m r finished nonce stats e =
      let h = Reach-IsSound m r in
      elim (Bool-cases m.shared.found_solution) [
        | inr missing ↦ absurd (ground arith)
        | inl solved ↦ elim (h.found solved) [
          | inl good ↦ ground arith
          | inr (i, lt, q) ↦ absurd (cc (q, finished i lt))
        ]
      ]

  -- The pallet's `verify_pow_enhanced` accepts a header with the miner's fields and a returned
  -- nonce, at the difficulty of the miner's header.
  pub result-verify_pow_enhanced :
      {F : Type 0} (hash_rate : (hashes elapsed : ℕ) → F) (elapsed : ℕ) (m : Mining)
      → Reach hs header miner m
      → AllDone hs header miner m
      → (nonce : ℕ) (stats : MiningStats F)
      → result hs header miner hash_rate elapsed m ≡ some (nonce, stats)
      → (block : GhostBlockHeader) → hash_input block ≡ mining_input header nonce
      → verify_pow_enhanced hs block header.difficulty ≡ true
  unfolding verify_pow_enhanced
  result-verify_pow_enhanced hash_rate elapsed m r finished nonce stats e block same =
      let (hit, one) = result-IsHit hash_rate elapsed m r finished nonce stats e in
      rw same (ground arith)
