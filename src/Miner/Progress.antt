-- ===== src/Miner/Progress.antt =====
-- A run of the miner that nobody stops ends with a solution, and a thread on its own reaches the
-- first hit among its nonces.
use ghost_blockchain.Base.{
  ℕ, zero, suc, ◌+◌, ◌*◌, ◌≤◌, ◌<◌, ◌≡◌, ◌≢◌, ◌⊎◌, inr, true, false, none, arith, ℕ_discrete, refl,
  wrap_u64, u64_max, ◌∙◌, ap, sym, subst,
}
use ghost_blockchain.Environment.{Hashing}
use ghost_blockchain.Miner.{
  MiningBlockHeader, Miner, Shared, Pc, Thread, Mining, hash_value, target, advance_at, advance,
  run_thread, start, Run, started, ran, runs, AllDone, result,
}
use ghost_blockchain.Miner.Safety.{IsHit}

module _ (hs : Hashing) (header : MiningBlockHeader) (miner : Miner) where
  -- The threads that are past the store of the flag, or have ended.
  abbrev pub IsPast : Pc → Type 0
  IsPast pc = (pc ≡ Pc.store_nonce) ⊎ ((pc ≡ Pc.store_running) ⊎ (pc ≡ Pc.done))

  -- Without a call of `stop`, the miner runs until the flag is set.
  pub record IsBusy (m : Mining) : Type 0 where
    pub while_running : m.shared.running ≡ false → m.shared.found_solution ≡ true
    pub past : (i : ℕ) → i < miner.threads → IsPast (m.thread i).pc → m.shared.found_solution ≡ true

  pub advance_at-found :
      (s : Shared) (pc : Pc) (n : ℕ)
      → (s.running ≡ false → s.found_solution ≡ true)
      → (IsPast pc → s.found_solution ≡ true)
      → let (s', t) = advance_at hs header miner s pc n in
        (s'.running ≡ false → s'.found_solution ≡ true)
        × (IsPast t.pc → s'.found_solution ≡ true)
        × (s.found_solution ≡ true → s'.found_solution ≡ true)
  unfolding advance_at
  advance_at-found s Pc.load_running n h k = ground arith
  advance_at-found s Pc.load_found n h k = ground arith
  advance_at-found s Pc.hash n h k = ground arith
  advance_at-found s Pc.store_found n h k = ground arith
  advance_at-found s Pc.store_nonce n h k = ground arith
  advance_at-found s Pc.store_running n h k = ground arith
  advance_at-found s Pc.done n h k = ground arith

  run_thread-IsBusy :
      (i : ℕ) (m : Mining) → i < miner.threads → IsBusy m → IsBusy (run_thread hs header miner i m)
  unfolding run_thread advance
  run_thread-IsBusy i m lt h =
      let (running, past, kept) =
        advance_at-found m.shared (m.thread i).pc (m.thread i).nonce h.while_running
          (h.past i lt) in
      record {
        while_running = running;
        past = λ j ltj p. elim (ℕ_discrete j i) [
          | yes same ↦ past (ground arith)
          | no other ↦ kept (h.past j ltj (ground arith))
        ];
      }

  pub Run-IsBusy : (m : Mining) → Run hs header miner m → IsBusy m
  unfolding start
  Run-IsBusy _ started = record { while_running = λ e. cc; past = λ i lt p. absurd (ground arith) }
  Run-IsBusy _ (ran {m} r (runs i lt)) = run_thread-IsBusy i m lt (Run-IsBusy m r)

  -- A run with at least one thread that nobody stops has, once every thread is done, a solution.
  pub result-unstopped :
      {F : Type 0} (hash_rate : (hashes elapsed : ℕ) → F) (elapsed : ℕ) (m : Mining)
      → 0 < miner.threads
      → Run hs header miner m
      → AllDone hs header miner m
      → result hs header miner hash_rate elapsed m ≢ none
  unfolding result
  result-unstopped hash_rate elapsed m pos r finished =
      let h = Run-IsBusy m r in
      let solved = h.past 0 pos (inr (inr (finished 0 pos))) in ground arith

  -- Thread `i` takes `n` steps on its own.
  abbrev pub run_alone : (n i : ℕ) → Mining → Mining
  run_alone zero i m = m
  run_alone (suc n) i m = run_alone n i (run_thread hs header miner i m)

  -- What thread `i` sees: the atomics and its own state.
  abbrev view : ℕ → Mining → Shared × Thread
  view i m = (m.shared, m.thread i)

  abbrev advance_view : Shared × Thread → Shared × Thread
  advance_view (s, t) = advance hs header miner s t

  abbrev advances : ℕ → Shared × Thread → Shared × Thread
  advances zero v = v
  advances (suc n) v = advances n (advance_view v)

  run_alone-view : (n i : ℕ) (m : Mining) → view i (run_alone n i m) ≡ advances n (view i m)
  unfolding run_thread
  run_alone-view zero i m = refl
  run_alone-view (suc n) i m =
      let one : view i (run_thread hs header miner i m) ≡ advance_view (view i m) = ground arith in
      run_alone-view n i (run_thread hs header miner i m) ∙ ap (advances n) one

  -- A thread at the head of its loop, with the miner running and nothing found.
  pub record IsAt (nonce : ℕ) (v : Shared × Thread) : Type 0 where
    pub at_pc : v.1.pc ≡ Pc.load_running
    pub at_nonce : v.1.nonce ≡ nonce
    pub is_running : v.0.running ≡ true
    pub none_found : v.0.found_solution ≡ false

  -- A miss takes three steps, to the thread's next nonce.
  advances-miss :
      (nonce : ℕ) (v : Shared × Thread)
      → target hs header miner < hash_value hs header miner nonce
      → IsAt nonce v
      → IsAt (wrap_u64 (nonce + miner.threads)) (advances 3 v)
  unfolding advance advance_at
  advances-miss nonce v miss h = ground arith

  -- A hit takes six, and ends the thread.
  advances-hit :
      (nonce : ℕ) (v : Shared × Thread)
      → IsHit hs header miner nonce
      → IsAt nonce v
      → let (s, t) = advances 6 v in
        (t.pc ≡ Pc.done) × (s.found_solution ≡ true) × (s.found_nonce ≡ nonce)
  unfolding advance advance_at
  advances-hit nonce v hit h = ground arith

  -- The steps to the `k`-th nonce and through the stores.
  abbrev steps : ℕ → ℕ
  steps zero = 6
  steps (suc k) = suc (suc (suc (steps k)))

  steps_lem : (k : ℕ) → steps k ≡ 3 * k + 6
  steps_lem zero = omega arith
  steps_lem (suc k) = omega (arith, steps_lem k)

  advances-first :
      (k nonce : ℕ) (v : Shared × Thread)
      → IsAt nonce v
      → nonce + k * miner.threads ≤ u64_max
      → ((j : ℕ)
          → j < k
          → target hs header miner < hash_value hs header miner (nonce + j * miner.threads))
      → IsHit hs header miner (nonce + k * miner.threads)
      → let (s, t) = advances (steps k) v in
        (t.pc ≡ Pc.done) × (s.found_solution ≡ true) × (s.found_nonce ≡ nonce + k * miner.threads)
  advances-first zero nonce v at' fits miss hit =
      let same : nonce + 0 * miner.threads ≡ nonce = grind arith in
      rw same (advances-hit nonce v (subst (IsHit hs header miner) same hit) at')
  advances-first (suc k) nonce v at' fits miss hit =
      let T = miner.threads in
      let bound : nonce + T ≤ u64_max = grind arith in
      let moved : wrap_u64 (nonce + T) ≡ nonce + T = omega arith in
      let shift : (j : ℕ) → nonce + suc j * T ≡ nonce + T + j * T = λ j. grind arith in
      let first : target hs header miner < hash_value hs header miner nonce =
        subst (λ x. target hs header miner < hash_value hs header miner x) (grind arith)
          (miss 0 (omega arith)) in
      rw (shift k) (
        advances-first k (nonce + T) (advances 3 v)
          (subst (λ x. IsAt x (advances 3 v)) moved (advances-miss nonce v first at'))
          (subst (λ x. x ≤ u64_max) (shift k) fits)
          (λ j lt.
            subst (λ x. target hs header miner < hash_value hs header miner x) (shift j)
              (miss (suc j) (omega arith)))
          (subst (IsHit hs header miner) (shift k) hit))

  -- Thread `i` on its own reaches the first hit among the nonces `i`, `i + threads`, `i + 2 *
  -- threads` and so on, if it fits in a `u64`: after three steps for each miss and six for the hit
  -- it has ended and stored that nonce.
  pub run_alone-first :
      (i k : ℕ)
      → i + k * miner.threads ≤ u64_max
      → ((j : ℕ)
          → j < k
          → target hs header miner < hash_value hs header miner (i + j * miner.threads))
      → IsHit hs header miner (i + k * miner.threads)
      → let m = run_alone (3 * k + 6) i (start hs header miner) in
        ((m.thread i).pc ≡ Pc.done)
        × (m.shared.found_solution ≡ true)
        × (m.shared.found_nonce ≡ i + k * miner.threads)
  unfolding start
  run_alone-first i k fits miss hit =
      let m = run_alone (3 * k + 6) i (start hs header miner) in
      let seen : view i m ≡ advances (steps k) (view i (start hs header miner)) =
        run_alone-view (3 * k + 6) i (start hs header miner)
        ∙ ap (λ n. advances n (view i (start hs header miner))) (sym (steps_lem k)) in
      let (ended, solved, nonce) =
        advances-first k i (view i (start hs header miner))
          (record { at_pc = refl; at_nonce = refl; is_running = refl; none_found = refl }) fits miss
          hit in
      (
        ap (λ v. v.1.pc) seen ∙ ended,
        ap (λ v. v.0.found_solution) seen ∙ solved,
        ap (λ v. v.0.found_nonce) seen ∙ nonce,
      )
