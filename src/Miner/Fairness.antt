-- ===== src/Miner/Fairness.antt =====
-- Interleavings of the miner's threads of node/src/miner.rs in which a thread gets its turns.
use ghost_blockchain.Base.{
  ℕ, suc, ◌+◌, ◌-◌, ◌*◌, ◌≤◌, ◌<◌, ◌≡◌, ◌≢◌, ◌⊎◌, leb, inl, inr, true, false, refl, subst, ap, ap,
  ◌∙◌, arith, ℕ_discrete, Bool-cases, ◌==◌, if◌then◌else◌, u64_max,
}
use ghost_blockchain.Base.Division.{mul_mono_right}
use ghost_blockchain.Environment.{Hashing}
use ghost_blockchain.Miner.{
  MiningBlockHeader, Miner, Shared, Pc, Mining, hash_value, target, advance_at, run_thread, start,
  Run, started, ran, runs,
}
use ghost_blockchain.Miner.Safety.{IsHit}
use ghost_blockchain.Miner.Progress.{IsBusy, IsPast, Run-IsBusy}
use ghost_blockchain.Miner.Turns.{run_thread-thread}

module _ (hs : Hashing) (header : MiningBlockHeader) (miner : Miner) where
  -- How many steps of a run are those of thread `i`.
  abbrev pub turns : (i : ℕ) → {m : Mining} → Run hs header miner m → ℕ
  turns i started = 0
  turns i (ran r (runs j lt)) = turns i r + (if j == i then 1 else 0)

  advance_at_keeps :
      (s : Shared) (pc : Pc) (n : ℕ)
      → s.found_solution ≡ true
      → (advance_at hs header miner s pc n).0.found_solution ≡ true
  unfolding advance_at
  advance_at_keeps s Pc.load_running n h = h
  advance_at_keeps s Pc.load_found n h = h
  advance_at_keeps s Pc.hash n h = h
  advance_at_keeps s Pc.store_found n h = refl
  advance_at_keeps s Pc.store_nonce n h = h
  advance_at_keeps s Pc.store_running n h = h
  advance_at_keeps s Pc.done n h = h

  module _ (i k : ℕ) (fits : i + k * miner.threads ≤ u64_max)
      (hit : IsHit hs header miner (i + k * miner.threads)) where
    -- The steps that thread `i` needs at most to set the flag, `left` nonces before the hit.
    abbrev cost : Pc → (left' : ℕ) → ℕ
    cost Pc.load_running left' = 3 * left' + 4
    cost Pc.load_found left' = 3 * left' + 3
    cost Pc.hash left' = 3 * left' + 2
    cost _ left' = 1

    -- The thread is before its stores, or about to set the flag, at a nonce up to the hit's.
    record IsOnWay (d : ℕ) (pc : Pc) (nonce : ℕ) : Type 0 where
      place : ℕ
      before_hit : place ≤ k
      at_place : nonce ≡ i + place * miner.threads
      early : ¬ IsPast hs header miner pc
      costs : cost pc (k - place) ≤ d

    advance_at-IsOnWay :
        (s : Shared) (pc : Pc) (n d : ℕ)
        → s.running ≡ true
        → s.found_solution ≡ false
        → IsOnWay (suc d) pc n
        → let (s', t) = advance_at hs header miner s pc n in
          (s'.found_solution ≡ true) ⊎ IsOnWay d t.pc t.nonce
    unfolding advance_at
    advance_at-IsOnWay s Pc.load_running n d running missing w = inr (
        rw running (record {
          place = w.place;
          before_hit = w.before_hit;
          at_place = w.at_place;
          early = λ p. ground arith;
          costs = omega (arith, w.costs);
        }))
    advance_at-IsOnWay s Pc.load_found n d running missing w = inr (
        rw missing (record {
          place = w.place;
          before_hit = w.before_hit;
          at_place = w.at_place;
          early = λ p. ground arith;
          costs = omega (arith, w.costs);
        }))
    advance_at-IsOnWay s Pc.hash n d running missing w =
        elim (Bool-cases (leb (hash_value hs header miner n) (target hs header miner))) [
          | inl good ↦ inr (
              rw good (record {
                place = w.place;
                before_hit = w.before_hit;
                at_place = w.at_place;
                early = λ p. ground arith;
                costs = omega (arith, w.costs);
              }))
          | inr miss ↦
              let other : w.place ≢ k = λ e. ground (arith, hit, miss, w.at_place, e) in
              let less : w.place < k = omega (arith, w.before_hit, other) in
              let step = mul_mono_right (w.place + 1) k miner.threads (omega arith) in
              let product : (w.place + 1) * miner.threads
                  ≡ w.place * miner.threads + miner.threads =
                grind arith in
              inr (
                rw miss (record {
                  place = w.place + 1;
                  before_hit = omega arith;
                  at_place = omega (arith, w.at_place, step, product, fits);
                  early = λ p. ground arith;
                  costs = omega (arith, w.costs, less);
                }))
        ]
    advance_at-IsOnWay s Pc.store_found n d running missing w = inl refl
    advance_at-IsOnWay s Pc.store_nonce n d running missing w = absurd (w.early (inl refl))
    advance_at-IsOnWay s Pc.store_running n d running missing w = absurd (w.early (inr (inl refl)))
    advance_at-IsOnWay s Pc.done n d running missing w = absurd (w.early (inr (inr refl)))

    IsOnWay-pos : (d : ℕ) (pc : Pc) (n : ℕ) → IsOnWay d pc n → 0 < d
    IsOnWay-pos d Pc.load_running n w = omega (arith, w.costs)
    IsOnWay-pos d Pc.load_found n w = omega (arith, w.costs)
    IsOnWay-pos d Pc.hash n w = omega (arith, w.costs)
    IsOnWay-pos d Pc.store_found n w = omega (arith, w.costs)
    IsOnWay-pos d Pc.store_nonce n w = omega (arith, w.costs)
    IsOnWay-pos d Pc.store_running n w = omega (arith, w.costs)
    IsOnWay-pos d Pc.done n w = omega (arith, w.costs)

    -- A solution is found, or the turns of thread `i` so far leave it on its way.
    abbrev Nears : (taken : ℕ) → Mining → Type 0
    Nears taken m =
        (m.shared.found_solution ≡ true)
        ⊎ ((d : ℕ) × (d + taken ≡ 3 * k + 4) × IsOnWay d (m.thread i).pc (m.thread i).nonce)

    -- A solution stays found.
    run_thread-found :
        (j : ℕ) (m : Mining)
        → m.shared.found_solution ≡ true
        → (run_thread hs header miner j m).shared.found_solution ≡ true
    run_thread-found j m h =
        ap (λ (s : Shared). s.found_solution) (run_thread-thread hs header miner j j m).0
        ∙ advance_at_keeps m.shared (m.thread j).pc (m.thread j).nonce h

    run_thread-Nears :
        (j taken : ℕ) (m : Mining)
        → IsBusy hs header miner m
        → Nears taken m
        → Nears (taken + (if j == i then 1 else 0)) (run_thread hs header miner j m)
    run_thread-Nears j taken m busy near = elim (Bool-cases m.shared.found_solution) [
      | inl solved ↦ inl (run_thread-found j m solved)
      | inr missing ↦ elim near [
        | inl solved ↦ absurd (cc (solved, missing))
        | inr (d, sum, w) ↦
            let (shared, moved, kept) = run_thread-thread hs header miner j i m in
            let running : m.shared.running ≡ true = elim (Bool-cases m.shared.running) [
              | inl on ↦ on
              | inr off ↦ absurd (cc (busy.while_running off, missing))
            ] in
            elim (ℕ_discrete i j) [
              | yes mine ↦
                  let (d', one) : (d' : ℕ) × (d ≡ suc d') =
                    (d - 1, omega (arith, IsOnWay-pos d (m.thread i).pc (m.thread i).nonce w)) in
                  let w' : IsOnWay (suc d') (m.thread j).pc (m.thread j).nonce =
                    subst (λ e. IsOnWay (suc d') (m.thread e).pc (m.thread e).nonce) mine
                      (subst (λ e. IsOnWay e (m.thread i).pc (m.thread i).nonce) one w) in
                  elim (advance_at-IsOnWay m.shared (m.thread j).pc (m.thread j).nonce d' running
                    missing w') [
                      | inl solved ↦ inl (ap (λ (s : Shared). s.found_solution) shared ∙ solved)
                      | inr next_way ↦
                          inr (d', ground (arith, one, sum, mine), rw (moved mine) next_way)
                    ]
              | no other ↦ inr (d, ground (arith, sum), rw (kept other) w)
            ]
      ]
    ]

    Run-Nears : (m : Mining) (r : Run hs header miner m) → Nears (turns i r) m
    unfolding start
    Run-Nears _ started = inr (
      3 * k + 4,
      omega arith,
      record {
        place = 0;
        before_hit = omega arith;
        at_place = omega arith;
        early = λ p. ground arith;
        costs = omega arith;
      },
    )
    Run-Nears _ (ran {m} r (runs j lt)) =
        run_thread-Nears j (turns i r) m (Run-IsBusy hs header miner m r) (Run-Nears m r)

  -- Whichever way the threads of a miner that nobody stops take turns, once thread `i` has taken `3
  -- * k + 4` steps a solution is found, if the `k`-th of its nonces, `i + k * threads`, is a hit
  -- and fits in a `u64`.
  pub Run-found :
      (i k : ℕ) (m : Mining) (r : Run hs header miner m)
      → i + k * miner.threads ≤ u64_max
      → IsHit hs header miner (i + k * miner.threads)
      → 3 * k + 4 ≤ turns i r
      → m.shared.found_solution ≡ true
  Run-found i k m r fits hit enough = elim (Run-Nears i k fits hit m r) [
    | inl solved ↦ solved
    | inr (d, sum, w) ↦ absurd (
        omega (arith, sum, enough, IsOnWay-pos i k fits hit d (m.thread i).pc (m.thread i).nonce w))
  ]
