-- ===== src/Pallet/Invariant/Chain.antt =====
-- The stored headers form a chain by number.
use ghost_blockchain.Base.{
  ℕ, ◌-◌, ◌≤◌, ◌<◌, ◌≡◌, ◌≢◌, none, some, arith, subst, sym, lookup, insert, StorageMap,
  lookup-insert, ℕ_discrete, ap, ◌∙◌,
}
use ghost_blockchain.Types.{GhostBlockHeader, PqcSignature}
use ghost_blockchain.Environment.{Environment}
use ghost_blockchain.State.{State}
use ghost_blockchain.Pow.{enhanced_value, hash_input}
use ghost_blockchain.Pallet.Stake.{register_pqc_key}
use ghost_blockchain.Pallet.Report.Slash.{report_misbehavior_outcome}
use ghost_blockchain.Pallet.Submit.{record_block}
use ghost_blockchain.Pallet.Validate.{sign_header}
use ghost_blockchain.Pallet.Hooks.{on_finalize}
use ghost_blockchain.Pallet.Hooks.Phases.{on_initialize-Untouched}
use ghost_blockchain.Pallet.Transitions.{
  Step, submits, stakes, unstakes, validates, reports, registers, begins, ends, elsewhere, Reach,
  here, next, submit_block-ok, stake-ok, unstake-ok, validate_block-ok,
}

module _ {L : Type 0} (env : Environment L) where
  -- What holds of the header stored under a number: it has that number, and above number 0 a header
  -- is stored below it, its miner is known, and its double hash is within the target that it
  -- states.
  pub record IsLinked (m : StorageMap GhostBlockHeader) (p : StorageMap ℕ) (k : ℕ)
      (h : GhostBlockHeader) : Type 0 where
    pub numbered : h.number ≡ k
    pub preceded : 0 < k → lookup (k - 1) m ≢ none
    pub produced : 0 < k → lookup k p ≢ none
    pub works : 0 < k → enhanced_value env.hashing (hash_input h) ≤ h.difficulty

  abbrev pub AllLinked : StorageMap GhostBlockHeader → StorageMap ℕ → Type 0
  AllLinked m p = (k : ℕ) (h : GhostBlockHeader) → lookup k m ≡ some h → IsLinked m p k h

  abbrev pub IsChain : State L → Type 0
  IsChain s = AllLinked s.block_headers s.block_producers

  -- A linked header that is written leaves all of them linked, if no producer is lost.
  insert-AllLinked :
      (m : StorageMap GhostBlockHeader) (p q : StorageMap ℕ) (j : ℕ) (new : GhostBlockHeader)
      → AllLinked m p
      → ((k : ℕ) → lookup k p ≢ none → lookup k q ≢ none)
      → IsLinked m q j new
      → AllLinked (insert env.before j new m) q
  insert-AllLinked m p q j new all kept good k h found = elim (ℕ_discrete k j) [
    | yes same ↦
        let is_new : h ≡ new = ground (arith, lookup-insert env.before j k new m) in
        ground (arith, good, is_new, lookup-insert env.before j (k - 1) new m)
    | no other ↦
        let old : lookup k m ≡ some h = ground (arith, lookup-insert env.before j k new m) in
        ground (arith, all k h old, kept k, lookup-insert env.before j (k - 1) new m)
  ]

  mined-IsChain :
      (miner : ℕ) (header parent : GhostBlockHeader) (s : State L)
      → 0 < header.number
      → lookup (header.number - 1) s.block_headers ≡ some parent
      → enhanced_value env.hashing (hash_input header) ≤ header.difficulty
      → IsChain s
      → IsChain (record_block env miner header s)
  unfolding record_block
  mined-IsChain miner header parent s pos found works h =
      insert-AllLinked s.block_headers s.block_producers
        (insert env.before header.number miner s.block_producers) header.number header h
        (λ k. ground (arith, lookup-insert env.before header.number k miner s.block_producers))
        (ground
          (arith, lookup-insert env.before header.number header.number miner s.block_producers))

  signed-IsChain :
      (validator k : ℕ) (sig : PqcSignature) (header : GhostBlockHeader) (s : State L)
      → lookup k s.block_headers ≡ some header
      → IsChain s
      → AllLinked
          (insert env.before k (sign_header env validator k sig header) s.block_headers)
          s.block_producers
  signed-IsChain validator k sig header s found h =
      insert-AllLinked s.block_headers s.block_producers s.block_producers k
        (sign_header env validator k sig header) h (λ j r. r) (ground (arith, h k header found))

  -- A step that leaves the headers and the producers alone keeps the chain.
  same-IsChain :
      (s t : State L)
      → t.block_headers ≡ s.block_headers
      → t.block_producers ≡ s.block_producers
      → IsChain s
      → IsChain t
  same-IsChain s t headers producers h =
      subst (λ p. AllLinked t.block_headers p) (sym producers)
        (subst (λ m. AllLinked m s.block_producers) (sym headers) h)

  Step-IsChain : (s t : State L) → Step env s t → IsChain s → IsChain t
  unfolding on_finalize register_pqc_key insert record_block
  Step-IsChain s t (submits miner header e) h =
      let ((parent, phase, pos, found, v), done) = submit_block-ok env miner header s t e in
      subst IsChain (sym done) (mined-IsChain miner header parent s pos found v.works h)
  Step-IsChain s t (stakes who amount other e) h =
      let (l, moved, done) = stake-ok env who amount s t e in
      same-IsChain s t (ap (λ u. u.block_headers) done) (ap (λ u. u.block_producers) done) h
  Step-IsChain s t (unstakes who amount other e) h =
      let (l, covered, moved, done) = unstake-ok env who amount s t e in
      same-IsChain s t (ap (λ u. u.block_headers) done) (ap (λ u. u.block_producers) done) h
  Step-IsChain s t (validates validator block_number sig e) h =
      let (header, selection, miner, v, found, done) =
        validate_block-ok env validator block_number sig s t e in
      subst IsChain (sym done) (signed-IsChain validator block_number sig header s v.stored h)
  Step-IsChain s t (reports reporter validator reason e) h =
      let same = report_misbehavior_outcome env reporter validator reason s in
      same-IsChain s t (ap (λ r. r.1.block_headers) (sym e) ∙ same.4)
        (ap (λ r. r.1.block_producers) (sym e) ∙ same.7) h
  Step-IsChain s t (registers validator public_key e) h =
      same-IsChain s t (ground arith) (ground arith) h
  Step-IsChain s t (begins n e) h =
      let u = on_initialize-Untouched env n (record s { block_number = n }) in
      same-IsChain s t (ap (λ r. r.block_headers) e ∙ u.same_headers)
        (ap (λ r. r.block_producers) e ∙ u.same_producers) h
  Step-IsChain s t (ends n e) h = same-IsChain s t (ground arith) (ground arith) h
  Step-IsChain s t (elsewhere l k e) h = same-IsChain s t (ground arith) (ground arith) h

  -- The chain holds in every state that is reached from one where it holds: a header is stored
  -- under its number, and above number 0 with a header below it, a known miner and its proof of
  -- work.
  pub Reach-IsChain : (s t : State L) → Reach env s t → IsChain s → IsChain t
  Reach-IsChain s _ here h = h
  Reach-IsChain s t (next {t = u} r st) h = Step-IsChain u t st (Reach-IsChain s u r h)
