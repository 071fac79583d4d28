-- ===== src/Worker/Search.antt =====
-- The mining worker finds the least nonce below its limit, if there is one.
use ghost_blockchain.Base.{
  ℕ, zero, suc, ◌+◌, ◌≤◌, ◌<◌, ◌≡◌, ◌⊎◌, inl, inr, true, false, none, some, arith, refl, ℕ_discrete,
  Bool-cases, Option,
}
use ghost_blockchain.Types.{GhostBlockHeader}
use ghost_blockchain.Environment.{Hashing}
use ghost_blockchain.Worker.{GhostMiningWorker, max_attempts, accepts, mine_from, mine_block}

module _ (hs : Hashing) (worker : GhostMiningWorker) (block_header : GhostBlockHeader) where
  -- The result of a search from `first` to below `end`: the least accepted nonce, or none.
  abbrev pub Searched : (first end : ℕ) (result : Option ℕ) → Type 0
  Searched first end r =
      ((nonce : ℕ) × (r ≡ some nonce)
        × (first ≤ nonce)
        × (nonce < end)
        × (accepts hs worker block_header nonce ≡ true)
        × ((j : ℕ) → first ≤ j → j < nonce → accepts hs worker block_header j ≡ false))
      ⊎ ((r ≡ none) × ((j : ℕ) → first ≤ j → j < end → accepts hs worker block_header j ≡ false))

  mine_from-Searched :
      (attempts first : ℕ)
      → Searched first (first + attempts) (mine_from hs worker block_header attempts first)
  unfolding mine_from
  mine_from-Searched zero first = inr (refl, λ j lo hi. absurd (omega arith))
  mine_from-Searched (suc attempts) first =
      elim (Bool-cases (accepts hs worker block_header first)) [
        | inl yes' ↦
            inl
              (first, rw yes' refl, omega arith, omega arith, yes', λ j lo hi. absurd (omega arith))
        | inr no' ↦ elim (mine_from-Searched attempts (first + 1)) [
          | inl (n, found, lo, hi, good, least) ↦ inl (
            n,
            rw no' found,
            omega arith,
            omega arith,
            good,
            λ j a b. elim (ℕ_discrete j first) [
              | yes same ↦ rw same no'
              | no other ↦ least j (omega arith) b
            ],
          )
          | inr (found, bad) ↦ inr (
            rw no' found,
            λ j a b. elim (ℕ_discrete j first) [
              | yes same ↦ rw same no'
              | no other ↦ bad j (omega arith) (omega arith)
            ],
          )
        ]
      ]

  -- `mine_block` returns the least of the first million nonces that `verify_pow_enhanced` accepts,
  -- or nothing if it accepts none of them.
  pub mine_block-Searched : Searched 0 max_attempts (mine_block hs worker block_header)
  unfolding mine_block
  mine_block-Searched = mine_from-Searched max_attempts 0
