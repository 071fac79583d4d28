-- ===== src/Runtime/Laws.antt =====
-- What the runtime's configuration guarantees, and what its presets set up.
use ghost_blockchain.Base.{
  ℕ, ◌*◌, ◌≤◌, ◌≡◌, [], ◌∷◌, ◌+◌, ◌^◌, map, length, refl, ap, List, arith, u128_max,
}
use ghost_blockchain.Types.{SlashingReason}
use ghost_blockchain.Pallet.Report.{slash_of, slash_percentage}
use ghost_blockchain.Runtime.{runtime_config}
use ghost_blockchain.Runtime.Genesis.{genesis_balance, testnet_genesis}

-- Under the runtime's configuration no slash exceeds the stake, if 100 times the stake fits in a
-- `u128`; a report of double signing takes all of it.
pub runtime_slash_le :
    (stake : ℕ) (reason : SlashingReason)
    → stake * 100 ≤ u128_max
    → (slash_of stake (slash_percentage runtime_config reason) ≤ stake)
      × (slash_of stake (slash_percentage runtime_config SlashingReason.double_signing) ≡ stake)
unfolding slash_of slash_percentage
runtime_slash_le stake SlashingReason.double_signing h = (omega arith, omega arith)
runtime_slash_le stake SlashingReason.invalid_block h = (omega arith, omega arith)
runtime_slash_le stake SlashingReason.downtime h = (omega arith, omega arith)
runtime_slash_le stake SlashingReason.other h = (omega arith, omega arith)

-- The sum of the genesis balances.
abbrev pub issued : List (ℕ × ℕ) → ℕ
issued [] = 0
issued ((_, v) ∷ m) = v + issued m

issued-map :
    (accounts : List ℕ)
    → issued (map (λ k. (k, genesis_balance)) accounts) ≡ length accounts * genesis_balance
issued-map [] = refl
issued-map (a ∷ as') = omega (arith, issued-map as')

-- A testnet genesis endows every listed account with `2 ^ 60` units and nobody else, so that it
-- issues that amount for each, and it names as many Aura as GRANDPA authorities.
pub testnet_genesis_lem :
    (authorities : List (ℕ × ℕ)) (endowed : List ℕ) (root : ℕ)
    → let g = testnet_genesis authorities endowed root in
      (map (λ b. b.0) g.balances ≡ endowed)
      × (issued g.balances ≡ length endowed * 2 ^ 60)
      × (length g.aura_authorities ≡ length g.grandpa_authorities)
unfolding testnet_genesis
testnet_genesis_lem authorities endowed root =
    (names endowed, issued-map endowed, counts authorities)
  where
    names : (xs : List ℕ) → map (λ (b : ℕ × ℕ). b.0) (map (λ k. (k, genesis_balance)) xs) ≡ xs
    names [] = refl
    names (x ∷ xs) = ap (λ ys. x ∷ ys) (names xs)

    counts :
        (xs : List (ℕ × ℕ))
        → length (map (λ (x : ℕ × ℕ). x.0) xs)
          ≡ length (map {B = ℕ × ℕ} (λ (x : ℕ × ℕ). (x.1, 1)) xs)
    counts [] = refl
    counts (x ∷ xs) = omega (arith, counts xs)
