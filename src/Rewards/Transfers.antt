-- ===== src/Rewards/Transfers.antt =====
-- What a transfer does to the balances of several accounts together, by the ledger that
-- `distribute_rewards` of pallets/pallet-ghost-consensus/src/functions.rs and the calls on stakes
-- use.
use ghost_blockchain.Base.{
  ℕ, ◌+◌, ◌*◌, ◌≤◌, ◌≡◌, ◌≢◌, ◌==◌, inr, if◌then◌else◌, List, [], ◌∷◌, arith, ℕ_discrete,
}
use ghost_blockchain.Environment.{Currency, TransferLaws, ExistenceRequirement}
use ghost_blockchain.Rewards.Issuance.{holdings}

-- How often an account stands in a list, and an amount as often.
abbrev pub times : (who amount : ℕ) → List ℕ → ℕ
times who amount [] = 0
times who amount (j ∷ js) = (if j == who then amount else 0) + times who amount js

-- An account of the list.
abbrev pub IsIn : ℕ → List ℕ → Type 0
IsIn who js = times who 1 js ≡ 1

times-scale : (who amount : ℕ) (js : List ℕ) → times who amount js ≡ times who 1 js * amount
times-scale who amount [] = omega arith
times-scale who amount (j ∷ js) = elim (ℕ_discrete j who) [
  | yes same ↦ grind (arith, times-scale who amount js)
  | no other ↦ ground (arith, times-scale who amount js)
]

times-IsIn : (who amount : ℕ) (js : List ℕ) → IsIn who js → times who amount js ≡ amount
times-IsIn who amount js h = rw (times-scale who amount js, h) (omega arith)

module _ {L : Type 0} (c : Currency L) where
  pub balance-le :
      (who : ℕ) (js : List ℕ) (l : L) → IsIn who js → c.free_balance l who ≤ holdings c js l
  balance-le who [] l h = absurd (omega arith)
  balance-le who (j ∷ js) l h = elim (ℕ_discrete j who) [
    | yes same ↦ rw same (omega arith)
    | no other ↦ ground (arith, balance-le who js l)
  ]

  holdings-times :
      (laws : TransferLaws c) (l l' : L) (from to amount : ℕ) (k : ExistenceRequirement)
      (js : List ℕ)
      → from ≢ to
      → c.transfer l from to amount k ≡ inr l'
      → holdings c js l' + times from amount js ≤ holdings c js l + times to amount js
  holdings-times laws l l' from to amount k [] other moved = omega arith
  holdings-times laws l l' from to amount k (j ∷ js) other moved = ground (
    arith,
    laws.transfer_moves l l' from to amount k other moved,
    laws.transfer_others l l' from to amount j k,
    holdings-times laws l l' from to amount k js other moved,
  )

  -- Between two accounts of the list nothing is gained.
  pub holdings-transfer :
      (laws : TransferLaws c) (l l' : L) (from to amount : ℕ) (k : ExistenceRequirement)
      (js : List ℕ)
      → from ≢ to
      → IsIn from js
      → IsIn to js
      → c.transfer l from to amount k ≡ inr l'
      → holdings c js l' ≤ holdings c js l
  holdings-transfer laws l l' from to amount k js other a b moved = omega (
    arith,
    holdings-times laws l l' from to amount k js other moved,
    times-IsIn from amount js a,
    times-IsIn to amount js b,
  )
