-- ===== src/Environment/Transfers.antt =====
-- When a transfer of the balances pallet loses nothing.
use ghost_blockchain.Base.{ℕ, ◌+◌, ◌≤◌, ◌≡◌, ◌≢◌, ◌⊎◌, inl, inr, arith, ltb, if◌then◌else◌}
use ghost_blockchain.Environment.{Currency, TransferLaws, keep_alive, allow_death}

module _ {L : Type 0} (c : Currency L) where
  -- The amount leaves the one account and reaches the other.
  abbrev pub Moves : L → L → (from to amount : ℕ) → Type 0
  Moves l l' from to amount =
      (c.free_balance l' from + amount ≡ c.free_balance l from)
      × (c.free_balance l' to ≡ c.free_balance l to + amount)

  -- What must be left on an account that may die, so that nothing is lost on the way to an empty
  -- one.
  abbrev pub reserve : ℕ
  reserve = if ltb 1 c.existential_deposit then c.existential_deposit else 0

  pub transfer-keep_alive :
      TransferLaws c
      → (l l' : L) (from to amount : ℕ) → from ≢ to
      → c.transfer l from to amount keep_alive ≡ inr l'
      → Moves l l' from to amount
  transfer-keep_alive laws l l' from to amount other moved =
      let (gets, pays) = laws.transfer_moves l l' from to amount keep_alive other moved in
      elim pays [ inl exact ↦ (exact, gets) | inr (dies, dead, enough, dust) ↦ absurd (cc dies) ]

  pub transfer-allow_death :
      TransferLaws c
      → (l l' : L) (from to amount : ℕ) → from ≢ to
      → (c.free_balance l from ≡ amount) ⊎ (amount + c.existential_deposit ≤ c.free_balance l from)
      → c.transfer l from to amount allow_death ≡ inr l'
      → Moves l l' from to amount
  transfer-allow_death laws l l' from to amount other left' moved =
      let (gets, pays) = laws.transfer_moves l l' from to amount allow_death other moved in
      elim pays [
        | inl exact ↦ (exact, gets)
        | inr (dies, dead, enough, dust) ↦ elim left' [
          | inl all ↦ (omega arith, gets)
          | inr more ↦ absurd (omega arith)
        ]
      ]

  -- A reserve left behind is enough.
  pub transfer-reserve :
      TransferLaws c
      → (l l' : L) (from to amount : ℕ) → from ≢ to
      → amount + reserve ≤ c.free_balance l from
      → c.transfer l from to amount allow_death ≡ inr l'
      → Moves l l' from to amount
  transfer-reserve laws l l' from to amount other left' moved =
      let (gets, pays) = laws.transfer_moves l l' from to amount allow_death other moved in
      elim pays [
        | inl exact ↦ (exact, gets)
        | inr (dies, dead, enough, dust) ↦ (ground arith, gets)
      ]
