-- ===== src/Tests/Dust.antt =====
-- A currency with an existential deposit of 10: an account that may die and is left with less is
-- emptied. A staker leaves 5 units at stake, and the escrow account dies with them.
use ghost_blockchain.Base.{
  ℕ, ◌+◌, ◌-◌, ◌≤◌, ◌<◌, ◌≡◌, ◌⊎◌, inl, inr, some, [], refl, sym, ap, arith, leb, ltb, ◌==◌,
  if◌then◌else◌, Bool-cases, lookup, insert, dec_lt,
}
use ghost_blockchain.Types.{DispatchError, Origin}
use ghost_blockchain.Environment.{
  Currency, Environment, ExistenceRequirement, keep_alive, allow_death, TransferLaws,
}
use ghost_blockchain.State.{State, ok, err}
use ghost_blockchain.Pallet.Stake.{stake, unstake}
use ghost_blockchain.Tests.World.{Ledger, test_deposit, test_env, bare_state}

abbrev must_leave : ExistenceRequirement → ℕ
must_leave keep_alive = 10
must_leave allow_death = 0

abbrev without_dust : ExistenceRequirement → ℕ → ℕ
without_dust keep_alive left' = left'
without_dust allow_death left' = if ltb left' 10 then 0 else left'

abbrev dusty_move : Ledger → (from to amount : ℕ) → ExistenceRequirement → Ledger
dusty_move l from to amount k j =
    if j == from then without_dust k (l j - amount) else if j == to then l j + amount else l j

abbrev dusty_transfer :
    Ledger → (from to amount : ℕ) → ExistenceRequirement → DispatchError ⊎ Ledger
dusty_transfer l from to amount k =
    if leb (amount + must_leave k) (l from)
    then inr (dusty_move l from to amount k)
    else inl (DispatchError.currency_error 2)

abbrev dusty_currency : Currency Ledger
dusty_currency = record {
  free_balance = λ l j. l j;
  existential_deposit = 10;
  transfer = dusty_transfer;
  deposit_creating = test_deposit;
}

dusty_moved :
    (l l' : Ledger) (from to amount : ℕ) (k : ExistenceRequirement)
    → dusty_transfer l from to amount k ≡ inr l'
    → (amount + must_leave k ≤ l from) × (dusty_move l from to amount k ≡ l')
dusty_moved l l' from to amount k h = elim (Bool-cases (leb (amount + must_leave k) (l from))) [
  | inl enough ↦ (ground arith, cc (h, enough))
  | inr short ↦ absurd (ground arith)
]

pays :
    (l : Ledger) (from to amount : ℕ) (k : ExistenceRequirement)
    → amount + must_leave k ≤ l from
    → let l' = dusty_move l from to amount k in
      (l' from + amount ≡ l from)
      ⊎ ((k ≡ allow_death) × (l' from ≡ 0) × (amount ≤ l from) × (l from < amount + 10))
pays l from to amount keep_alive enough = inl (ground arith)
pays l from to amount allow_death enough = elim (dec_lt (l from - amount) 10) [
  | yes dust ↦ inr (refl, ground arith, omega arith, omega arith)
  | no more ↦ inl (ground arith)
]

dusty_transfers : TransferLaws dusty_currency
dusty_transfers = record {
  transfer_moves = λ l l' from to amount k other h.
      let (enough, done) = dusty_moved l l' from to amount k h in
      (
        rw (sym (ap (λ f. f to) done)) (ground arith),
        rw (sym (ap (λ f. f from) done)) (pays l from to amount k enough),
      );
  transfer_others = λ l l' from to amount who k a b h.
      let (enough, done) = dusty_moved l l' from to amount k h in
      rw (sym (ap (λ f. f who) done)) (ground arith);
}

abbrev dusty_env : Environment Ledger
dusty_env = record test_env { currency = dusty_currency }

-- Nobody has staked yet, and account 1 has 5000 units.
abbrev fresh : State Ledger
fresh = record bare_state { validator_stakes = []; ledger = λ j. if j == 1 then 5000 else 0 }

abbrev in_escrow : State Ledger
in_escrow = (stake dusty_env (Origin.signed 1) 1000 fresh).1

abbrev mostly_out : State Ledger
mostly_out = (unstake dusty_env (Origin.signed 1) 995 in_escrow).1

-- The last 5 units at stake are recorded and in no account, and nobody can take them out.
lost_dust :
    ((unstake dusty_env (Origin.signed 1) 995 in_escrow).0 ≡ ok tt)
    × (lookup 1 mostly_out.validator_stakes ≡ some 5)
    × (mostly_out.ledger 1 ≡ 4995)
    × (mostly_out.ledger 9 ≡ 0)
    × ((unstake dusty_env (Origin.signed 1) 5 mostly_out).0 ≡ err (DispatchError.currency_error 2))
unfolding stake unstake insert
lost_dust = (refl, refl, refl, refl, refl)
