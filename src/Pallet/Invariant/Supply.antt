-- ===== src/Pallet/Invariant/Supply.antt =====
-- What the accounts have together along a run of the calls and the hooks of
-- pallets/pallet-ghost-consensus/src/lib.rs.
use ghost_blockchain.Base.{
  ℕ, ◌+◌, ◌*◌, ◌≤◌, ◌≡◌, refl, sym, ap, ◌∙◌, subst, arith, List, [], ◌∷◌, sum_values, StorageMap,
  u128_max,
}
use ghost_blockchain.Base.Division.{mul_mono_left}
use ghost_blockchain.Environment.{Environment, TransferLaws, DepositLaws, keep_alive, allow_death}
use ghost_blockchain.State.{State}
use ghost_blockchain.Rewards.Shares.{stake_of}
use ghost_blockchain.Rewards.Issuance.{AllDifferent, holdings}
use ghost_blockchain.Rewards.Transfers.{IsIn, balance-le, holdings-transfer}
use ghost_blockchain.Pallet.Stake.{register_pqc_key}
use ghost_blockchain.Pallet.Submit.{record_block}
use ghost_blockchain.Pallet.Validate.{stakers}
use ghost_blockchain.Pallet.Validate.Issuance.{validate_block-holdings}
use ghost_blockchain.Pallet.Report.Slash.{report_misbehavior_outcome}
use ghost_blockchain.Pallet.Hooks.{on_finalize}
use ghost_blockchain.Pallet.Hooks.Phases.{on_initialize-Untouched}
use ghost_blockchain.Pallet.Backing.{IsBacked}
use ghost_blockchain.Pallet.Transitions.{
  Step, submits, stakes, unstakes, validates, reports, registers, begins, ends, elsewhere, Reach,
  here, next, submit_block-ok, stake-ok, unstake-ok,
}
use ghost_blockchain.Pallet.Invariant.Escrow.{Reach-IsBacked}

stake_of-stakers : (m : StorageMap ℕ) → stake_of (stakers m) ≡ sum_values m
stake_of-stakers [] = refl
stake_of-stakers (e ∷ m) = omega (arith, stake_of-stakers m)

module _ {L : Type 0} (env : Environment L) where
  -- How many blocks a step, and a run, validates.
  abbrev pub validation : {s t : State L} → Step env s t → ℕ
  validation (validates validator block_number sig e) = 1
  validation (submits miner header e) = 0
  validation (stakes who amount other e) = 0
  validation (unstakes who amount other e) = 0
  validation (reports reporter validator reason e) = 0
  validation (registers validator public_key e) = 0
  validation (begins n e) = 0
  validation (ends n e) = 0
  validation (elsewhere l k e) = 0

  abbrev pub validations : {s t : State L} → Reach env s t → ℕ
  validations here = 0
  validations (next r st) = validations r + validation st

  -- The run moves funds between the accounts of a list only: those that stake and unstake are in
  -- it, and nothing happens to the ledger elsewhere.
  abbrev pub StaysIn : List ℕ → {s t : State L} → Step env s t → Type 0
  StaysIn js (stakes who amount other e) = IsIn who js
  StaysIn js (unstakes who amount other e) = IsIn who js
  StaysIn js (elsewhere l k e) = ⊥
  StaysIn js (submits miner header e) = Unit
  StaysIn js (validates validator block_number sig e) = Unit
  StaysIn js (reports reporter validator reason e) = Unit
  StaysIn js (registers validator public_key e) = Unit
  StaysIn js (begins n e) = Unit
  StaysIn js (ends n e) = Unit

  abbrev pub AllStayIn : List ℕ → {s t : State L} → Reach env s t → Type 0
  AllStayIn js here = Unit
  AllStayIn js (next r st) = AllStayIn js r × StaysIn js st

  module _ (transfers : TransferLaws env.currency) (deposits : DepositLaws env.currency)
      (js : List ℕ) (different : AllDifferent js) (listed : IsIn env.account_id js) (bound : ℕ)
      (reward_fits : env.config.block_reward * 40 ≤ u128_max) (bound_fits : bound ≤ u128_max)
      (product_fits : env.config.block_reward * bound ≤ u128_max) where
    -- The bound on a step that ends in a state.
    abbrev Gains : (validated : ℕ) → State L → State L → Type 0
    Gains validated s t =
        holdings env.currency js t.ledger
        ≤ holdings env.currency js s.ledger + validated * env.config.block_reward

    same-Gains : (s t : State L) → t.ledger ≡ s.ledger → Gains 0 s t
    same-Gains s t same = rw same (omega arith)

    -- The stakes are backed, so they fit where the holdings do.
    stakes-le :
        (s : State L)
        → IsBacked env s
        → holdings env.currency js s.ledger ≤ bound
        → stake_of (stakers s.validator_stakes) ≤ bound
    stakes-le s backed small = omega (
      arith,
      stake_of-stakers s.validator_stakes,
      balance-le env.currency env.account_id js s.ledger listed,
    )

    Step-holdings :
        (s t : State L) (st : Step env s t)
        → StaysIn js st
        → IsBacked env s
        → holdings env.currency js s.ledger ≤ bound
        → Gains (validation st) s t
    unfolding on_finalize register_pqc_key record_block
    Step-holdings s t (submits miner header e) stays backed small =
        let (can, done) = submit_block-ok env miner header s t e in
        same-Gains s t (ap (λ (u : State L). u.ledger) done)
    Step-holdings s t (stakes who amount other e) stays backed small =
        let (l, moved, done) = stake-ok env who amount s t e in
        let kept =
          holdings-transfer env.currency transfers s.ledger l who env.account_id amount keep_alive
            js other stays listed moved in
        subst (Gains 0 s) (sym done) (omega (arith, kept))
    Step-holdings s t (unstakes who amount other e) stays backed small =
        let (l, covered, moved, done) = unstake-ok env who amount s t e in
        let kept =
          holdings-transfer env.currency transfers s.ledger l env.account_id who amount allow_death
            js (λ q. other (sym q)) listed stays moved in
        subst (Gains 0 s) (sym done) (omega (arith, kept))
    Step-holdings s t (validates validator block_number sig e) stays backed small =
        let total = stakes-le s backed small in
        let gained =
          validate_block-holdings env deposits validator block_number sig js s t different
            reward_fits (omega arith)
            (omega (
              arith,
              mul_mono_left (stake_of (stakers s.validator_stakes)) bound env.config.block_reward
                  total,
            ))
            e in
        omega (arith, gained)
    Step-holdings s t (reports reporter validator reason e) stays backed small = same-Gains s t (
        sym (ap (λ r. r.1.ledger) e)
        ∙ (report_misbehavior_outcome env reporter validator reason s).2)
    Step-holdings s t (registers validator public_key e) stays backed small = ground arith
    Step-holdings s t (begins n e) stays backed small = same-Gains s t (
        ap (λ (u : State L). u.ledger) e
        ∙ (on_initialize-Untouched env n (record s { block_number = n })).same_ledger)
    Step-holdings s t (ends n e) stays backed small = ground arith
    Step-holdings s t (elsewhere l k e) stays backed small = absurd stays

    -- If the balances pallet keeps its documented promises, then along a run that begins with
    -- backed stakes and moves funds only between different listed accounts, the escrow account
    -- among them, the accounts together gain at most the block reward for each validated block: as
    -- long as what they start with and those rewards stay within a bound that fits in a `u128`,
    -- also when multiplied by the reward, and 40 times the reward fits.
    pub Reach-holdings :
        (s t : State L) (r : Reach env s t)
        → AllStayIn js r
        → IsBacked env s
        → holdings env.currency js s.ledger + validations r * env.config.block_reward ≤ bound
        → holdings env.currency js t.ledger
          ≤ holdings env.currency js s.ledger + validations r * env.config.block_reward
    Reach-holdings s _ here stays backed small = omega arith
    Reach-holdings s t (next {t = u} r st) (stays, last) backed small =
        let reward = env.config.block_reward in
        let split : (validations r + validation st) * reward
            ≡ validations r * reward + validation st * reward =
          grind arith in
        let before' = Reach-holdings s u r stays backed (omega (arith, split, small)) in
        let backed' = Reach-IsBacked env transfers deposits s u r backed in
        let step' = Step-holdings u t st last backed' (omega (arith, split, small, before')) in
        omega (arith, split, before', step')
