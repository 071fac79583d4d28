-- ===== src/Pallet/Spec/Refinement.antt =====
-- The pallet implements its specification: each step is a move, on the view of the storage as
-- functions.
use ghost_blockchain.Base.{
  ℕ, ◌+◌, ◌-◌, ◌≤◌, ◌≡◌, ◌≢◌, refl, sym, ap, ◌∙◌, fun_ext, inl, inr, [], ◌∷◌, ◌++◌, Bool, arith,
  lookup, insert, lookup-insert, StorageMap, Option-cases, not_contains_key, u128_max, wrap_u128,
  le-sum_values,
}
use ghost_blockchain.Types.{ConsensusPhase, phase_discrete, Event}
use ghost_blockchain.Environment.{Environment, TransferLaws, DepositLaws, BalancesFit, keep_alive}
use ghost_blockchain.Environment.Transfers.{transfer-keep_alive}
use ghost_blockchain.State.{State}
use ghost_blockchain.Rewards.{calculate_block_reward}
use ghost_blockchain.Pallet.Stake.{register_pqc_key}
use ghost_blockchain.Pallet.Stake.Escrow.{stake_of}
use ghost_blockchain.Pallet.Validate.{sign_header}
use ghost_blockchain.Pallet.Report.Slash.{slash_amount, report_misbehavior_outcome}
use ghost_blockchain.Pallet.Submit.Window.{miners, miners-append}
use ghost_blockchain.Pallet.Hooks.{on_initialize, on_finalize}
use ghost_blockchain.Pallet.Hooks.Phases.{on_initialize-Untouched}
use ghost_blockchain.Pallet.Backing.{IsBacked}
use ghost_blockchain.Pallet.Transitions.{
  Step, submits, stakes, unstakes, validates, reports, registers, begins, ends, elsewhere, Reach,
  here, next, submit_block-ok, stake-ok, unstake-ok, validate_block-ok,
}
use ghost_blockchain.Pallet.Invariant.Escrow.{Reach-IsBacked}
use ghost_blockchain.Pallet.Invariant.History.{other_event}
use ghost_blockchain.Pallet.Spec.{
  View, set, Move, mines, signs, deposits, withdraws, cuts, ages, closes, rests, Moves, none_yet,
  then',
}
use ghost_blockchain.Pallet.Hooks.Lowering.{on_initialize-Lowers}

abbrev pub view : {L : Type 0} → State L → View
view s = record {
  phase = s.current_phase;
  header = λ k. lookup k s.block_headers;
  producer = λ k. lookup k s.block_producers;
  stake = λ k. lookup k s.validator_stakes;
  history = miners s.events;
}

-- A write to a map is a write to its function.
insert-set :
    {A : Type 0} (before : ℕ → ℕ → Bool) (k : ℕ) (v : A) (m : StorageMap A)
    → (λ j. lookup j (insert before k v m)) ≡ set (λ j. lookup j m) k v
insert-set before k v m = fun_ext (λ j. lookup-insert before k j v m)

-- Two views with equal parts.
View-ext :
    (a b : View)
    → a.phase ≡ b.phase
    → a.header ≡ b.header
    → a.producer ≡ b.producer
    → a.stake ≡ b.stake
    → a.history ≡ b.history
    → a ≡ b
View-ext a b p h r s e =
    λ i. record { phase = p i; header = h i; producer = r i; stake = s i; history = e i }

module _ {L : Type 0} (env : Environment L) where
  unfinished :
      (n : ℕ) (s : State L)
      → s.current_phase ≢ ConsensusPhase.finalization
      → on_finalize env n s ≡ s
  unfolding on_finalize
  unfinished n s other = ground arith

  staked-fits :
      TransferLaws env.currency
      → BalancesFit env.currency
      → (who amount : ℕ) (l : L) (s : State L) → who ≢ env.account_id
      → env.currency.transfer s.ledger who env.account_id amount keep_alive ≡ inr l
      → IsBacked env s
      → stake_of env who s + amount ≤ u128_max
  staked-fits laws fits who amount l s other moved h =
      elim (Option-cases (lookup who s.validator_stakes)) [
        | inl missing ↦ rw missing (
            omega (
              arith,
              fits l env.account_id,
              transfer-keep_alive env.currency laws s.ledger l who env.account_id amount other
                  moved,
            ))
        | inr (stake, found) ↦ rw found (
            omega (
              arith,
              fits l env.account_id,
              le-sum_values who stake s.validator_stakes found,
              transfer-keep_alive env.currency laws s.ledger l who env.account_id amount other
                  moved,
            ))
      ]

  module _ (transfers : TransferLaws env.currency) (fits : BalancesFit env.currency) where
    Step-refines : (s t : State L) → Step env s t → IsBacked env s → Move (view s) (view t)
    unfolding on_finalize register_pqc_key
    Step-refines s t (submits miner header e) h =
        let ((parent, phase, pos, found, v), done) = submit_block-ok env miner header s t e in
        mines miner header parent phase pos found (
          ap view done
          ∙ View-ext _ _ refl (insert-set env.before header.number header s.block_headers)
              (insert-set env.before header.number miner s.block_producers) refl
              (miners-append s.events (Event.block_mined header.number miner header.nonce ∷ [])))
    Step-refines s t (stakes who amount other e) h =
        let (l, moved, done) = stake-ok env who amount s t e in
        let room = staked-fits transfers fits who amount l s other moved h in
        let exact : wrap_u128 (stake_of env who s + amount) ≡ stake_of env who s + amount =
          omega arith in
        deposits who amount (
          ap view done
          ∙ View-ext _ _ refl refl refl
              (insert-set env.before who (wrap_u128 (stake_of env who s + amount))
                  s.validator_stakes
                ∙ ap (set (λ j. lookup j s.validator_stakes) who) exact)
              refl)
    Step-refines s t (unstakes who amount other e) h =
        let (l, covered, moved, done) = unstake-ok env who amount s t e in
        withdraws who amount covered (
          ap view done
          ∙ View-ext _ _ refl refl refl
              (insert-set env.before who (stake_of env who s - amount) s.validator_stakes) refl)
    Step-refines s t (validates validator block_number sig e) h =
        let (header, selection, miner, v, found, done) =
          validate_block-ok env validator block_number sig s t e in
        let signed = sign_header env validator block_number sig header in
        let r = calculate_block_reward env.config.block_reward in
        let selected = Event.validator_selected validator selection.weight in
        let paid = Event.rewards_distributed miner r.miner_reward r.stakers_reward in
        signs validator block_number header signed v.phase
          (λ none'. cc (v.staked, not_contains_key validator s.validator_stakes none')) v.stored
          (λ none'. cc (none', found))
          (record {
            same_number = refl;
            same_parent = refl;
            same_state = refl;
            same_extrinsics = refl;
            same_nonce = refl;
            same_difficulty = refl;
            has_signature = λ q. cc;
            has_pqc_signature = λ q. cc;
          })
          (ap view done
            ∙ View-ext _ _ refl (insert-set env.before block_number signed s.block_headers) refl
                refl
                (other_event env (s.events ++ selected ∷ []) paid refl
                  ∙ other_event env s.events selected refl))
    Step-refines s t (reports reporter validator reason e) h =
        let o = report_misbehavior_outcome env reporter validator reason s in
        let done = ap (λ r. r.1) (sym e) in
        let slash = slash_amount env validator reason s in
        cuts validator (stake_of env validator s - slash) (omega arith) (
          ap view done
          ∙ View-ext _ _ o.3 (ap (λ m k. lookup k m) o.4) (ap (λ m k. lookup k m) o.7)
              (ap (λ m k. lookup k m) o.1
                ∙ insert-set env.before validator (stake_of env validator s - slash)
                    s.validator_stakes)
              (ap miners o.6
                ∙ other_event env s.events (Event.validator_slashed validator reason slash) refl))
    Step-refines s t (registers validator public_key e) h = rests (ap (λ r. view r.1) (sym e))
    Step-refines s t (begins n e) h =
        let s' : State L = record s { block_number = n } in
        let u = on_initialize-Untouched env n s' in
        let l = on_initialize-Lowers env n s' in
        ages (λ k. lookup k (on_initialize env n s').1.validator_stakes) l.lower l.same_absent
          l.same_present
          (ap view e
            ∙ View-ext _ _ u.same_phase (ap (λ m k. lookup k m) u.same_headers)
                (ap (λ m k. lookup k m) u.same_producers) refl u.same_miners)
    Step-refines s t (ends n e) h =
        elim (phase_discrete s.current_phase ConsensusPhase.finalization) [
          | yes finished ↦ closes finished (ap view e ∙ rw finished refl)
          | no other ↦ rests (ap view (e ∙ unfinished n s other))
        ]
    Step-refines s t (elsewhere l k e) h = rests (ap view e)

    module _ (pays : DepositLaws env.currency) where
      -- From a state whose escrow covers the stakes, with an existential deposit beyond them where
      -- that is above 1, every run of the pallet is a run of the abstract machine on its view, if
      -- the balances pallet keeps its documented promises and every balance fits in a `u128`: a
      -- phase, headers, producers and stakes as functions, where stakes never wrap, and the history
      -- of miners.
      pub Reach-refines : (s t : State L) → Reach env s t → IsBacked env s → Moves (view s) (view t)
      Reach-refines s _ here h = none_yet
      Reach-refines s t (next {t = u} r st) h =
          then' (Reach-refines s u r h)
            (Step-refines u t st (Reach-IsBacked env transfers pays s u r h))
