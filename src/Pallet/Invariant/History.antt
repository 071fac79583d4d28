-- ===== src/Pallet/Invariant/History.antt =====
-- The window of recent producers is determined by the events.
use ghost_blockchain.Base.{ℕ, ◌≡◌, List, ◌∷◌, [], ◌++◌, refl, arith, subst, sym, ap, ◌∙◌}
use mathlib.Core.List.{append-nil}
use ghost_blockchain.Types.{Event}
use ghost_blockchain.Environment.{Environment}
use ghost_blockchain.State.{State}
use ghost_blockchain.Rewards.{calculate_block_reward}
use ghost_blockchain.Pallet.Stake.{register_pqc_key}
use ghost_blockchain.Pallet.Report.Slash.{slash_amount, report_misbehavior_outcome}
use ghost_blockchain.Pallet.Submit.{record_block, push_recent}
use ghost_blockchain.Pallet.Submit.Window.{recent_of, push_recent-recent_of, miners, miners-append}
use ghost_blockchain.Pallet.Hooks.{on_finalize}
use ghost_blockchain.Pallet.Hooks.Phases.{on_initialize-Untouched}
use ghost_blockchain.Pallet.Transitions.{
  Step, submits, stakes, unstakes, validates, reports, registers, begins, ends, elsewhere, Reach,
  here, next, submit_block-ok, stake-ok, unstake-ok, validate_block-ok,
}

module _ {L : Type 0} (env : Environment L) where
  -- The window holds the miners of the last 100 `BlockMined` events.
  abbrev pub IsRecent : State L → Type 0
  IsRecent s = s.recent_block_producers ≡ recent_of (miners s.events)

  mined-IsRecent :
      (miner n nonce : ℕ) (s : State L)
      → IsRecent s
      → push_recent s.recent_block_producers miner
        ≡ recent_of (miners (s.events ++ Event.block_mined n miner nonce ∷ []))
  mined-IsRecent miner n nonce s h =
      ap (λ w. push_recent w miner) h
      ∙ push_recent-recent_of (miners s.events) miner
      ∙ ap recent_of (sym (miners-append s.events (Event.block_mined n miner nonce ∷ [])))

  -- Events that are no `BlockMined` leave the miners alone.
  pub other_event :
      (events : List Event) (e : Event)
      → miners (e ∷ []) ≡ []
      → miners (events ++ e ∷ []) ≡ miners events
  other_event events e h = miners-append events (e ∷ []) ∙ rw h (append-nil (miners events))

  Step-IsRecent : (s t : State L) → Step env s t → IsRecent s → IsRecent t
  unfolding on_finalize register_pqc_key record_block
  Step-IsRecent s t (submits miner header e) h =
      let (can, done) = submit_block-ok env miner header s t e in
      subst IsRecent (sym done) (mined-IsRecent miner header.number header.nonce s h)
  Step-IsRecent s t (stakes who amount other e) h =
      let (l, moved, done) = stake-ok env who amount s t e in subst IsRecent (sym done) h
  Step-IsRecent s t (unstakes who amount other e) h =
      let (l, covered, moved, done) = unstake-ok env who amount s t e in subst IsRecent (sym done) h
  Step-IsRecent s t (validates validator block_number sig e) h =
      let (header, selection, miner, v, found, done) =
        validate_block-ok env validator block_number sig s t e in
      let r = calculate_block_reward env.config.block_reward in
      let selected = Event.validator_selected validator selection.weight in
      let paid = Event.rewards_distributed miner r.miner_reward r.stakers_reward in
      subst IsRecent (sym done) (
        h
        ∙ ap recent_of (
            sym (
              other_event (s.events ++ selected ∷ []) paid refl
              ∙ other_event s.events selected refl)))
  Step-IsRecent s t (reports reporter validator reason e) h = ground (
    arith,
    report_misbehavior_outcome env reporter validator reason s,
    other_event s.events
        (Event.validator_slashed validator reason (slash_amount env validator reason s)) refl,
  )
  Step-IsRecent s t (registers validator public_key e) h = ground arith
  Step-IsRecent s t (begins n e) h =
      ground (arith, on_initialize-Untouched env n (record s { block_number = n }))
  Step-IsRecent s t (ends n e) h = ground arith
  Step-IsRecent s t (elsewhere l k e) h = ground arith

  -- From a state where it does, the window holds in every reachable state the miners of the last
  -- 100 `BlockMined` events, in order.
  pub Reach-IsRecent : (s t : State L) → Reach env s t → IsRecent s → IsRecent t
  Reach-IsRecent s _ here h = h
  Reach-IsRecent s t (next {t = u} r st) h = Step-IsRecent u t st (Reach-IsRecent s u r h)
