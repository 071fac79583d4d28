-- ===== src/Pallet/Invariant/Activity.antt =====
-- The map of last activities, as insertions build it: no account stands in it twice.
use ghost_blockchain.Base.{arith, sym, subst, HasDistinctKeys, insert-HasDistinctKeys}
use ghost_blockchain.Environment.{Environment}
use ghost_blockchain.State.{State}
use ghost_blockchain.Pallet.Stake.{register_pqc_key}
use ghost_blockchain.Pallet.Report.{report_misbehavior}
use ghost_blockchain.Pallet.Hooks.{on_finalize}
use ghost_blockchain.Pallet.Hooks.Phases.{on_initialize-Untouched}
use ghost_blockchain.Pallet.Transitions.{
  Step, submits, stakes, unstakes, validates, reports, registers, begins, ends, elsewhere, Reach,
  here, next, submit_block-ok, stake-ok, unstake-ok, validate_block-ok,
}

module _ {L : Type 0} (env : Environment L) where
  abbrev IsDistinct : State L → Type 0
  IsDistinct s = HasDistinctKeys s.last_active_block

  Step-IsDistinct : (s t : State L) → Step env s t → IsDistinct s → IsDistinct t
  unfolding on_finalize register_pqc_key report_misbehavior
  Step-IsDistinct s t (submits miner header e) h =
      let (can, done) = submit_block-ok env miner header s t e in
      subst IsDistinct (sym done)
        (insert-HasDistinctKeys env.before miner header.number s.last_active_block h)
  Step-IsDistinct s t (stakes who amount other e) h =
      let (l, moved, done) = stake-ok env who amount s t e in subst IsDistinct (sym done) h
  Step-IsDistinct s t (unstakes who amount other e) h =
      let (l, covered, moved, done) = unstake-ok env who amount s t e in
      subst IsDistinct (sym done) h
  Step-IsDistinct s t (validates validator block_number sig e) h =
      let (header, selection, miner, v, found, done) =
        validate_block-ok env validator block_number sig s t e in
      subst IsDistinct (sym done)
        (insert-HasDistinctKeys env.before validator block_number s.last_active_block h)
  Step-IsDistinct s t (reports reporter validator reason e) h = ground arith
  Step-IsDistinct s t (registers validator public_key e) h = ground arith
  Step-IsDistinct s t (begins n e) h =
      let u = on_initialize-Untouched env n (record s { block_number = n }) in
      subst IsDistinct (sym e) (rw u.same_activity h)
  Step-IsDistinct s t (ends n e) h = ground arith
  Step-IsDistinct s t (elsewhere l k e) h = ground arith

  -- What the downtime check asks of the activity map holds in every state that is reached from one
  -- where it holds.
  Reach-IsDistinct :
      (s t : State L)
      → Reach env s t
      → HasDistinctKeys s.last_active_block
      → HasDistinctKeys t.last_active_block
  Reach-IsDistinct s _ here h = h
  Reach-IsDistinct s t (next {t = u} r st) h = Step-IsDistinct u t st (Reach-IsDistinct s u r h)
